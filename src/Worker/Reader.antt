-- ===== src/Worker/Reader.antt =====
-- `read_one_response` and `parse_retry_after_ms` of engine/src/worker.rs. The parser of response heads
-- is the `httparse` crate, a parameter; a read from the socket is an event.
pub mod Framing
use correctness_bench.Common.{
  ℕ, zero, suc, ◌+◌, ◌-◌, ◌<◌, ◌≤◌, Bool, true, false, ◌&&◌, ◌||◌, Option, none, some, List, [],
  ◌∷◌, ◌++◌, map, Bytes, codes, ltb, leb, ◌==◌, length, if◌then◌else◌, saturating_mul, u64_add,
  parse_u64, bytes_eq, to_ascii_lowercase, trim_start, trim_end,
}
use mathlib.Core.List.{reverse}
use mathlib.Core.Option
use correctness_bench.Worker.Connection.{ParsedResponse, ReadResult}

abbrev pub read_buf_bytes : ℕ
read_buf_bytes = 65_536

-- `httparse::Response::parse`: the length of the head, the code and the headers, name and value.
pub data Head : Type 0 where
  complete : ℕ → Option ℕ → List (Bytes × Bytes) → Head
  partial : Head
  bad : Head

pub record HttpParser : Type 0 where
  pub parse : Bytes → Head

-- The validity test of `std::str::from_utf8`: `n` more bytes of a character, the next from `lo` to `hi`.
utf8_from : ℕ → ℕ → ℕ → Bytes → Bool
utf8_from zero lo hi [] = true
utf8_from (suc n) lo hi [] = false
utf8_from (suc n) lo hi (b ∷ s) = leb lo b && leb b hi && utf8_from n 0x80 0xbf s
utf8_from zero lo hi (b ∷ s) =
    let ascii = utf8_from 0 0 0 s in
    let two = utf8_from 1 0x80 0xbf s in
    let e0 = utf8_from 2 0xa0 0xbf s in
    let ed = utf8_from 2 0x80 0x9f s in
    let three = utf8_from 2 0x80 0xbf s in
    let f0 = utf8_from 3 0x90 0xbf s in
    let f4 = utf8_from 3 0x80 0x8f s in
    let four = utf8_from 3 0x80 0xbf s in
    if ltb b 0x80
    then ascii
    else if ltb b 0xc2
    then false
    else if ltb b 0xe0
    then two
    else if b == 0xe0
    then e0
    else if b == 0xed
    then ed
    else if ltb b 0xf0
    then three
    else if b == 0xf0
    then f0
    else if ltb b 0xf4
    then four
    else if b == 0xf4
    then f4
    else false

unfoldable pub is_utf8 : Bytes → Bool
unfolding utf8_from
is_utf8 = utf8_from 0 0 0

-- The white space of Unicode in UTF-8: characters of one, two and three bytes.
is_space : ℕ → Bool
is_space c = c == b' ' || leb 9 c && leb c 13

is_space_of_two : ℕ → ℕ → Bool
is_space_of_two a b = a == 0xc2 && (b == 0x85 || b == 0xa0)

is_space_of_three : ℕ → ℕ → ℕ → Bool
is_space_of_three a b c =
    a == 0xe1 && b == 0x9a && c == 0x80
    || a == 0xe2 && b == 0x80 && (leb 0x80 c && leb c 0x8a || c == 0xa8 || c == 0xa9 || c == 0xaf)
    || a == 0xe2 && b == 0x81 && c == 0x9f
    || a == 0xe3 && b == 0x80 && c == 0x80

-- how many bytes the white space character takes that a text begins with, or 0
space_first : Bytes → ℕ
unfolding is_space is_space_of_two is_space_of_three
space_first [] = 0
space_first (a ∷ []) = if is_space a then 1 else 0
space_first (a ∷ b ∷ []) = if is_space a then 1 else if is_space_of_two a b then 2 else 0
space_first (a ∷ b ∷ c ∷ s) =
    if is_space a
    then 1
    else if is_space_of_two a b
    then 2
    else if is_space_of_three a b c
    then 3
    else 0

-- the same of a text whose bytes stand in reverse
space_last : Bytes → ℕ
unfolding is_space is_space_of_two is_space_of_three
space_last [] = 0
space_last (a ∷ []) = if is_space a then 1 else 0
space_last (b ∷ a ∷ []) = if is_space b then 1 else if is_space_of_two a b then 2 else 0
space_last (c ∷ b ∷ a ∷ s) =
    if is_space c
    then 1
    else if is_space_of_two b c
    then 2
    else if is_space_of_three a b c
    then 3
    else 0

-- Takes white space off, and first the `n` bytes that are left of a character.
trim_by : (Bytes → ℕ) → ℕ → Bytes → Bytes
trim_by space n [] = []
trim_by space (suc n) (c ∷ s) = trim_by space n s
trim_by space zero (c ∷ s) =
    let size = space (c ∷ s) in
    let rest = trim_by space (size - 1) s in if size == 0 then c ∷ s else rest

-- `str::trim`
unfoldable pub trim : Bytes → Bytes
unfolding space_first space_last trim_by
trim s = reverse (trim_by space_last 0 (reverse (trim_by space_first 0 s)))

unfoldable pub parse_retry_after_ms : Bytes → Option ℕ
parse_retry_after_ms v = Option.map (λ secs. saturating_mul secs 1000) (parse_u64 v)

-- what the loop over the headers collects
pub record Fields : Type 0 where
  pub content_length : ℕ
  pub content_type_lc : Option Bytes
  pub retry_after_ms : Option ℕ

abbrev pub no_fields : Fields
no_fields = record { content_length = 0; content_type_lc = none; retry_after_ms = none }

-- one round of the loop; a value that is not UTF-8 is passed over
unfoldable pub see_header : Fields → Bytes × Bytes → Fields
unfolding is_utf8 trim parse_retry_after_ms
see_header c (name, value) =
    let is = λ (text : Bytes). bytes_eq (to_ascii_lowercase name) text in
    if is (codes "content-length")
    then if is_utf8 value
      then record c { content_length = Option.get_or (parse_u64 (trim value)) 0 }
      else c
    else if is (codes "content-type")
    then if is_utf8 value
      then record c { content_type_lc = some (to_ascii_lowercase (trim value)) }
      else c
    else if is (codes "retry-after")
    then if is_utf8 value
      then record c { retry_after_ms = parse_retry_after_ms (trim value) }
      else c
    else c

unfoldable pub see_headers : Fields → List (Bytes × Bytes) → Fields
unfolding see_header
see_headers c [] = c
see_headers c (h ∷ hs) = see_headers (see_header c h) hs

pub data ParseOutcome : Type 0 where
  complete : ParsedResponse → ParseOutcome
  need_more : ParseOutcome
  bad : ParseOutcome

-- one attempt to parse what the buffer holds; `hdr_end + cl as usize` wraps
unfoldable pub of_head : Head → Bytes → ParseOutcome
unfolding see_headers
of_head Head.partial buf = ParseOutcome.need_more
of_head Head.bad buf = ParseOutcome.bad
of_head (Head.complete hdr_end code headers) buf =
    let c = see_headers no_fields headers in
    let total = u64_add hdr_end c.content_length in
    if leb total (length buf)
    then ParseOutcome.complete (record {
      msg_len = total;
      status = Option.get_or code 0;
      content_length = c.content_length;
      content_type_lc = c.content_type_lc;
      retry_after_ms = c.retry_after_ms;
    })
    else ParseOutcome.need_more

unfoldable pub attempt : HttpParser → Bytes → ParseOutcome
unfolding of_head
attempt p buf = of_head (p.parse buf) buf

-- What a read from the socket gives; no bytes are the end of the stream.
pub data SocketRead : Type 0 where
  got : Bytes → SocketRead
  failed : SocketRead
  elapsed : SocketRead

-- `expired`: no time remains before the read is made
pub record Event : Type 0 where
  pub expired : Bool
  pub read : SocketRead

-- the end of the `match` on a read
unfoldable pub after_read :
    (Bytes → Option (ReadResult × Bytes)) → Bytes → SocketRead → Option (ReadResult × Bytes)
after_read continue buf (got []) = some (ReadResult.err, buf)
after_read continue buf (got (b ∷ bs)) = continue (buf ++ (b ∷ bs))
after_read continue buf failed = some (ReadResult.err, buf)
after_read continue buf elapsed = some (ReadResult.timeout, buf)

-- what stands before the read
unfoldable pub before_read :
    (Bytes → Option (ReadResult × Bytes)) → Bytes → Event → Option (ReadResult × Bytes)
unfolding after_read
before_read continue buf e =
    if e.expired
    then some (ReadResult.timeout, buf)
    else if length buf == read_buf_bytes
    then some (ReadResult.err, buf)
    else after_read continue buf e.read

unfoldable pub settle :
    ParseOutcome → Bytes → Option (ReadResult × Bytes) → Option (ReadResult × Bytes)
settle (ParseOutcome.complete parsed) buf more = some (ReadResult.ok parsed, buf)
settle ParseOutcome.bad buf more = some (ReadResult.err, buf)
settle ParseOutcome.need_more buf more = more

-- The loop; the buffer is its filled part, and `none` says that the events end before the loop does.
unfoldable pub read_one_response : HttpParser → Bytes → List Event → Option (ReadResult × Bytes)
unfolding attempt settle before_read
read_one_response p buf [] = settle (attempt p buf) buf none
read_one_response p buf (e ∷ es) =
    let more = before_read (λ buf'. read_one_response p buf' es) buf e in
    settle (attempt p buf) buf more
