-- ===== src/Worker/Reader/Framing.antt =====
-- How `read_one_response` frames a response (worker.rs).
use correctness_bench.Common.{
  ℕ, zero, suc, if_cases, Bool, ltb, ◌⊎◌, inl, inr, ◌==◌, ◌≢◌, true, false, ◌+◌, ◌-◌, ◌<◌, ◌≤◌, ◌≡◌,
  refl, sym, ◌∙◌, leb, Option, none, some, List, [], ◌∷◌, ◌++◌, Bytes, arith, length, length-append,
  u64_mod, u64_add, saturating_mul, decimal, parse_u64-decimal,
}
use mathlib.Core.List.{append-nil, append_assoc}
use mathlib.Core.Path.{subst}
use mathlib.Core.Option
use correctness_bench.Worker.Connection.{ParsedResponse, ReadResult}
use correctness_bench.Worker.Reader.{
  Head, HttpParser, no_fields, ParseOutcome, attempt, of_head, see_headers, SocketRead, got, failed,
  elapsed, Event, settle, before_read, after_read, read_one_response, read_buf_bytes,
  parse_retry_after_ms,
}

-- The delta-seconds form of `Retry-After` is read as so many thousand milliseconds, saturating.
pub parse_retry_after_ms-decimal :
    (secs : ℕ)
    → secs < u64_mod
    → parse_retry_after_ms (decimal secs) ≡ some (saturating_mul secs 1000)
unfolding parse_retry_after_ms
parse_retry_after_ms-decimal secs h = rw (parse_u64-decimal secs h)

abbrev pub bytes_of : SocketRead → Bytes
bytes_of (got bs) = bs
bytes_of failed = []
bytes_of elapsed = []

-- A read fills at most the free part of the buffer.
abbrev pub FitsBuffer : Bytes → List Event → Type 0
FitsBuffer buf [] = length buf ≤ read_buf_bytes
FitsBuffer buf (e ∷ es) = (length buf ≤ read_buf_bytes) × FitsBuffer (buf ++ bytes_of e.read) es

-- what the first `k` reads deliver
abbrev pub received : ℕ → List Event → Bytes
received zero es = []
received (suc k) [] = []
received (suc k) (e ∷ es) = bytes_of e.read ++ received k es

abbrev pub Answers : Option (ReadResult × Bytes) → Type 0
Answers o = (r : ReadResult × Bytes) × (o ≡ some r)

before_read-Answers :
    (continue : Bytes → Option (ReadResult × Bytes)) (buf : Bytes) (e : Event)
    → (length buf < length (buf ++ bytes_of e.read)
        → length buf ≢ read_buf_bytes
        → Answers (continue (buf ++ bytes_of e.read)))
    → Answers (before_read continue buf e)
unfolding before_read
before_read-Answers continue buf e more =
    if_cases Answers e.expired _ _ (λ _. (_, refl))
      (λ _.
        if_cases Answers (length buf == read_buf_bytes) _ _ (λ _. (_, refl))
          (λ room. go e.read room more))
  where
    go :
        (read : SocketRead)
        → (length buf == read_buf_bytes) ≡ false
        → (length buf < length (buf ++ bytes_of read)
            → length buf ≢ read_buf_bytes
            → Answers (continue (buf ++ bytes_of read)))
        → Answers (after_read continue buf read)
    go (got []) room more = (_, refl)
    go (got (b ∷ bs)) room more = more (omega (arith, length-append buf (b ∷ bs))) (ground arith)
    go failed room more = (_, refl)
    go elapsed room more = (_, refl)

settle-Answers :
    (o : ParseOutcome) (buf : Bytes) (more : Option (ReadResult × Bytes))
    → Answers more
    → Answers (settle o buf more)
unfolding settle
settle-Answers (ParseOutcome.complete parsed) buf more a = (_, refl)
settle-Answers ParseOutcome.bad buf more a = (_, refl)
settle-Answers ParseOutcome.need_more buf more a = a

-- The loop ends: every round takes at least one byte into a buffer of fixed size, so one event more
-- than the free bytes of the buffer is enough for a result, whatever the reads give.
pub read_one_response_total :
    (p : HttpParser) (buf : Bytes) (es : List Event)
    → FitsBuffer buf es
    → read_buf_bytes - length buf < length es
    → Answers (read_one_response p buf es)
unfolding read_one_response
read_one_response_total p buf [] fits few = absurd (omega arith)
read_one_response_total p buf (e ∷ es) (len, fits) few = settle-Answers (attempt p buf) buf _ (
    before_read-Answers (λ buf'. read_one_response p buf' es) buf e
      (λ grown room. read_one_response_total p (buf ++ bytes_of e.read) es fits (omega arith)))

-- What a successful read promises of the buffer that it leaves.
record Frames (p : HttpParser) (buf : Bytes) (es : List Event) (parsed : ParsedResponse)
    (left : Bytes) : Type 0 where
  pub rounds : ℕ
  pub delivered : left ≡ buf ++ received rounds es
  pub parses : attempt p left ≡ ParseOutcome.complete parsed

abbrev Framed : HttpParser → Bytes → List Event → Option (ReadResult × Bytes) → Type 0
Framed p buf es (some (ReadResult.ok parsed, left)) = Frames p buf es parsed left
Framed p buf es _ = Unit

settle-Framed :
    (p : HttpParser) (buf : Bytes) (es : List Event) (o : ParseOutcome)
    (more : Option (ReadResult × Bytes))
    → attempt p buf ≡ o
    → Framed p buf es more
    → Framed p buf es (settle o buf more)
unfolding settle
settle-Framed p buf es (ParseOutcome.complete parsed) more e m = record {
  rounds = 0;
  delivered = sym (append-nil buf);
  parses = e;
}
settle-Framed p buf es ParseOutcome.bad more e m = tt
settle-Framed p buf es ParseOutcome.need_more more e m = m

later-Framed :
    (p : HttpParser) (buf : Bytes) (e : Event) (es : List Event) (o : Option (ReadResult × Bytes))
    → Framed p (buf ++ bytes_of e.read) es o
    → Framed p buf (e ∷ es) o
later-Framed p buf e es none m = tt
later-Framed p buf e es (some (ReadResult.timeout, left)) m = tt
later-Framed p buf e es (some (ReadResult.err, left)) m = tt
later-Framed p buf e es (some (ReadResult.ok parsed, left)) m = record {
  rounds = suc m.rounds;
  delivered = m.delivered ∙ append_assoc buf (bytes_of e.read) (received m.rounds es);
  parses = m.parses;
}

before_read-Framed :
    (p : HttpParser) (buf : Bytes) (e : Event) (es : List Event)
    (continue : Bytes → Option (ReadResult × Bytes))
    → ((buf' : Bytes) → Framed p buf' es (continue buf'))
    → Framed p buf (e ∷ es) (before_read continue buf e)
unfolding before_read
before_read-Framed p buf e es continue more =
    if_cases (Framed p buf (e ∷ es)) e.expired _ _ (λ _. tt)
      (λ _.
        if_cases (Framed p buf (e ∷ es)) (length buf == read_buf_bytes) _ _ (λ _. tt)
          (λ _. go e.read (later-Framed p buf e es _ (more (buf ++ bytes_of e.read)))))
  where
    go :
        (read : SocketRead)
        → Framed p buf (e ∷ es) (continue (buf ++ bytes_of read))
        → Framed p buf (e ∷ es) (after_read continue buf read)
    go (got []) m = tt
    go (got (b ∷ bs)) m = m
    go failed m = tt
    go elapsed m = tt

read_one_response-Framed :
    (p : HttpParser) (buf : Bytes) (es : List Event) → Framed p buf es (read_one_response p buf es)
unfolding read_one_response
read_one_response-Framed p buf [] = settle-Framed p buf [] (attempt p buf) none refl tt
read_one_response-Framed p buf (e ∷ es) = settle-Framed p buf (e ∷ es) (attempt p buf) _ refl (
    before_read-Framed p buf e es (λ buf'. read_one_response p buf' es)
      (λ buf'. read_one_response-Framed p buf' es))

-- The response that the head begins is in the buffer with its body, or its length is no `u64`.
abbrev pub LiesIn : Head → ParsedResponse → Bytes → Type 0
LiesIn (Head.complete hdr_end code headers) parsed buf =
    (hdr_end + parsed.content_length ≤ length buf) ⊎ (u64_mod ≤ hdr_end + parsed.content_length)
LiesIn Head.partial parsed buf = ⊥
LiesIn Head.bad parsed buf = ⊥

of_head-LiesIn :
    (head : Head) (buf : Bytes) (parsed : ParsedResponse)
    → of_head head buf ≡ ParseOutcome.complete parsed
    → (parsed.msg_len ≤ length buf) × LiesIn head parsed buf
unfolding of_head
of_head-LiesIn (Head.complete hdr_end code headers) buf parsed e =
    let c = see_headers no_fields headers in
    let len : parsed.content_length ≡ c.content_length = ground (arith, e) in
    let fits : u64_add hdr_end c.content_length ≤ length buf = ground (arith, e) in
    let msg : parsed.msg_len ≡ u64_add hdr_end c.content_length = ground (arith, e) in
    (
      omega (arith, msg, fits),
      if_cases
          (λ (b : Bool).
            (hdr_end + parsed.content_length ≤ length buf)
            ⊎ (u64_mod ≤ hdr_end + parsed.content_length))
          (ltb (hdr_end + parsed.content_length) u64_mod) true false
          (λ small. inl (ground (arith, small, fits, len))) (λ large. inr (ground (arith, large))),
    )
of_head-LiesIn Head.partial buf parsed e = absurd (ground (arith, e))
of_head-LiesIn Head.bad buf parsed e = absurd (ground (arith, e))

-- A response that is returned is what the parser sees in the buffer, whose bytes are those that were
-- there and those of a prefix of the reads, in order and with none dropped. The length that is counted
-- for it is no more than the buffer's, and its head and body are in the buffer whole, unless their
-- lengths add up to 2 ^ 64 or more.
pub read_one_response_ok :
    (p : HttpParser) (buf : Bytes) (es : List Event) (parsed : ParsedResponse) (left : Bytes)
    → read_one_response p buf es ≡ some (ReadResult.ok parsed, left)
    → ((k : ℕ) × (left ≡ buf ++ received k es))
      × (attempt p left ≡ ParseOutcome.complete parsed)
      × (parsed.msg_len ≤ length left)
      × LiesIn (p.parse left) parsed left
unfolding attempt
read_one_response_ok p buf es parsed left e =
    let framed : Frames p buf es parsed left =
      subst (Framed p buf es) e (read_one_response-Framed p buf es) in
    let (counted, lies) = of_head-LiesIn (p.parse left) left parsed framed.parses in
    ((framed.rounds, framed.delivered), framed.parses, counted, lies)

-- A head that is in the buffer whole, and whose length and Content-Length do not fit 64 bits together,
-- is taken for a complete response that is shorter than its head.
pub attempt_wraps :
    (p : HttpParser) (buf : Bytes) (hdr_end : ℕ) (code : Option ℕ) (headers : List (Bytes × Bytes))
    → p.parse buf ≡ Head.complete hdr_end code headers
    → hdr_end ≤ length buf
    → hdr_end < u64_mod
    → (see_headers no_fields headers).content_length < u64_mod
    → u64_mod ≤ hdr_end + (see_headers no_fields headers).content_length
    → (parsed : ParsedResponse) × (attempt p buf ≡ ParseOutcome.complete parsed)
      × (parsed.msg_len < hdr_end)
unfolding attempt
attempt_wraps p buf hdr_end code headers e whole small h k =
    let c = see_headers no_fields headers in
    let total = u64_add hdr_end c.content_length in
    let short : total < hdr_end = omega arith in
    let fits : leb total (length buf) ≡ true = ground arith in
    (
      record {
        msg_len = total;
        status = Option.get_or code 0;
        content_length = c.content_length;
        content_type_lc = c.content_type_lc;
        retry_after_ms = c.retry_after_ms;
      },
      rw (e, fits) refl,
      short,
    )
