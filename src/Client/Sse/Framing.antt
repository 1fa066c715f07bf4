-- ===== src/Client/Sse/Framing.antt =====
-- What the client takes from the text that the control plane sends: a greeting, which is a comment, and a
-- message per tick (`parse_sse` and `stream_ticks`, cli/src/main.rs).
use mathlib.Core.List.{reverse, reverse_aux, reverse-reverse}
use correctness_bench.Common.{
  ℕ, ◌≡◌, ◌≢◌, refl, ap, ◌∙◌, Bool, false, ◌||◌, Option, none, some, List, [], ◌∷◌, ◌++◌, map,
  Bytes, arith, codes, ◌==◌, if◌then◌else◌, any, trim_start, trim_end, is_empty, All,
}
use correctness_bench.Client.Sse.{
  split_block, drain_all, lines, SseEvent, read_trimmed, read_line, read_lines, parse_sse,
}
use correctness_bench.Client.Sse.Chunks.{drain_all-some, drain_all-none}

abbrev pub has : ℕ → Bytes → Bool
has c = any (λ x. x == c)

split_block-line :
    (l b r s : Bytes) (c : ℕ)
    → has b'\n' l ≡ false
    → c ≢ b'\n'
    → split_block (c ∷ s) ≡ some (b, r)
    → split_block (l ++ (b'\n' ∷ c ∷ s)) ≡ some (l ++ (b'\n' ∷ b), r)
unfolding split_block
split_block-line [] b r s c plain ne e = ground (arith, ne, e)
split_block-line (a ∷ []) b r s c plain ne e =
    ground (arith, plain, split_block-line [] b r s c refl ne e)
split_block-line (a ∷ x ∷ l) b r s c plain ne e =
    ground (arith, plain, split_block-line (x ∷ l) b r s c (ground (arith, plain)) ne e)

split_block-last :
    (l r : Bytes)
    → has b'\n' l ≡ false
    → split_block (l ++ (b'\n' ∷ b'\n' ∷ r)) ≡ some (l ++ (b'\n' ∷ b'\n' ∷ []), r)
unfolding split_block
split_block-last [] r plain = refl
split_block-last (a ∷ []) r plain = ground (arith, plain)
split_block-last (a ∷ x ∷ l) r plain =
    ground (arith, plain, split_block-last (x ∷ l) r (ground (arith, plain)))

lines-line : (l s : Bytes) → has b'\n' l ≡ false → lines (l ++ (b'\n' ∷ s)) ≡ l ∷ lines s
unfolding lines
lines-line [] s plain = refl
lines-line (a ∷ l) s plain = ground (arith, plain, lines-line l s (ground (arith, plain)))

trim_start_self : (c : ℕ) (s : Bytes) → has c s ≡ false → trim_start c s ≡ s
trim_start_self c [] e = refl
trim_start_self c (x ∷ s) e = ground (arith, e)

has-reverse_aux : (c : ℕ) (s t : Bytes) → has c (reverse_aux s t) ≡ has c s || has c t
has-reverse_aux c [] t = refl
has-reverse_aux c (x ∷ s) t = ground (arith, has-reverse_aux c s (x ∷ t))

trim_end_self : (c : ℕ) (s : Bytes) → has c s ≡ false → trim_end c s ≡ s
trim_end_self c s e =
    let back : has c (reverse s) ≡ false = ground (arith, e, has-reverse_aux c s []) in
    ap reverse (trim_start_self c (reverse s) back) ∙ reverse-reverse s

-- A message of the control plane: the number of its second, and the rest of its JSON object.
pub record Message : Type 0 where
  pub id : Bytes
  pub rest : Bytes

abbrev pub payload : Message → Bytes
payload m = b'{' ∷ m.rest

-- The texts hold no line break: in the JSON text of a string it is escaped.
pub record IsPlain (m : Message) : Type 0 where
  pub id_plain : has b'\n' m.id ≡ false
  pub id_no_cr : has b'\r' m.id ≡ false
  pub rest_plain : has b'\n' m.rest ≡ false
  pub rest_no_cr : has b'\r' m.rest ≡ false

abbrev id_line : Message → Bytes
id_line m = codes "id: " ++ m.id

abbrev data_line : Message → Bytes
data_line m = codes "data: " ++ payload m

-- the text "event: tick\nid: {}\ndata: {}\n\n" of a message, before `s`
abbrev pub message : Message → Bytes → Bytes
message m s =
    codes "event: tick" ++ (b'\n' ∷ (id_line m ++ (b'\n' ∷ (data_line m ++ (b'\n' ∷ b'\n' ∷ s)))))

split_block-message :
    (m : Message) (s : Bytes) → IsPlain m → split_block (message m s) ≡ some (message m [], s)
split_block-message m s plain =
    let last = split_block-last (data_line m) s plain.rest_plain in
    let id = split_block-line (id_line m) _ s _ b'd' plain.id_plain (ground arith) last in
    split_block-line (codes "event: tick") _ s _ b'i' refl (ground arith) id

lines-message :
    (m : Message)
    → IsPlain m
    → lines (message m []) ≡ codes "event: tick" ∷ id_line m ∷ data_line m ∷ [] ∷ [] ∷ []
lines-message m plain =
    lines-line (codes "event: tick") _ refl
    ∙ ap (λ ls. codes "event: tick" ∷ ls)
        (lines-line (id_line m) _ plain.id_plain
          ∙ ap (λ ls. id_line m ∷ ls)
              (lines-line (data_line m) _ plain.rest_plain ∙ unfold lines in refl))

read_line-id : (m : Message) (e : SseEvent) → IsPlain m → read_line (id_line m) e ≡ e
unfolding read_line read_trimmed
read_line-id m e plain =
    let kept : trim_end b'\r' (id_line m) ≡ id_line m =
      trim_end_self b'\r' (id_line m) plain.id_no_cr in
    ap (λ l. read_trimmed l e) kept

read_line-data :
    (m : Message) (n : Bytes)
    → IsPlain m
    → read_line (data_line m) (record { name = n; data_ = [] })
      ≡ record { name = n; data_ = payload m }
unfolding read_line read_trimmed
read_line-data m n plain =
    let kept : trim_end b'\r' (data_line m) ≡ data_line m =
      trim_end_self b'\r' (data_line m) plain.rest_no_cr in
    ap (λ l. read_trimmed l (record { name = n; data_ = [] })) kept

abbrev read_from : SseEvent → List Bytes → Option SseEvent
read_from e ls = let r = read_lines ls e in if is_empty r.data_ then none else some r

-- A message is read as a `tick` event with its JSON text.
parse_sse-message :
    (m : Message)
    → IsPlain m
    → parse_sse (message m []) ≡ some (record { name = codes "tick"; data_ = payload m })
unfolding parse_sse read_lines read_line read_trimmed
parse_sse-message m plain =
    let none_yet : SseEvent = record { name = codes "tick"; data_ = [] } in
    ap (read_from (record { name = codes "message"; data_ = [] })) (lines-message m plain)
    ∙ ap (λ e. read_from e (data_line m ∷ [] ∷ [] ∷ [])) (read_line-id m none_yet plain)
    ∙ ap (λ e. read_from e ([] ∷ [] ∷ [])) (read_line-data m (codes "tick") plain)

-- the text of a stream: the greeting of a run, and its messages
abbrev pub sent : List Message → Bytes
sent [] = []
sent (m ∷ ms) = message m (sent ms)

abbrev greeting : Bytes → Bytes → Bytes
greeting run_id s = codes ": connected to run " ++ run_id ++ (b'\n' ∷ b'\n' ∷ s)

abbrev pub stream_of : Bytes → List Message → Bytes
stream_of run_id ms = greeting run_id (sent ms)

abbrev message_of : Message → Bytes
message_of m = message m []

drain_all-sent :
    (ms : List Message) → All IsPlain ms → drain_all (sent ms) ≡ (map message_of ms, [])
drain_all-sent [] plain = drain_all-none [] (unfold split_block in refl)
drain_all-sent (m ∷ ms) (here, plain) =
    drain_all-some (sent (m ∷ ms)) (message m []) (sent ms) (split_block-message m (sent ms) here)
    ∙ ap (λ p. (message m [] ∷ p.0, p.1)) (drain_all-sent ms plain)

drain_all-stream_of :
    (run_id : Bytes) (ms : List Message)
    → has b'\n' run_id ≡ false
    → All IsPlain ms
    → drain_all (stream_of run_id ms) ≡ (greeting run_id [] ∷ map message_of ms, [])
drain_all-stream_of run_id ms plain all =
    drain_all-some (stream_of run_id ms) (greeting run_id []) (sent ms)
      (split_block-last (codes ": connected to run " ++ run_id) (sent ms) plain)
    ∙ ap (λ p. (greeting run_id [] ∷ p.0, p.1)) (drain_all-sent ms all)

-- The greeting is no event.
parse_sse-greeting :
    (run_id : Bytes)
    → has b'\n' run_id ≡ false
    → has b'\r' run_id ≡ false
    → parse_sse (greeting run_id []) ≡ none
unfolding parse_sse read_lines read_line read_trimmed
parse_sse-greeting run_id plain no_cr =
    let line = codes ": connected to run " ++ run_id in
    let kept : trim_end b'\r' line ≡ line = trim_end_self b'\r' line no_cr in
    let start : SseEvent = record { name = codes "message"; data_ = [] } in
    ap (read_from start) (lines-line line (b'\n' ∷ []) plain)
    ∙ ap (λ l. read_from (read_trimmed l start) (lines (b'\n' ∷ []))) kept
    ∙ unfold lines in refl

abbrev pub event_of : Message → SseEvent
event_of m = record { name = codes "tick"; data_ = payload m }

map-parse_sse-message :
    (ms : List Message)
    → All IsPlain ms
    → map parse_sse (map message_of ms) ≡ map (λ m. some (event_of m)) ms
map-parse_sse-message [] plain = refl
map-parse_sse-message (m ∷ ms) (here, plain) =
    ground (arith, parse_sse-message m here, map-parse_sse-message ms plain)

-- The blocks that the client cuts from the stream of a run, whose number has no line break, are the
-- greeting, which is no event, and then one `tick` event for each message, with its JSON text; nothing is
-- left over.
pub drain_all-events :
    (run_id : Bytes) (ms : List Message)
    → has b'\n' run_id ≡ false
    → has b'\r' run_id ≡ false
    → All IsPlain ms
    → let r = drain_all (stream_of run_id ms) in
      (map parse_sse r.0 ≡ none ∷ map (λ m. some (event_of m)) ms) × (r.1 ≡ [])
drain_all-events run_id ms plain no_cr all =
    let cut = drain_all-stream_of run_id ms plain all in
    (
      ap (λ p. map parse_sse p.0) cut
          ∙ ap (λ e. e ∷ map parse_sse (map message_of ms)) (parse_sse-greeting run_id plain no_cr)
          ∙ ap (λ es. none ∷ es) (map-parse_sse-message ms all),
      ap (λ p. p.1) cut,
    )
