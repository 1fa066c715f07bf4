-- ===== src/Mock/Response.antt =====
-- The response of the mock, with its headers (`handle`, mock/src/lib.rs), and what the worker's reader
-- makes of it (worker.rs).
use correctness_bench.Common.{
  ℕ, ◌+◌, ◌*◌, ◌<◌, ◌≤◌, ◌≡◌, refl, Bool, true, false, inl, inr, Option, none, some, List, [], ◌∷◌,
  ◌&&◌, ◌++◌, String, Bytes, codes, decimal, parse_u64, length, arith, u64_mod, u64_add, ◌==◌,
  if◌then◌else◌, Bool-cases, if_cases, ◌||◌, bytes_eq, to_ascii_lowercase, ap, sym, ◌∙◌,
}
use mathlib.Core.Option
use correctness_bench.Float.{Float}
use correctness_bench.Worker.Connection.{ParsedResponse}
use correctness_bench.Worker.Reader.{
  Head, HttpParser, Fields, no_fields, see_header, see_headers, ParseOutcome, of_head, attempt,
}
use correctness_bench.Worker.Assert.{pass, classify}
use correctness_bench.Mock.{
  Mode, healthy, fast500, truncate, wrong_value, slow_ok, ratelimit, Params, Decision, AppState,
  current_requests, handle, inject, is_injected, decide, healthy_body, truncate_body,
}
use correctness_bench.Mock.Judged.{
  decide_injected, decide_spared, json_rules, tier_of, decide-tier_of,
}

unfoldable pub bool_header : Bool → Bytes
bool_header b = codes (if b then "true" else "false")

unfoldable pub mode_header : Mode → Bytes
mode_header healthy = codes "healthy"
mode_header fast500 = codes "fast500"
mode_header truncate = codes "truncate"
mode_header wrong_value = codes "wrong_value"
mode_header slow_ok = codes "slow_ok"
mode_header ratelimit = codes "ratelimit"

pub record Response : Type 0 where
  pub status : ℕ
  pub headers : List (Bytes × Bytes)
  pub body : String

unfoldable pub retry_header : Option ℕ → List (Bytes × Bytes)
retry_header none = []
retry_header (some secs) = (codes "retry-after", decimal secs) ∷ []

-- the headers of the response, and the one by which the server gives the length of the body
abbrev pub sent : Response → List (Bytes × Bytes)
sent r = r.headers ++ ((codes "content-length", decimal (length (codes r.body))) ∷ [])

-- what the worker needs of a response of the mock
abbrev pub fields_of : Decision → Fields
fields_of d = record {
  content_length = length (codes d.body);
  content_type_lc = some (codes "application/json");
  retry_after_ms = if d.status == 429 then some 1000 else none;
}

abbrev pub is_ratelimit : Mode → Bool
is_ratelimit ratelimit = true
is_ratelimit _ = false

-- the response that the worker parses from the mock's, of `n` bytes in all
abbrev pub parsed_of : ℕ → Decision → ParsedResponse
parsed_of n d = record {
  msg_len = n;
  status = d.status;
  content_length = length (codes d.body);
  content_type_lc = some (codes "application/json");
  retry_after_ms = if d.status == 429 then some 1000 else none;
}

inject-429 :
    (m : Mode) (above : Bool) (base : ℕ) → ((inject m above base).status == 429) ≡ is_ratelimit m
unfolding inject
inject-429 healthy above base = refl
inject-429 fast500 above base = refl
inject-429 truncate above base = refl
inject-429 wrong_value above base = refl
inject-429 slow_ok above base = refl
inject-429 ratelimit above base = refl

of_head-complete :
    (hdr_end : ℕ) (code : Option ℕ) (headers : List (Bytes × Bytes)) (buf : Bytes) (c : Fields)
    → see_headers no_fields headers ≡ c
    → u64_add hdr_end c.content_length ≡ length buf
    → of_head (Head.complete hdr_end code headers) buf
      ≡ ParseOutcome.complete (record {
        msg_len = length buf;
        status = Option.get_or code 0;
        content_length = c.content_length;
        content_type_lc = c.content_type_lc;
        retry_after_ms = c.retry_after_ms;
      })
unfolding of_head
of_head-complete hdr_end code headers buf c e len = rw e (rw len (ground arith))

-- the headers that the worker looks at
abbrev is_read : Bytes → Bool
is_read name =
    bytes_eq (to_ascii_lowercase name) (codes "content-length")
    || bytes_eq (to_ascii_lowercase name) (codes "content-type")
    || bytes_eq (to_ascii_lowercase name) (codes "retry-after")

abbrev pub read_of : List (Bytes × Bytes) → List (Bytes × Bytes)
read_of [] = []
read_of ((name, value) ∷ hs) =
    let rest = read_of hs in if is_read name then (name, value) ∷ rest else rest

see_header_unread :
    (c : Fields) (name value : Bytes) → is_read name ≡ false → see_header c (name, value) ≡ c
unfolding see_header
see_header_unread c name value e = ground (arith, e)

-- The other headers make no difference.
see_headers-read_of :
    (c : Fields) (hs : List (Bytes × Bytes)) → see_headers c (read_of hs) ≡ see_headers c hs
unfolding see_headers
see_headers-read_of c [] = refl
see_headers-read_of c ((name, value) ∷ hs) =
    let rest = read_of hs in
    if_cases (λ l. see_headers c l ≡ see_headers c ((name, value) ∷ hs)) (is_read name)
      ((name, value) ∷ rest) rest (λ e. see_headers-read_of (see_header c (name, value)) hs)
      (λ e.
        see_headers-read_of c hs
        ∙ ap (λ d. see_headers d hs) (sym (see_header_unread c name value e)))

module _ {F : Type 0} ⦃f : Float F⦄ where
  -- the headers that `handle` inserts, in that order
  unfoldable pub headers_of : Mode → F → Decision → List (Bytes × Bytes)
  unfolding bool_header mode_header retry_header
  headers_of mode rps d =
      (codes "content-type", codes "application/json")
      ∷ (codes "x-mock-mode", mode_header mode)
      ∷ (codes "x-mock-rps", decimal (f.to_u64 rps))
      ∷ (codes "x-mock-above-cliff", bool_header d.above_cliff)
      ∷ (codes "x-mock-injected", bool_header d.injected)
      ∷ retry_header d.retry_after_secs

  unfoldable pub respond : Mode → F → Decision → Response
  unfolding headers_of
  respond mode rps d = record { status = d.status; headers = headers_of mode rps d; body = d.body }

  -- what goes over the wire for one request
  unfoldable pub answer : ℕ → Params F → AppState → AppState × Response
  unfolding respond handle
  answer now params st =
      let (st', d) = handle now params st in
      (st', respond params.mode (f.of_u64 (current_requests now st'.meter)) d)

  inject-fields_of :
      (m mode : Mode) (rps : F) (above injected : Bool) (base : ℕ)
      → let d = record (inject m above base) { injected = injected } in
        see_headers no_fields (sent (respond mode rps d)) ≡ fields_of d
  unfolding see_headers respond inject decimal parse_u64
  inject-fields_of healthy mode rps above injected base = refl
  inject-fields_of fast500 mode rps above injected base = refl
  inject-fields_of truncate mode rps above injected base = refl
  inject-fields_of wrong_value mode rps above injected base = refl
  inject-fields_of slow_ok mode rps above injected base = refl
  inject-fields_of ratelimit mode rps above injected base = refl

  decide-fields_of :
      (p : Params F) (mode : Mode) (rps : F) (seq : ℕ)
      → let d = decide p rps seq in see_headers no_fields (sent (respond mode rps d)) ≡ fields_of d
  unfolding inject respond see_headers
  decide-fields_of p mode rps seq =
      let above = f.lt p.cliff_rps rps in
      let base = p.base_latency_ms in
      elim (Bool-cases (is_injected p rps seq)) [
        | inl e ↦
            rw (decide_injected p rps seq e) (inject-fields_of p.mode mode rps above true base)
        | inr e ↦
            rw (decide_spared p rps seq e) (inject-fields_of healthy mode rps above false base)
      ]

  attempt-respond :
      (hp : HttpParser) (p : Params F) (rps : F) (seq hdr_end : ℕ) (headers : List (Bytes × Bytes))
      (buf : Bytes)
      → let d = decide p rps seq in
        let r = respond p.mode rps d in
        hp.parse buf ≡ Head.complete hdr_end (some r.status) headers
        → read_of headers ≡ read_of (sent r)
        → length buf ≡ hdr_end + length (codes r.body)
        → length buf < u64_mod
        → attempt hp buf ≡ ParseOutcome.complete (parsed_of (length buf) d)
  unfolding attempt respond
  attempt-respond hp p rps seq hdr_end headers buf e same len small =
      let d = decide p rps seq in
      rw e (
        of_head-complete hdr_end (some d.status) headers buf (fields_of d)
          (sym (see_headers-read_of no_fields headers)
            ∙ ap (see_headers no_fields) same
            ∙ see_headers-read_of no_fields (sent (respond p.mode rps d))
            ∙ decide-fields_of p p.mode rps seq)
          (omega (arith, len)))

  status-429 :
      (p : Params F) (rps : F) (seq : ℕ)
      → let limited = is_injected p rps seq && is_ratelimit p.mode in
        ((decide p rps seq).status == 429) ≡ limited
  status-429 p rps seq = elim (Bool-cases (is_injected p rps seq)) [
    | inl e ↦ rw (decide_injected p rps seq e, e) (inject-429 p.mode _ _)
    | inr e ↦ rw (decide_spared p rps seq e, e) (inject-429 healthy _ _)
  ]

  -- The worker that reads a response of the mock, whose head its parser splits into the status and the
  -- headers, finishes it with the last byte of the body (lengths and latencies being below 2 ^ 64). Of
  -- `Content-Length`, `Content-Type` and `Retry-After`, the server is to have added the body's length
  -- alone; it may add any other headers anywhere. If it asks for JSON of any
  -- 2xx status, for a body longer than the truncated one and no longer than the healthy one, and
  -- for a latency between what the network adds and the penalty of a slow response, then its
  -- verdict is the one that the mock's mode stands for on an injected failure, and a pass
  -- otherwise. It reads a `Retry-After` of one second just from an injected 429.
  pub attempt-tier_of :
      (hp : HttpParser) (p : Params F) (rps : F)
      (seq hdr_end max_latency_us min_body_bytes extra : ℕ) (headers : List (Bytes × Bytes))
      (buf : Bytes)
      → let d = decide p rps seq in
        let r = respond p.mode rps d in
        hp.parse buf ≡ Head.complete hdr_end (some r.status) headers
        → read_of headers ≡ read_of (sent r)
        → length buf ≡ hdr_end + length (codes r.body)
        → length buf < u64_mod
        → p.base_latency_ms + 500 < u64_mod
        → length (codes truncate_body) < min_body_bytes
        → min_body_bytes ≤ length (codes healthy_body)
        → p.base_latency_ms * 1000 + extra ≤ max_latency_us
        → max_latency_us < p.base_latency_ms * 1000 + 500_000
        → let injected = is_injected p rps seq in
          (parsed : ParsedResponse) × (attempt hp buf ≡ ParseOutcome.complete parsed)
          × (parsed.msg_len ≡ length buf)
          × (classify
                (json_rules max_latency_us min_body_bytes)
                parsed.status
                (d.latency_ms * 1000 + extra)
                parsed.content_length
                parsed.content_type_lc
              ≡ (if injected then tier_of p.mode else pass))
          × (parsed.retry_after_ms ≡ (if injected && is_ratelimit p.mode then some 1000 else none))
  attempt-tier_of hp p rps seq hdr_end mx mn extra headers buf e same len small room short long
        quick slow =
      (
        parsed_of (length buf) (decide p rps seq),
        attempt-respond hp p rps seq hdr_end headers buf e same len small,
        refl,
        decide-tier_of p rps seq mx mn extra room short long quick slow,
        rw (status-429 p rps seq) refl,
      )
