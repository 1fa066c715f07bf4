-- ===== src/Common/Decimal.antt =====
-- Decimal numbers as text: `u64::from_str`, and printing a number with `{}`.
use Prim.Native.Nat.{ℕ, zero, suc, ◌+◌, ◌-◌, ◌*◌, ◌/◌, ◌%◌, ◌<◌, ◌≤◌}
use mathlib.Core.Path.{◌≡◌, sym, ap, ◌∙◌}
use mathlib.Core.Bool.{Bool, ◌&&◌}
use mathlib.Core.List.{[], ◌∷◌, ◌++◌, append_assoc, append-nil}
use mathlib.Core.Option.{Option, none, some}
use mathlib.Core.Logic.{inl, inr}
use native.Mathlib.Omega.{arith}
use correctness_bench.Common.Tests.{ltb, leb, ◌==◌, if◌then◌else◌, Bool-cases}
use correctness_bench.Common.Texts.{Bytes}
use correctness_bench.Common.Words.{u64_mod}

abbrev pub is_digit : ℕ → Bool
is_digit c = leb b'0' c && leb c b'9'

unfoldable pub parse_digits : ℕ → Bytes → Option ℕ
parse_digits acc [] = some acc
parse_digits acc (c ∷ s) =
    let v = acc * 10 + (c - b'0') in
    let rest = parse_digits v s in
    if is_digit c then (if ltb v u64_mod then rest else none) else none

-- `str::parse::<u64>().ok()`: one leading `+` is allowed, and there must be a digit.
unfoldable pub parse_u64 : Bytes → Option ℕ
unfolding parse_digits
parse_u64 [] = none
parse_u64 (c ∷ []) = if c == b'+' then none else parse_digits 0 (c ∷ [])
parse_u64 (c ∷ d ∷ s) = if c == b'+' then parse_digits 0 (d ∷ s) else parse_digits 0 (c ∷ d ∷ s)

digits : ℕ → ℕ → Bytes
digits zero n = []
digits (suc fuel) n =
    let more = digits fuel (n / 10) ++ ((b'0' + n % 10) ∷ []) in
    if ltb n 10 then (b'0' + n) ∷ [] else more

unfoldable pub decimal : ℕ → Bytes
unfolding digits
decimal n = digits (n + 1) n

parse_digits-cons :
    (acc d n : ℕ) (rest : Bytes)
    → d < 10
    → acc * 10 + d ≡ n
    → n < u64_mod
    → parse_digits acc ((b'0' + d) ∷ rest) ≡ parse_digits n rest
unfolding parse_digits
parse_digits-cons acc d n rest h e k =
    let v : acc * 10 + (b'0' + d - b'0') ≡ n = omega (arith, e) in rw v (ground arith)

parse_digits-digits :
    (fuel n : ℕ) (rest : Bytes)
    → n < fuel
    → n < u64_mod
    → parse_digits 0 (digits fuel n ++ rest) ≡ parse_digits n rest
unfolding digits
parse_digits-digits zero n rest h k = absurd (omega arith)
parse_digits-digits (suc fuel) n rest h k = elim (Bool-cases (ltb n 10)) [
  | inl e ↦ rw e (parse_digits-cons 0 n n rest (ground arith) (omega arith) k)
  | inr e ↦
      rw (e, append_assoc)
        (parse_digits-digits fuel (n / 10) _ (ground arith) (omega arith)
          ∙ parse_digits-cons (n / 10) (n % 10) n rest (omega arith) (omega arith) k)
]

-- The text of a number is not empty and does not begin with a sign.
digits_head : (fuel n : ℕ) → n < fuel → (c : ℕ) × (s : Bytes) × (digits fuel n ≡ c ∷ s) × (b'0' ≤ c)
unfolding digits
digits_head zero n h = absurd (omega arith)
digits_head (suc fuel) n h = elim (Bool-cases (ltb n 10)) [
  | inl e ↦ (b'0' + n, [], rw e, omega arith)
  | inr e ↦
      let (c, s, d, lo) = digits_head fuel (n / 10) (ground arith) in
      (c, s ++ ((b'0' + n % 10) ∷ []), rw (e, d), lo)
]

parse_u64-cons : (c : ℕ) (s : Bytes) → b'0' ≤ c → parse_u64 (c ∷ s) ≡ parse_digits 0 (c ∷ s)
unfolding parse_u64
parse_u64-cons c [] h = ground arith
parse_u64-cons c (d ∷ s) h = ground arith

-- Printing and parsing a 64-bit number gives it back.
pub parse_u64-decimal : (n : ℕ) → n < u64_mod → parse_u64 (decimal n) ≡ some n
unfolding decimal parse_digits
parse_u64-decimal n h =
    let (c, s, d, lo) = digits_head (n + 1) n (omega arith) in
    let whole : parse_digits 0 (digits (n + 1) n) ≡ some n =
      rw (append-nil (digits (n + 1) n)) at (parse_digits-digits (n + 1) n [] (omega arith) h) in
    ap parse_u64 d ∙ parse_u64-cons c s lo ∙ sym (ap (parse_digits 0) d) ∙ whole
