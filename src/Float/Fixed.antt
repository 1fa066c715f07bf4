-- ===== src/Float/Fixed.antt =====
-- An instance that meets the laws: decimal fixed-point numbers with six places. Witnesses are
-- evaluated in it.
use correctness_bench.Common.{
  ℕ, zero, suc, ◌+◌, ◌-◌, ◌*◌, ◌/◌, ◌^◌, arith, ltb, leb, min, u64_max, if◌then◌else◌,
}
use correctness_bench.Float.{Float, IsIeee}

abbrev pub Fixed : Type 0
Fixed = ℕ

abbrev scale : ℕ
scale = 1_000_000

-- the whole square root, bit by bit from `2 ^ k` down
isqrt_from : ℕ → ℕ → ℕ → ℕ
isqrt_from zero n r = r
isqrt_from (suc k) n r = let r' = r + 2 ^ k in isqrt_from k n (if leb (r' * r') n then r' else r)

unfoldable pub isqrt : ℕ → ℕ
unfolding isqrt_from
isqrt n = isqrt_from 64 n 0

instance abbrev pub fixed_float : Float Fixed
fixed_float = record {
  literal = λ m k. m * scale / 10 ^ k;
  of_u64 = λ n. n * scale;
  to_u64 = λ x. min (x / scale) u64_max;
  add = λ x y. x + y;
  sub = λ x y. x - y;
  mul = λ x y. x * y / scale;
  div = λ x y. x * scale / y;
  sqrt = λ x. isqrt (x * scale);
  floor = λ x. x / scale * scale;
  lt = ltb;
  le = leb;
  to_bits = λ x. if ltb x u64_max then x else x + 1;
  from_bits = λ n. if ltb n u64_max then n else n - 1;
}

pub Fixed-IsIeee : IsIeee Fixed
Fixed-IsIeee = record {
  le_trans = λ x y z h k. ground arith;
  le_of_lt = λ x y h. ground arith;
  le_of_not_lt = λ x y h k e. ground arith;
  to_bits_ne = λ x h. ground arith;
  from_bits-to_bits = λ x. ground arith;
}
