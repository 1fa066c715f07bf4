-- ===== src/Float.antt =====
-- What the code does with an `f64`. The type and its operations are a parameter, an instance that the
-- definitions take; the laws are properties of IEEE 754 arithmetic that a theorem may assume.
pub mod Fixed
use correctness_bench.Common.{ℕ, ◌≡◌, Bool, true, false, ◌≢◌, u64_max, if◌then◌else◌}

pub record Float (F : Type 0) : Type 0 where
  -- the literal `m / 10 ^ k`
  pub literal : ℕ → ℕ → F
  -- `n as f64`
  pub of_u64 : ℕ → F
  -- `x as u64`, which rounds towards zero and saturates
  pub to_u64 : F → ℕ
  pub add : F → F → F
  pub sub : F → F → F
  pub mul : F → F → F
  pub div : F → F → F
  pub sqrt : F → F
  pub floor : F → F
  -- `x < y`, and `x <= y`: both are false if one of the two is NaN
  pub lt : F → F → Bool
  pub le : F → F → Bool
  pub to_bits : F → ℕ
  pub from_bits : ℕ → F

-- `x as f64` of a whole literal such as `2.0`
abbrev pub whole : {F : Type 0} ⦃f : Float F⦄ → ℕ → F
whole ⦃f⦄ n = f.literal n 0

-- `f64::min`, for values that are not NaN
abbrev pub fmin : {F : Type 0} ⦃f : Float F⦄ → F → F → F
fmin ⦃f⦄ x y = if f.lt y x then y else x

-- `f64::clamp`
abbrev pub fclamp : {F : Type 0} ⦃f : Float F⦄ → F → F → F → F
fclamp ⦃f⦄ x lo hi = if f.lt x lo then lo else if f.lt hi x then hi else x

infix 4 ◌≼◌ ◌≺◌
abbrev pub ◌≼◌ : {F : Type 0} ⦃f : Float F⦄ → F → F → Type 0
◌≼◌ ⦃f⦄ x y = f.le x y ≡ true

abbrev pub ◌≺◌ : {F : Type 0} ⦃f : Float F⦄ → F → F → Type 0
◌≺◌ ⦃f⦄ x y = f.lt x y ≡ true

-- The comparisons are an order away from NaN, which is not `<=` itself; a pattern of bits is read back.
pub record IsIeee (F : Type 0) ⦃f : Float F⦄ : Type 0 where
  pub le_trans : (x y z : F) → x ≼ y → y ≼ z → x ≼ z
  pub le_of_lt : (x y : F) → x ≺ y → x ≼ y
  pub le_of_not_lt : (x y : F) → x ≼ x → y ≼ y → f.lt y x ≡ false → x ≼ y
  -- all ones is the pattern of a NaN
  pub to_bits_ne : (x : F) → x ≼ x → f.to_bits x ≢ u64_max
  pub from_bits-to_bits : (x : F) → f.from_bits (f.to_bits x) ≡ x
