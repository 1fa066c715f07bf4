-- ===== src/Common/Words.antt =====
-- `u64` and `i64` arithmetic of a release build: additions wrap, the `saturating_` methods do not.
use Prim.Native.Nat.{ℕ, ◌+◌, ◌-◌, ◌*◌, ◌%◌, ◌^◌, min}

abbrev pub u64_mod : ℕ
u64_mod = 2 ^ 64

abbrev pub u64_max : ℕ
u64_max = 2 ^ 64 - 1

abbrev pub u64_add : ℕ → ℕ → ℕ
u64_add a b = (a + b) % u64_mod

abbrev pub u64_sub : ℕ → ℕ → ℕ
u64_sub a b = (a + u64_mod - b) % u64_mod

abbrev pub u64_mul : ℕ → ℕ → ℕ
u64_mul a b = (a * b) % u64_mod

abbrev pub saturating_add : ℕ → ℕ → ℕ
saturating_add a b = min (a + b) u64_max

abbrev pub saturating_mul : ℕ → ℕ → ℕ
saturating_mul a b = min (a * b) u64_max

-- `-` stops at 0, as `saturating_sub` does.
abbrev pub saturating_sub : ℕ → ℕ → ℕ
saturating_sub a b = a - b
