-- ===== src/Mock/Injection.antt =====
-- How many requests above the cliff get the failure (mock/src/lib.rs).
use correctness_bench.Common.{
  ℕ, zero, suc, ◌+◌, ◌%◌, ◌≤◌, ◌≡◌, refl, ◌&&◌, not, arith, ltb, if◌then◌else◌, min,
}
use correctness_bench.Float.{Float, whole, fclamp}
use correctness_bench.Mock.{Params, is_healthy, is_injected}

-- the failures among `n` requests numbered from `k`
abbrev pub failures : {F : Type 0} ⦃f : Float F⦄ → Params F → F → ℕ → ℕ → ℕ
failures p rps k zero = 0
failures p rps k (suc n) = (if is_injected p rps k then 1 else 0) + failures p rps (suc k) n

-- those of `n` numbers from `k` whose last two digits are below `p`
abbrev low : ℕ → ℕ → ℕ → ℕ
low p k zero = 0
low p k (suc n) = (if ltb (k % 100) p then 1 else 0) + low p (suc k) n

low_last : (p k n : ℕ) → low p k (suc n) ≡ low p k n + (if ltb ((k + n) % 100) p then 1 else 0)
low_last p k zero = ground arith
low_last p k (suc n) = ground (arith, low_last p (suc k) n)

-- A window of a hundred numbers has as many as the next one.
low_window : (p k : ℕ) → low p (suc k) 100 ≡ low p k 100
low_window p k = ground (arith, low_last p k 100)

low_from_zero : (p n : ℕ) → n ≤ 100 → low p 0 n ≡ min p n
low_from_zero p zero le = omega arith
low_from_zero p (suc n) le = ground (arith, low_last p 0 n, low_from_zero p n)

low_hundred : (p k : ℕ) → low p k 100 ≡ min p 100
low_hundred p zero = low_from_zero p 100 (omega arith)
low_hundred p (suc k) = omega (arith, low_window p k, low_hundred p k)

module _ {F : Type 0} ⦃f : Float F⦄ where
  failures-low :
      (p : Params F) (rps : F) (k n : ℕ)
      → failures p rps k n ≡ (
          if f.lt p.cliff_rps rps && not (is_healthy p.mode)
          then low (f.to_u64 (fclamp p.pct (whole 0) (whole 100))) k n
          else 0)
  unfolding is_injected
  failures-low p rps k zero = ground arith
  failures-low p rps k (suc n) = ground (arith, failures-low p rps (suc k) n)

  -- Of any hundred requests in a row, wherever they begin, exactly the given percentage gets the
  -- failure above the cliff, in every mode but the healthy one; at or below the cliff, and in the
  -- healthy mode, none does.
  pub failures_hundred :
      (p : Params F) (rps : F) (k : ℕ)
      → failures p rps k 100 ≡ (
          if f.lt p.cliff_rps rps && not (is_healthy p.mode)
          then min (f.to_u64 (fclamp p.pct (whole 0) (whole 100))) 100
          else 0)
  failures_hundred p rps k =
      rw (failures-low p rps k 100, low_hundred (f.to_u64 (fclamp p.pct (whole 0) (whole 100))) k)
        refl
