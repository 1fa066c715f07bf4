-- ===== src/Hist/Library.antt =====
-- The part of the `hdrhistogram` crate that the engine calls, and its documented behaviour.
use correctness_bench.Common.{ℕ, ◌+◌, ◌≤◌, ◌<◌, ◌≡◌, u64_mod, Option, some, List, ◌∷◌}

pub record Hdr (H : Type 0) : Type 0 where
  pub new_with_bounds : ℕ → ℕ → ℕ → H
  -- `record`; a value above the range is an error and changes nothing
  pub record_value : H → ℕ → H
  -- `none` if a value of the second does not fit the first
  pub add : H → H → Option H
  pub serialize : H → List ℕ
  pub deserialize : List ℕ → Option H
  -- the quantile in thousandths
  pub value_at_quantile : H → ℕ → ℕ
  pub len : H → ℕ
  pub max : H → ℕ
  -- the upper end of the range that it was made with
  pub limit : H → ℕ

pub record IsHdr (H : Type 0) ⦃h : Hdr H⦄ : Type 0 where
  pub limit-new : (lo hi sig : ℕ) → hi ≤ h.limit (h.new_with_bounds lo hi sig)
  pub len-new : (lo hi sig : ℕ) → h.len (h.new_with_bounds lo hi sig) ≡ 0
  pub limit-record : (g : H) (v : ℕ) → h.limit (h.record_value g v) ≡ h.limit g
  -- the number of samples is a `u64`, and saturates
  pub len-record :
      (g : H) (v : ℕ)
      → v ≤ h.limit g
      → h.len g + 1 < u64_mod
      → h.len (h.record_value g v) ≡ h.len g + 1
  pub len-add :
      (g k : H) {r : H}
      → h.add g k ≡ some r
      → h.len g + h.len k < u64_mod
      → h.len r ≡ h.len g + h.len k
  pub limit-add : (g k : H) {r : H} → h.add g k ≡ some r → h.limit r ≡ h.limit g
  pub add_fits : (g k : H) → h.limit k ≤ h.limit g → (r : H) × (h.add g k ≡ some r)
  pub deserialize-serialize : (g : H) → h.deserialize (h.serialize g) ≡ some g
  -- a serialization begins with its cookie
  pub serialize-cons : (g : H) → (b : ℕ) × (bs : List ℕ) × (h.serialize g ≡ b ∷ bs)
