-- ===== src/EngineWorker.antt =====
-- engine/src/bin/worker.rs: the buckets that the command-line worker accumulates over a run, and its
-- cliff detector. A `BTreeMap` is a list in the order of its keys.
pub mod Lowest
pub mod Local
use correctness_bench.Common.{
  ℕ, Option, none, some, List, [], ◌∷◌, ltb, ◌==◌, if◌then◌else◌, u64_add, saturating_sub,
}
use correctness_bench.Float.{Float, whole}
use correctness_bench.Worker.Ticks.{Bucket}

-- `*m.entry(k).or_default()`, then updated
unfoldable pub upsert : {V : Type 0} → ℕ → V → (V → V) → List (ℕ × V) → List (ℕ × V)
upsert k default update [] = (k, update default) ∷ []
upsert k default update ((j, v) ∷ m) =
    if j == k
    then (j, update v) ∷ m
    else if ltb k j
    then (k, update default) ∷ (j, v) ∷ m
    else (j, v) ∷ upsert k default update m

pub record BucketCounts (F : Type 0) : Type 0 where
  pub rps_lo : F
  pub rps_hi : F
  pub total : ℕ
  pub pass : ℕ
  pub rate_limited : ℕ

module _ {F : Type 0} ⦃f : Float F⦄ where
  -- `BucketCounts::default`
  unfoldable pub no_counts : BucketCounts F
  no_counts = record { rps_lo = whole 0; rps_hi = whole 0; total = 0; pass = 0; rate_limited = 0 }

  unfoldable pub count_bucket : Bucket F → BucketCounts F → BucketCounts F
  count_bucket b c = record {
    rps_lo = b.rps_lo;
    rps_hi = b.rps_hi;
    total = u64_add c.total b.total;
    pass = u64_add c.pass b.pass;
    rate_limited = u64_add c.rate_limited b.rate_limited;
  }

  -- the buckets of all ticks, in order
  unfoldable pub accumulate :
      List (Bucket F) → List (ℕ × BucketCounts F) → List (ℕ × BucketCounts F)
  unfolding upsert count_bucket no_counts
  accumulate [] m = m
  accumulate (b ∷ bs) m = accumulate bs (upsert (f.to_u64 b.rps_lo) no_counts (count_bucket b) m)

  unfoldable pub detect_cliff_rps : List (ℕ × BucketCounts F) → F → ℕ → Option F
  detect_cliff_rps [] threshold min_samples = none
  detect_cliff_rps ((k, b) ∷ m) threshold min_samples =
      let rest = detect_cliff_rps m threshold min_samples in
      let denom = saturating_sub b.total b.rate_limited in
      if ltb denom min_samples
      then rest
      else if f.lt (f.div (f.of_u64 b.pass) (f.of_u64 denom)) threshold
      then some (f.div (f.add b.rps_lo b.rps_hi) (whole 2))
      else rest
