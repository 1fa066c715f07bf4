-- ===== src/EngineWorker/Lowest.antt =====
-- Which bucket the cliff detector picks (bin/worker.rs).
use correctness_bench.Common.{
  ℕ, ◌<◌, ◌≡◌, refl, ap, Bool, true, false, Option, none, some, List, [], ◌∷◌, ◌++◌, arith, ltb,
  ◌==◌, if◌then◌else◌, if_cases, saturating_sub,
}
use correctness_bench.Float.{Float, whole}
use correctness_bench.Worker.Ticks.{Bucket}
use correctness_bench.EngineWorker.{
  BucketCounts, upsert, no_counts, count_bucket, accumulate, detect_cliff_rps,
}

module _ {V : Type 0} where
  -- Every key is greater than `k`.
  abbrev pub Above : ℕ → List (ℕ × V) → Type 0
  Above k [] = Unit
  Above k ((j, v) ∷ m) = (k < j) × Above k m

  -- The keys rise.
  abbrev pub Sorted : List (ℕ × V) → Type 0
  Sorted [] = Unit
  Sorted ((k, v) ∷ m) = Above k m × Sorted m

  Above-trans : (i k : ℕ) (m : List (ℕ × V)) → i < k → Above k m → Above i m
  Above-trans i k [] lt a = tt
  Above-trans i k ((j, v) ∷ m) lt (first, rest) = (omega arith, Above-trans i k m lt rest)

  upsert-Above :
      (i k : ℕ) (d : V) (g : V → V) (m : List (ℕ × V))
      → i < k
      → Above i m
      → Above i (upsert k d g m)
  unfolding upsert
  upsert-Above i k d g [] lt a = (lt, tt)
  upsert-Above i k d g ((j, v) ∷ m) lt (first, rest) =
      if_cases (Above i) (j == k) ((j, g v) ∷ m) _ (λ e. (first, rest))
        (λ e.
          if_cases (Above i) (ltb k j) ((k, g d) ∷ (j, v) ∷ m) _ (λ e. (lt, (first, rest)))
            (λ e. (first, upsert-Above i k d g m lt rest)))

  upsert-Sorted :
      (k : ℕ) (d : V) (g : V → V) (m : List (ℕ × V)) → Sorted m → Sorted (upsert k d g m)
  unfolding upsert
  upsert-Sorted k d g [] s = (tt, tt)
  upsert-Sorted k d g ((j, v) ∷ m) (above, s) =
      if_cases Sorted (j == k) ((j, g v) ∷ m) _ (λ e. (above, s))
        (λ e.
          if_cases Sorted (ltb k j) ((k, g d) ∷ (j, v) ∷ m) _
            (λ l. ((ground arith, Above-trans k j m (ground arith) above), (above, s)))
            (λ l. (upsert-Above j k d g m (ground arith) above, upsert-Sorted k d g m s)))

module _ {F : Type 0} ⦃f : Float F⦄ where
  -- At least so many responses that are no 429s, and a share of passes among them below the threshold.
  abbrev pub is_failing : F → ℕ → BucketCounts F → Bool
  is_failing threshold min_samples b =
      let denom = saturating_sub b.total b.rate_limited in
      if ltb denom min_samples
      then false
      else f.lt (f.div (f.of_u64 b.pass) (f.of_u64 denom)) threshold

  abbrev pub NoneFails : F → ℕ → List (ℕ × BucketCounts F) → Type 0
  NoneFails t n [] = Unit
  NoneFails t n ((k, b) ∷ m) = (is_failing t n b ≡ false) × NoneFails t n m

  -- the cliff at `x` is the middle of a failing bucket with none that fails before it
  pub record CliffAt (t : F) (n : ℕ) (m : List (ℕ × BucketCounts F)) (x : F) : Type 0 where
    pub before : List (ℕ × BucketCounts F)
    pub key : ℕ
    pub here : BucketCounts F
    pub after : List (ℕ × BucketCounts F)
    pub found : m ≡ before ++ (key, here) ∷ after
    pub healthy : NoneFails t n before
    pub failing : is_failing t n here ≡ true
    pub middle : x ≡ f.div (f.add here.rps_lo here.rps_hi) (whole 2)

  abbrev pub IsCliff : F → ℕ → List (ℕ × BucketCounts F) → Option F → Type 0
  IsCliff t n m none = NoneFails t n m
  IsCliff t n m (some x) = CliffAt t n m x

  later :
      (t : F) (n k : ℕ) (b : BucketCounts F) (m : List (ℕ × BucketCounts F)) (o : Option F)
      → is_failing t n b ≡ false
      → IsCliff t n m o
      → IsCliff t n ((k, b) ∷ m) o
  later t n k b m none e c = (e, c)
  later t n k b m (some x) e c = record {
    before = (k, b) ∷ c.before;
    key = c.key;
    here = c.here;
    after = c.after;
    found = ap (λ l. (k, b) ∷ l) c.found;
    healthy = (e, c.healthy);
    failing = c.failing;
    middle = c.middle;
  }

  detect-IsCliff :
      (t : F) (n : ℕ) (m : List (ℕ × BucketCounts F)) → IsCliff t n m (detect_cliff_rps m t n)
  unfolding detect_cliff_rps
  detect-IsCliff t n [] = tt
  detect-IsCliff t n ((k, b) ∷ m) =
      let denom = saturating_sub b.total b.rate_limited in
      let rest = detect-IsCliff t n m in
      let mid = f.div (f.add b.rps_lo b.rps_hi) (whole 2) in
      let low = f.lt (f.div (f.of_u64 b.pass) (f.of_u64 denom)) t in
      let o = detect_cliff_rps m t n in
      if_cases (IsCliff t n ((k, b) ∷ m)) (ltb denom n) o (if low then some mid else o)
        (λ few. later t n k b m o (ground arith) rest)
        (λ many.
          if_cases (IsCliff t n ((k, b) ∷ m)) low (some mid) o
            (λ e. record {
              before = [];
              key = k;
              here = b;
              after = m;
              found = refl;
              healthy = tt;
              failing = ground arith;
              middle = refl;
            })
            (λ e. later t n k b m o (ground arith) rest))

  accumulate-Sorted :
      (bs : List (Bucket F)) (m : List (ℕ × BucketCounts F)) → Sorted m → Sorted (accumulate bs m)
  unfolding accumulate
  accumulate-Sorted [] m s = s
  accumulate-Sorted (b ∷ bs) m s =
      accumulate-Sorted bs _ (upsert-Sorted (f.to_u64 b.rps_lo) no_counts (count_bucket b) m s)

  -- Over the buckets of any run, the accumulated buckets stand in rising order of their rate, and the
  -- cliff is the middle of the first of them with enough responses that are no 429s and a share of
  -- passes below the threshold; there is no cliff just when none is such.
  pub detect_cliff_rps-IsCliff :
      (bs : List (Bucket F)) (threshold : F) (min_samples : ℕ)
      → Sorted (accumulate bs [])
        × IsCliff threshold min_samples
            (accumulate bs [])
            (detect_cliff_rps (accumulate bs []) threshold min_samples)
  detect_cliff_rps-IsCliff bs threshold min_samples =
      (accumulate-Sorted bs [] tt, detect-IsCliff threshold min_samples (accumulate bs []))
