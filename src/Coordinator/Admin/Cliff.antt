-- ===== src/Coordinator/Admin/Cliff.antt =====
-- The two cliff detectors, of the coordinator (coordinator/admin.rs) and of the command-line worker
-- (bin/worker.rs).
use correctness_bench.Common.{
  ℕ, ◌+◌, ◌-◌, ◌≤◌, ◌<◌, ◌≡◌, refl, sym, ap, ◌∙◌, true, false, none, some, List, [], ◌∷◌, map,
  arith, ltb, ◌==◌, u64_mod, if_cases,
}
use correctness_bench.Float.{Float, whole}
use correctness_bench.Worker.Ticks.{Bucket}
use correctness_bench.EngineWorker.{
  BucketCounts, upsert, no_counts, count_bucket, accumulate, detect_cliff_rps,
}
use correctness_bench.Coordinator.Aggregate.{AggBucket}
use correctness_bench.Coordinator.Admin.{Span, no_span, extend, observe_buckets, cliff_rps}

module _ {F : Type 0} where
  -- a bucket as a fleet of one reports it
  abbrev pub reported : Bucket F → AggBucket F
  reported b = record {
    rps_lo = b.rps_lo;
    rps_hi = b.rps_hi;
    total = b.total;
    pass = b.pass;
    fail_status = b.fail_status;
    fail_latency = b.fail_latency;
    fail_size = b.fail_size;
    fail_content_type = b.fail_content_type;
    rate_limited = b.rate_limited;
  }

  abbrev pub NoneLimited : List (Bucket F) → Type 0
  NoneLimited [] = Unit
  NoneLimited (b ∷ bs) = (b.rate_limited ≡ 0) × NoneLimited bs

  abbrev span_of : BucketCounts F → Span F
  span_of c = record { lo = c.rps_lo; hi = c.rps_hi; total = c.total; pass = c.pass }

  abbrev spans : List (ℕ × BucketCounts F) → List (ℕ × Span F)
  spans [] = []
  spans ((k, c) ∷ m) = (k, span_of c) ∷ spans m

  abbrev Unlimited : List (ℕ × BucketCounts F) → Type 0
  Unlimited [] = Unit
  Unlimited ((k, c) ∷ m) = (c.rate_limited ≡ 0) × Unlimited m

module _ {F : Type 0} ⦃f : Float F⦄ where
  spans-upsert :
      (k : ℕ) (b : Bucket F) (m : List (ℕ × BucketCounts F))
      → spans (upsert k no_counts (count_bucket b) m)
        ≡ upsert k no_span (extend (reported b)) (spans m)
  unfolding upsert no_counts no_span count_bucket extend
  spans-upsert k b [] = refl
  spans-upsert k b ((j, c) ∷ m) = ground (arith, spans-upsert k b m)

  Unlimited-upsert :
      (k : ℕ) (b : Bucket F) (m : List (ℕ × BucketCounts F))
      → b.rate_limited ≡ 0
      → Unlimited m
      → Unlimited (upsert k no_counts (count_bucket b) m)
  unfolding upsert no_counts count_bucket
  Unlimited-upsert k b [] z u = ground arith
  Unlimited-upsert k b ((j, c) ∷ m) z (y, u) =
      if_cases Unlimited (j == k) ((j, count_bucket b c) ∷ m) _ (λ e. (omega arith, u))
        (λ e.
          if_cases Unlimited (ltb k j) ((k, count_bucket b no_counts) ∷ (j, c) ∷ m) _
            (λ e. (omega arith, (y, u))) (λ e. (y, Unlimited-upsert k b m z u)))

  spans-accumulate :
      (bs : List (Bucket F)) (m : List (ℕ × BucketCounts F))
      → spans (accumulate bs m) ≡ observe_buckets (map reported bs) (spans m)
  unfolding accumulate observe_buckets
  spans-accumulate [] m = refl
  spans-accumulate (b ∷ bs) m =
      let m' = upsert (f.to_u64 b.rps_lo) no_counts (count_bucket b) m in
      spans-accumulate bs m'
      ∙ ap (observe_buckets (map reported bs)) (spans-upsert (f.to_u64 b.rps_lo) b m)

  Unlimited-accumulate :
      (bs : List (Bucket F)) (m : List (ℕ × BucketCounts F))
      → NoneLimited bs
      → Unlimited m
      → Unlimited (accumulate bs m)
  unfolding accumulate
  Unlimited-accumulate [] m z u = u
  Unlimited-accumulate (b ∷ bs) m (z, zs) u =
      Unlimited-accumulate bs _ zs (Unlimited-upsert (f.to_u64 b.rps_lo) b m z u)

  cliff_rps-spans :
      (m : List (ℕ × BucketCounts F))
      → Unlimited m
      → cliff_rps (spans m) ≡ detect_cliff_rps m (f.literal 95 2) 30
  unfolding cliff_rps detect_cliff_rps
  cliff_rps-spans [] u = refl
  cliff_rps-spans ((k, c) ∷ m) (z, u) = ground (arith, cliff_rps-spans m u)

  -- Over buckets without a single 429, the coordinator and the command-line worker (at its settings, a
  -- pass rate of 0.95 and 30 samples) find the same cliff, or both none.
  pub cliff_rps-detect_cliff_rps :
      (bs : List (Bucket F))
      → NoneLimited bs
      → cliff_rps (observe_buckets (map reported bs) [])
        ≡ detect_cliff_rps (accumulate bs []) (f.literal 95 2) 30
  cliff_rps-detect_cliff_rps bs z =
      ap cliff_rps (sym (spans-accumulate bs []))
      ∙ cliff_rps-spans (accumulate bs []) (Unlimited-accumulate bs [] z tt)

  -- Where the responses of a bucket that are not 429s all pass and so are no cliff for the
  -- command-line worker, the coordinator reports one all the same once the 429s bring the share of
  -- passes in all of at least 30 responses below 0.95.
  pub cliff_rps-false :
      (b : Bucket F)
      → b.total < u64_mod
      → b.pass + b.rate_limited ≡ b.total
      → 30 ≤ b.total
      → f.lt (f.div (f.of_u64 b.pass) (f.of_u64 b.pass)) (f.literal 95 2) ≡ false
      → f.lt (f.div (f.of_u64 b.pass) (f.of_u64 b.total)) (f.literal 95 2) ≡ true
      → (detect_cliff_rps (accumulate (b ∷ []) []) (f.literal 95 2) 30 ≡ none)
        × (cliff_rps (observe_buckets (reported b ∷ []) [])
            ≡ some (f.div (f.add b.rps_lo b.rps_hi) (whole 2)))
  unfolding accumulate upsert no_counts count_bucket observe_buckets no_span extend cliff_rps
      detect_cliff_rps
  cliff_rps-false b lt all many fine bad =
      let same : b.total - b.rate_limited ≡ b.pass = omega arith in ground arith
