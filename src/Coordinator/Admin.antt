-- ===== src/Coordinator/Admin.antt =====
-- engine/src/coordinator/admin.rs: what a run's ticks leave for its final report, the report, and the
-- abort endpoint. Base64 is a parameter.
pub mod Cliff
pub mod Runs
use correctness_bench.Common.{
  ℕ, Bool, true, false, ◌⊎◌, inl, inr, Option, none, some, List, [], ◌∷◌, String, Bytes, ltb, not,
  ◌&&◌, if◌then◌else◌, is_empty, u64_add,
}
use correctness_bench.Float.{Float, whole}
use correctness_bench.EngineWorker.{upsert}
use correctness_bench.Coordinator.{CoordinatorState, AbortCall, abort_run}
use correctness_bench.Coordinator.Dispatch.{Warning, DispatchSummary}
use correctness_bench.Coordinator.Aggregate.{AggBucket, AggregatedTick}

-- a value of the map of buckets: `rps_lo`, `rps_hi`, the total, and those that passed
pub record Span (F : Type 0) : Type 0 where
  pub lo : F
  pub hi : F
  pub total : ℕ
  pub pass : ℕ

pub record FinalsAcc (F : Type 0) : Type 0 where
  pub last_p50_us : ℕ
  pub last_p95_us : ℕ
  pub last_p99_us : ℕ
  pub last_achieved_rps : F
  pub last_hist_v2 : Bytes
  pub last_uncorrected_hist_v2 : Bytes
  pub buckets : List (ℕ × Span F)

module _ {F : Type 0} ⦃f : Float F⦄ where
  unfoldable pub no_span : Span F
  no_span = record { lo = whole 0; hi = whole 0; total = 0; pass = 0 }

  -- `FinalsAcc::default`
  unfoldable pub no_finals : FinalsAcc F
  no_finals = record {
    last_p50_us = 0;
    last_p95_us = 0;
    last_p99_us = 0;
    last_achieved_rps = whole 0;
    last_hist_v2 = [];
    last_uncorrected_hist_v2 = [];
    buckets = [];
  }

  unfoldable pub extend : AggBucket F → Span F → Span F
  extend b e = record {
    lo = b.rps_lo;
    hi = b.rps_hi;
    total = u64_add e.total b.total;
    pass = u64_add e.pass b.pass;
  }

  unfoldable pub observe_buckets : List (AggBucket F) → List (ℕ × Span F) → List (ℕ × Span F)
  unfolding upsert no_span extend
  observe_buckets [] m = m
  observe_buckets (b ∷ bs) m = observe_buckets bs (upsert (f.to_u64 b.rps_lo) no_span (extend b) m)

  unfoldable pub observe : AggregatedTick F → FinalsAcc F → FinalsAcc F
  unfolding observe_buckets
  observe tick a =
      let p = tick.percentiles_so_far in
      let fresh = ltb 0 p.p99_us in
      record {
        last_p50_us = if fresh then p.p50_us else a.last_p50_us;
        last_p95_us = if fresh then p.p95_us else a.last_p95_us;
        last_p99_us = if fresh then p.p99_us else a.last_p99_us;
        last_achieved_rps = tick.achieved_rps_1s;
        last_hist_v2 = if is_empty tick.merged_hist_v2 then a.last_hist_v2 else tick.merged_hist_v2;
        last_uncorrected_hist_v2 =
            if is_empty tick.merged_uncorrected_hist_v2
            then a.last_uncorrected_hist_v2
            else tick.merged_uncorrected_hist_v2;
        buckets = observe_buckets tick.buckets a.buckets;
      }

  -- `FinalsAcc::cliff_rps`
  unfoldable pub cliff_rps : List (ℕ × Span F) → Option F
  cliff_rps [] = none
  cliff_rps ((k, e) ∷ m) =
      let rest = cliff_rps m in
      if ltb e.total 30
      then rest
      else if f.lt (f.div (f.of_u64 e.pass) (f.of_u64 e.total)) (f.literal 95 2)
      then some (f.div (f.add e.lo e.hi) (whole 2))
      else rest

-- The body of the finalize push; `p999_us` is `p99_us` again, and the counts are cast to `i64`.
pub record FinalizeBody (F : Type 0) : Type 0 where
  pub effective_rps : F
  pub p50_us : ℕ
  pub p95_us : ℕ
  pub p99_us : ℕ
  pub p999_us : ℕ
  pub total_requests : ℕ
  pub total_pass : ℕ
  pub cliff : Option F
  pub was_aborted : Bool
  pub corrected_hist_b64 : String
  pub uncorrected_hist_b64 : String
  pub rate_limited : ℕ
  pub rate_limit_onset_rps : Option F
  pub workers_lost : ℕ
  pub warnings : List (Warning F)

module _ {F : Type 0} ⦃f : Float F⦄ where
  -- `effective_rps` of `run_endpoint`: a fleet that lost workers counts for its survivors' share
  unfoldable pub effective_rps : FinalsAcc F → DispatchSummary F → F
  effective_rps a s =
      if ltb 0 s.workers_lost && ltb 0 s.workers_dispatched
      then f.mul a.last_achieved_rps
          (f.div (f.of_u64 s.workers_finished) (f.of_u64 s.workers_dispatched))
      else a.last_achieved_rps

  -- The finalize push of `run_endpoint`, with the encoder of base64.
  unfoldable pub finalize_body : (Bytes → String) → FinalsAcc F → DispatchSummary F → FinalizeBody F
  unfolding effective_rps cliff_rps
  finalize_body encode a s = record {
    effective_rps = effective_rps a s;
    p50_us = a.last_p50_us;
    p95_us = a.last_p95_us;
    p99_us = a.last_p99_us;
    p999_us = a.last_p99_us;
    total_requests = s.total_completed;
    total_pass = s.total_pass;
    cliff = cliff_rps a.buckets;
    was_aborted = s.aborted;
    corrected_hist_b64 = if is_empty a.last_hist_v2 then "" else encode a.last_hist_v2;
    uncorrected_hist_b64 =
        if is_empty a.last_uncorrected_hist_v2 then "" else encode a.last_uncorrected_hist_v2;
    rate_limited = s.total_rate_limited;
    rate_limit_onset_rps = s.first_429_rps;
    workers_lost = s.workers_lost;
    warnings = s.warnings;
  }

-- the run that is not in flight, for the 404
pub data NotFound : Type 0 where
  not_in_flight : String → NotFound

-- `abort_endpoint`
unfoldable pub abort_endpoint :
    String → CoordinatorState → CoordinatorState × ((NotFound ⊎ String) × List AbortCall)
unfolding abort_run
abort_endpoint run_id s =
    let (after, (found, calls)) = abort_run run_id s in
    (after, (if found then inr run_id else inl (NotFound.not_in_flight run_id), calls))
