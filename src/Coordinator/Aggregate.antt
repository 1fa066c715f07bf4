-- ===== src/Coordinator/Aggregate.antt =====
-- engine/src/coordinator/dispatch.rs, `aggregate_loop` and `aggregate_tick`: one tick of the fleet from
-- the partials that its workers sent for that second.
pub mod Sums
pub mod Complete
pub mod Merging
use correctness_bench.Common.{
  ℕ, suc, Bool, true, false, ◌||◌, Option, none, some, List, [], ◌∷◌, ◌++◌, map, String, Bytes,
  ◌==◌, if◌then◌else◌, length, insert, u64_add,
}
use correctness_bench.Float.{Float, whole}
use correctness_bench.Hist.{new_corrected_target, serialize_v2, deserialize_v2}
use correctness_bench.Hist.Library.{Hdr}
use correctness_bench.Proto.{RpsBucket, Partial}
use correctness_bench.Coordinator.Dispatch.{lower_onset, onset_of}

pub record AggThisTick : Type 0 where
  pub total : ℕ
  pub pass : ℕ
  pub fail_status : ℕ
  pub fail_latency : ℕ
  pub fail_size : ℕ
  pub fail_content_type : ℕ
  pub rate_limited : ℕ

pub record AggPercentiles : Type 0 where
  pub p50_us : ℕ
  pub p95_us : ℕ
  pub p99_us : ℕ

pub record AggBucket (F : Type 0) : Type 0 where
  pub rps_lo : F
  pub rps_hi : F
  pub total : ℕ
  pub pass : ℕ
  pub fail_status : ℕ
  pub fail_latency : ℕ
  pub fail_size : ℕ
  pub fail_content_type : ℕ
  pub rate_limited : ℕ

pub record AggregatedTick (F : Type 0) : Type 0 where
  pub elapsed_s : ℕ
  pub achieved_rps_1s : F
  pub completed_total : ℕ
  pub pass_total : ℕ
  pub fail_status_total : ℕ
  pub this_tick : AggThisTick
  pub percentiles_so_far : AggPercentiles
  pub buckets : List (AggBucket F)
  pub rate_limit_onset_rps : Option F
  pub merged_hist_v2 : Bytes
  pub merged_uncorrected_hist_v2 : Bytes

unfoldable pub nothing_yet : AggThisTick
nothing_yet = record {
  total = 0;
  pass = 0;
  fail_status = 0;
  fail_latency = 0;
  fail_size = 0;
  fail_content_type = 0;
  rate_limited = 0;
}

module _ {F : Type 0} where
  unfoldable pub add_bucket : RpsBucket F → AggThisTick → AggThisTick
  add_bucket b this_tick = record {
    total = u64_add this_tick.total b.total;
    pass = u64_add this_tick.pass b.pass;
    fail_status = u64_add this_tick.fail_status b.fail_status;
    fail_latency = u64_add this_tick.fail_latency b.fail_latency;
    fail_size = u64_add this_tick.fail_size b.fail_size;
    fail_content_type = u64_add this_tick.fail_content_type b.fail_content_type;
    rate_limited = u64_add this_tick.rate_limited b.rate_limited;
  }

  unfoldable pub add_buckets : List (RpsBucket F) → AggThisTick → AggThisTick
  unfolding add_bucket
  add_buckets [] this_tick = this_tick
  add_buckets (b ∷ bs) this_tick = add_buckets bs (add_bucket b this_tick)

-- A merge target, and whether anything was merged into it.
pub record Merged (H : Type 0) : Type 0 where
  pub hist : H
  pub some_merged : Bool

module _ {H : Type 0} ⦃h : Hdr H⦄ where
  -- A payload that does not parse or does not fit is passed over.
  unfoldable pub merge_bytes : Bytes → Merged H → Merged H
  unfolding deserialize_v2
  merge_bytes bytes m = elim (deserialize_v2 bytes) [
    | none ↦ m
    | some g ↦ elim (h.add m.hist g) [ none ↦ m | some r ↦ record { hist = r; some_merged = true } ]
  ]

  unfoldable pub percentiles_of : Merged H → AggPercentiles
  percentiles_of m =
      if m.some_merged
      then record {
        p50_us = h.value_at_quantile m.hist 500;
        p95_us = h.value_at_quantile m.hist 950;
        p99_us = h.value_at_quantile m.hist 990;
      }
      else record { p50_us = 0; p95_us = 0; p99_us = 0 }

  unfoldable pub bytes_of : Merged H → Bytes
  unfolding serialize_v2
  bytes_of m = if m.some_merged then serialize_v2 m.hist else []

-- the variables of the loop of `aggregate_tick`
pub record Gathered (F H : Type 0) : Type 0 where
  pub this_tick : AggThisTick
  pub achieved_rps_1s : F
  pub rate_limit_onset_rps : Option F
  pub merged : Merged H
  pub merged_uncorrected : Merged H

-- the running totals of `aggregate_loop`
pub record Cumulative : Type 0 where
  pub completed : ℕ
  pub pass : ℕ
  pub fail_status : ℕ

unfoldable pub accrue : AggThisTick → Cumulative → Cumulative
accrue this_tick cum = record {
  completed = u64_add cum.completed this_tick.total;
  pass = u64_add cum.pass this_tick.pass;
  fail_status = u64_add cum.fail_status this_tick.fail_status;
}

module _ {F H : Type 0} ⦃f : Float F⦄ ⦃h : Hdr H⦄ where
  unfoldable pub gather_start : Gathered F H
  unfolding nothing_yet new_corrected_target
  gather_start = record {
    this_tick = nothing_yet;
    achieved_rps_1s = whole 0;
    rate_limit_onset_rps = none;
    merged = record { hist = new_corrected_target; some_merged = false };
    merged_uncorrected = record { hist = new_corrected_target; some_merged = false };
  }

  unfoldable pub gather_partial : Partial F → Gathered F H → Gathered F H
  unfolding add_buckets merge_bytes lower_onset onset_of
  gather_partial p g = record {
    this_tick = add_buckets p.buckets g.this_tick;
    achieved_rps_1s = f.add g.achieved_rps_1s p.achieved_rps;
    rate_limit_onset_rps = lower_onset g.rate_limit_onset_rps (onset_of p.rate_limit);
    merged = merge_bytes p.corrected_hist g.merged;
    merged_uncorrected = merge_bytes p.uncorrected_hist g.merged_uncorrected;
  }

  unfoldable pub gather : List (Partial F) → Gathered F H → Gathered F H
  unfolding gather_partial
  gather [] g = g
  gather (p ∷ ps) g = gather ps (gather_partial p g)

  -- the tick, on the aggregate rate's axis
  unfoldable pub tick_of : ℕ → Gathered F H → Cumulative → AggregatedTick F
  unfolding percentiles_of bytes_of
  tick_of tick_n g cum =
      let agg_lo = f.mul (f.floor (f.div g.achieved_rps_1s (whole 10))) (whole 10) in
      let this_tick = g.this_tick in
      record {
        elapsed_s = tick_n;
        achieved_rps_1s = g.achieved_rps_1s;
        completed_total = cum.completed;
        pass_total = cum.pass;
        fail_status_total = cum.fail_status;
        this_tick = this_tick;
        percentiles_so_far = percentiles_of g.merged;
        buckets =
            record {
              rps_lo = agg_lo;
              rps_hi = f.add agg_lo (whole 10);
              total = this_tick.total;
              pass = this_tick.pass;
              fail_status = this_tick.fail_status;
              fail_latency = this_tick.fail_latency;
              fail_size = this_tick.fail_size;
              fail_content_type = this_tick.fail_content_type;
              rate_limited = this_tick.rate_limited;
            }
            ∷ [];
        rate_limit_onset_rps = g.rate_limit_onset_rps;
        merged_hist_v2 = bytes_of g.merged;
        merged_uncorrected_hist_v2 = bytes_of g.merged_uncorrected;
      }

-- Partials wait by tick number, and for each number by worker.
abbrev pub Waiting : Type 0 → Type 0
Waiting F = List (ℕ × List (String × Partial F))

module _ {F : Type 0} where
  -- what waits for a tick
  unfoldable pub waiting_for : ℕ → Waiting F → List (String × Partial F)
  waiting_for n [] = []
  waiting_for n ((k, entry) ∷ w) = if k == n then entry else waiting_for n w

  unfoldable pub forget : ℕ → Waiting F → Waiting F
  forget n [] = []
  forget n ((k, entry) ∷ w) = if k == n then forget n w else (k, entry) ∷ forget n w

  abbrev pub put : ℕ → List (String × Partial F) → Waiting F → Waiting F
  put n entry w = (n, entry) ∷ forget n w

pub record Aggregator (F : Type 0) : Type 0 where
  pub per_tick : Waiting F
  pub cum : Cumulative

unfoldable pub aggregator_start : {F : Type 0} → Aggregator F
aggregator_start = record {
  per_tick = [];
  cum = record { completed = 0; pass = 0; fail_status = 0 };
}

-- `HashMap::values` of what waits for a tick: the partials, in an order that the map does not promise
abbrev pub Values : Type 0 → Type 0
Values F = List (String × Partial F) → List (Partial F)

module _ {F : Type 0} (H : Type 0) ⦃f : Float F⦄ ⦃h : Hdr H⦄ where
  unfoldable pub aggregate_tick : ℕ → List (Partial F) → Cumulative → AggregatedTick F × Cumulative
  unfolding gather gather_start accrue tick_of
  aggregate_tick tick_n partials cum =
      let g : Gathered F H = gather partials gather_start in
      let cum = accrue g.this_tick cum in (tick_of tick_n g cum, cum)

  -- A tick that every worker has reported.
  unfoldable pub deliver :
      Values F
      → ℕ
      → List (String × Partial F)
      → Aggregator F
      → Aggregator F × List (AggregatedTick F)
  unfolding forget aggregate_tick
  deliver values tick_n entry a =
      let (tick, cum) = aggregate_tick tick_n (values entry) a.cum in
      (record { per_tick = forget tick_n a.per_tick; cum = cum }, tick ∷ [])

  -- a tick that waits for more
  unfoldable pub hold :
      ℕ → List (String × Partial F) → Aggregator F → Aggregator F × List (AggregatedTick F)
  unfolding forget
  hold tick_n entry a = (record a { per_tick = put tick_n entry a.per_tick }, [])

  -- One message of the loop, and the tick that it completes, if any.
  unfoldable pub receive :
      Values F → ℕ → String → Partial F → Aggregator F → Aggregator F × List (AggregatedTick F)
  unfolding waiting_for deliver hold
  receive values num_workers worker_id p a =
      let entry = insert worker_id p (waiting_for p.tick a.per_tick) in
      if p.final
      then (a, [])
      else if length entry == num_workers
      then deliver values p.tick entry a
      else hold p.tick entry a

  -- The loop, over the messages that arrive before the channel closes or the run is cancelled: the
  -- ticks that it sends.
  unfoldable pub aggregate_loop :
      Values F → ℕ → List (String × Partial F) → Aggregator F → List (AggregatedTick F)
  unfolding receive
  aggregate_loop values num_workers [] a = []
  aggregate_loop values num_workers ((worker_id, p) ∷ rest) a =
      let (after, sent) = receive values num_workers worker_id p a in
      sent ++ aggregate_loop values num_workers rest after
