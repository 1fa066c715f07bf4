-- ===== src/Worker/Ticks.antt =====
-- The 1 Hz tick emitter of engine/src/worker.rs and the records that it sends. The shared state that
-- it reads at each second is an input.
pub mod Deltas
use correctness_bench.Common.{ℕ, suc, Option, List, [], ◌∷◌, Bytes, saturating_sub}
use correctness_bench.Float.{Float, whole}
use correctness_bench.Hist.{serialize_v2}
use correctness_bench.Hist.Library.{Hdr}
use correctness_bench.Worker.Counters.{LiveCounters, load_first_429_rps, load_last_retry_after_ms}
use correctness_bench.Worker.Connection.{Shared, SampledResponse}

pub record ThisTick : Type 0 where
  pub total : ℕ
  pub pass : ℕ
  pub fail_status : ℕ
  pub fail_latency : ℕ
  pub fail_size : ℕ
  pub fail_content_type : ℕ
  pub rate_limited : ℕ

pub record PercentilesSoFar : Type 0 where
  pub p50_us : ℕ
  pub p99_us : ℕ

pub record Bucket (F : Type 0) : Type 0 where
  pub rps_lo : F
  pub rps_hi : F
  pub total : ℕ
  pub pass : ℕ
  pub fail_status : ℕ
  pub fail_latency : ℕ
  pub fail_size : ℕ
  pub fail_content_type : ℕ
  pub rate_limited : ℕ

pub record Tick (F : Type 0) : Type 0 where
  pub elapsed_s : ℕ
  pub achieved_rps_1s : F
  pub completed_total : ℕ
  pub pass_total : ℕ
  pub fail_status_total : ℕ
  pub rate_limited_total : ℕ
  pub rate_limit_onset_rps : Option F
  pub backoff_us_total : ℕ
  pub last_retry_after_ms : Option ℕ
  pub this_tick : ThisTick
  pub percentiles_so_far : PercentilesSoFar
  pub buckets : List (Bucket F)
  pub sampled : List (SampledResponse F)
  pub corrected_hist_v2 : Bytes
  pub uncorrected_hist_v2 : Bytes

-- the counters as a tick sees them, also the `prev_` variables of the loop
unfoldable pub seen : LiveCounters → ThisTick
seen c = record {
  total = c.completed;
  pass = c.pass;
  fail_status = c.fail_status;
  fail_latency = c.fail_latency;
  fail_size = c.fail_size;
  fail_content_type = c.fail_content_type;
  rate_limited = c.rate_limited;
}

unfoldable pub nothing_seen : ThisTick
nothing_seen = record {
  total = 0;
  pass = 0;
  fail_status = 0;
  fail_latency = 0;
  fail_size = 0;
  fail_content_type = 0;
  rate_limited = 0;
}

unfoldable pub delta : ThisTick → ThisTick → ThisTick
delta prev now = record {
  total = saturating_sub now.total prev.total;
  pass = saturating_sub now.pass prev.pass;
  fail_status = saturating_sub now.fail_status prev.fail_status;
  fail_latency = saturating_sub now.fail_latency prev.fail_latency;
  fail_size = saturating_sub now.fail_size prev.fail_size;
  fail_content_type = saturating_sub now.fail_content_type prev.fail_content_type;
  rate_limited = saturating_sub now.rate_limited prev.rate_limited;
}

module _ {F : Type 0} ⦃f : Float F⦄ where
  -- the lower edge of the bucket, ten requests per second wide, that holds a rate
  unfoldable pub bucket_lo : F → F
  bucket_lo rps = f.mul (f.floor (f.div rps (whole 10))) (whole 10)

  unfoldable pub bucket_of : ThisTick → Bucket F
  unfolding bucket_lo
  bucket_of this_tick =
      let rps_lo = bucket_lo (f.of_u64 this_tick.total) in
      record {
        rps_lo = rps_lo;
        rps_hi = f.add rps_lo (whole 10);
        total = this_tick.total;
        pass = this_tick.pass;
        fail_status = this_tick.fail_status;
        fail_latency = this_tick.fail_latency;
        fail_size = this_tick.fail_size;
        fail_content_type = this_tick.fail_content_type;
        rate_limited = this_tick.rate_limited;
      }

module _ {F H : Type 0} ⦃f : Float F⦄ ⦃h : Hdr H⦄ where
  -- One round of the loop: the tick, and the shared state with its samples drained.
  unfoldable pub emit : ℕ → ThisTick → Shared F H → Tick F × Shared F H
  unfolding seen delta bucket_of
  emit elapsed_s prev sh =
      let c = sh.counters in
      let now = seen c in
      let this_tick = delta prev now in
      (
        record {
          elapsed_s = elapsed_s;
          achieved_rps_1s = f.of_u64 this_tick.total;
          completed_total = c.completed;
          pass_total = c.pass;
          fail_status_total = c.fail_status;
          rate_limited_total = c.rate_limited;
          rate_limit_onset_rps = load_first_429_rps c;
          backoff_us_total = c.backoff_us_total;
          last_retry_after_ms = load_last_retry_after_ms c;
          this_tick = this_tick;
          percentiles_so_far = record {
            p50_us = h.value_at_quantile sh.histos.corrected 500;
            p99_us = h.value_at_quantile sh.histos.corrected 990;
          };
          buckets = bucket_of this_tick ∷ [];
          sampled = sh.samples;
          corrected_hist_v2 = serialize_v2 sh.histos.corrected;
          uncorrected_hist_v2 = serialize_v2 sh.histos.uncorrected;
        },
        record sh { samples = [] },
      )

  -- The loop from second `elapsed_s` on, over the shared states that it finds; the list ends at the
  -- run's duration, or when the receiver of the ticks is gone.
  unfoldable pub emit_from : ℕ → ThisTick → List (Shared F H) → List (Tick F)
  unfolding emit
  emit_from elapsed_s prev [] = []
  emit_from elapsed_s prev (sh ∷ rest) =
      (emit elapsed_s prev sh).0 ∷ emit_from (suc elapsed_s) (seen sh.counters) rest

  unfoldable pub ticks : List (Shared F H) → List (Tick F)
  unfolding emit_from nothing_seen
  ticks = emit_from 1 nothing_seen
