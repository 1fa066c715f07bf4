-- ===== src/Worker/Counters.antt =====
-- `LiveCounters` and `ConnResult` of engine/src/worker.rs. An atomic is the value that it holds; an
-- `i64` is kept as its 64-bit pattern.
use correctness_bench.Common.{ℕ, ◌^◌, Bool, false, Option, none, some, ◌==◌, if◌then◌else◌, u64_max}
use correctness_bench.Float.{Float}

pub record ConnResult : Type 0 where
  pub completed : ℕ
  pub pass : ℕ
  pub fail_status : ℕ
  pub fail_latency : ℕ
  pub fail_size : ℕ
  pub fail_content_type : ℕ
  pub rate_limited : ℕ
  pub backoff_us_total : ℕ
  pub conn_errors : ℕ
  pub timeouts : ℕ

-- `ConnResult::default`
unfoldable pub no_result : ConnResult
no_result = record {
  completed = 0;
  pass = 0;
  fail_status = 0;
  fail_latency = 0;
  fail_size = 0;
  fail_content_type = 0;
  rate_limited = 0;
  backoff_us_total = 0;
  conn_errors = 0;
  timeouts = 0;
}

pub record LiveCounters : Type 0 where
  pub completed : ℕ
  pub pass : ℕ
  pub fail_status : ℕ
  pub fail_latency : ℕ
  pub fail_size : ℕ
  pub fail_content_type : ℕ
  pub rate_limited : ℕ
  pub first_429_seen : Bool
  pub first_429_rps_bits : ℕ
  pub backoff_us_total : ℕ
  pub last_retry_after_ms : ℕ
  pub abort : Bool
  pub sample_seq : ℕ

-- the pattern of `i64::MIN`
abbrev pub i64_min : ℕ
i64_min = 2 ^ 63

-- `LiveCounters::default`
unfoldable pub fresh : LiveCounters
fresh = record {
  completed = 0;
  pass = 0;
  fail_status = 0;
  fail_latency = 0;
  fail_size = 0;
  fail_content_type = 0;
  rate_limited = 0;
  first_429_seen = false;
  first_429_rps_bits = u64_max;
  backoff_us_total = 0;
  last_retry_after_ms = i64_min;
  abort = false;
  sample_seq = 0;
}

unfoldable pub load_first_429_rps : {F : Type 0} ⦃f : Float F⦄ → LiveCounters → Option F
load_first_429_rps ⦃f⦄ counters =
    if counters.first_429_rps_bits == u64_max
    then none
    else some (f.from_bits counters.first_429_rps_bits)

unfoldable pub load_last_retry_after_ms : LiveCounters → Option ℕ
load_last_retry_after_ms counters =
    if counters.last_retry_after_ms == i64_min then none else some counters.last_retry_after_ms
