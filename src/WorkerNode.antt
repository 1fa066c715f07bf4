-- ===== src/WorkerNode.antt =====
-- engine/src/worker_node.rs: what a worker makes of an `Assignment`, and the messages that it sends.
pub mod Slices
pub mod Aborts
pub mod Stream
use correctness_bench.Common.{
  ℕ, ◌*◌, ◌%◌, ◌^◌, Bool, true, false, ◌⊎◌, inl, inr, Option, none, some, List, [], ◌∷◌, map,
  String, Bytes, ltb, ◌==◌, max, if◌then◌else◌, ◌&&◌, not,
}
use mathlib.Core.Option
use correctness_bench.Float.{Float, whole}
use correctness_bench.Proto.{
  Target, AssertSpec, RateLimitPolicy, Assignment, RpsBucket, RateLimit, Partial, i32_as_u64,
  i32_max, i32_negative,
}
use correctness_bench.Worker.Spec.{RunSpec, RlAction}
use correctness_bench.Worker.Ticks.{Tick, Bucket, ThisTick}

-- `Uri::try_from`
pub record UriParser (U : Type 0) : Type 0 where
  pub parse : String → Option U

pub data SpecError : Type 0 where
  target_required bad_url : SpecError

-- An unknown number is `GET`.
unfoldable pub http_method_from_proto : ℕ → String
http_method_from_proto m =
    if m == 1
    then "POST"
    else if m == 2
    then "PUT"
    else if m == 3
    then "PATCH"
    else if m == 4
    then "DELETE"
    else if m == 5
    then "HEAD"
    else "GET"

-- An unknown action is `RL_BACKOFF`.
unfoldable pub action_from_proto : ℕ → RlAction
action_from_proto a =
    if a == 0 then RlAction.continue else if a == 2 then RlAction.abort else RlAction.backoff

-- the rate-limit policy: action, cap in milliseconds, whether the onset is recorded
unfoldable pub policy_of : Option RateLimitPolicy → RlAction × ℕ × Bool
unfolding action_from_proto
policy_of none = (RlAction.backoff, 5000, true)
policy_of (some p) = (
  action_from_proto p.action,
  if not (i32_negative p.max_backoff_ms) && ltb 0 p.max_backoff_ms then p.max_backoff_ms else 5000,
  p.record_onset,
)

-- the assertion of the assignment, or none at all
unfoldable pub assert_of : Option AssertSpec → AssertSpec
assert_of (some spec) = record spec {
  expected_status = map (λ n. n % 2 ^ 16) spec.expected_status;
  min_body_bytes = Option.map i32_as_u64 spec.min_body_bytes;
  max_body_bytes = Option.map i32_as_u64 spec.max_body_bytes;
}
assert_of none = record {
  max_latency_us = none;
  min_body_bytes = none;
  max_body_bytes = none;
  content_type = none;
  expected_status = [];
  sample_every_n = 0;
  ship_bodies = false;
  max_sampled_body_bytes = 0;
}

-- a timeout in nanoseconds; 30 s if none is given
unfoldable pub timeout_of : ℕ → ℕ
timeout_of ms = if not (i32_negative ms) && ltb 0 ms then ms * 1_000_000 else 30_000_000_000

module _ {F U : Type 0} ⦃f : Float F⦄ ⦃u : UriParser U⦄ where
  unfoldable pub spec_for : Assignment F → Target → U → RunSpec F U
  unfolding policy_of assert_of timeout_of http_method_from_proto
  spec_for a target url =
      let (action, max_backoff_ms, record_onset) = policy_of a.rate_limit_policy in
      let checks = assert_of a.asserts in
      record {
        url = url;
        method = http_method_from_proto target.method;
        target_rps = a.throughput;
        duration_s = i32_max a.duration_s 0;
        keepalive = a.keepalive;
        connections = i32_max a.connections 1;
        timeout = timeout_of target.timeout_ms;
        expected_status = checks.expected_status;
        max_latency_us = checks.max_latency_us;
        min_body_bytes = checks.min_body_bytes;
        max_body_bytes = checks.max_body_bytes;
        content_type = checks.content_type;
        ramp = false;
        sample_every_n = 0;
        max_sampled_body_bytes = 0;
        rate_limit_action = action;
        max_backoff_ms = max_backoff_ms;
        record_onset = record_onset;
      }

  unfoldable pub build_run_spec : Assignment F → SpecError ⊎ RunSpec F U
  unfolding spec_for
  build_run_spec a = elim a.target [
    | none ↦ inl target_required
    | some target ↦ elim (u.parse target.url) [
      | none ↦ inl bad_url
      | some url ↦ inr (spec_for a target url)
    ]
  ]

module _ {F : Type 0} ⦃f : Float F⦄ where
  unfoldable pub bucket_from : Bucket F → RpsBucket F
  bucket_from b = record {
    rps_lo = b.rps_lo;
    rps_hi = b.rps_hi;
    total = b.total;
    pass = b.pass;
    fail_transport = 0;
    fail_status = b.fail_status;
    fail_latency = b.fail_latency;
    fail_size = b.fail_size;
    fail_content_type = b.fail_content_type;
    rate_limited = b.rate_limited;
    timeout = 0;
  }

  unfoldable pub partial_from_tick : String → ℕ → Bool → Tick F → Partial F
  unfolding bucket_from
  partial_from_tick worker_id tick_n is_final t = record {
    worker_id = worker_id;
    tick = tick_n;
    final = is_final;
    corrected_hist = t.corrected_hist_v2;
    uncorrected_hist = t.uncorrected_hist_v2;
    buckets = map bucket_from t.buckets;
    offered_rps = t.achieved_rps_1s;
    achieved_rps = t.achieved_rps_1s;
    sched_slip_us = 0;
    client_saturated = false;
    in_flight = 0;
    conn_errors = 0;
    timeouts = 0;
    rate_limit = some (record {
      count_this_tick = t.this_tick.rate_limited;
      first_429_rps = t.rate_limit_onset_rps;
      last_retry_after_ms = t.last_retry_after_ms;
      backoff_us_total = t.backoff_us_total;
    });
    bytes_sent = 0;
    bytes_recv = 0;
  }

  unfoldable pub empty_final_partial : String → ℕ → Partial F
  empty_final_partial worker_id tick_n = record {
    worker_id = worker_id;
    tick = tick_n;
    final = true;
    corrected_hist = [];
    uncorrected_hist = [];
    buckets = [];
    offered_rps = whole 0;
    achieved_rps = whole 0;
    sched_slip_us = 0;
    client_saturated = false;
    in_flight = 0;
    conn_errors = 0;
    timeouts = 0;
    rate_limit = none;
    bytes_sent = 0;
    bytes_recv = 0;
  }
