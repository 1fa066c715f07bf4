-- ===== src/Proto.antt =====
-- contracts/bench.proto: the messages between coordinator and worker, as the engine's generated types
-- have them. An `i32` or `i64` is its bit pattern, an enum field the number on the wire.
use correctness_bench.Common.{
  ℕ, Bool, true, false, Option, List, String, Bytes, ltb, max, if◌then◌else◌, ◌+◌, ◌-◌, ◌^◌, ◌%◌,
}

pub record WorkerInfo : Type 0 where
  pub worker_id : String
  pub address : String
  pub contract_version : String
  pub max_rps : ℕ

pub record Target : Type 0 where
  pub url : String
  pub method : ℕ
  pub headers : List (String × String)
  pub body : Bytes
  pub timeout_ms : ℕ
  pub verify_tls : Bool

pub record AssertSpec : Type 0 where
  pub max_latency_us : Option ℕ
  pub min_body_bytes : Option ℕ
  pub max_body_bytes : Option ℕ
  pub content_type : Option Bytes
  pub expected_status : List ℕ
  pub sample_every_n : ℕ
  pub ship_bodies : Bool
  pub max_sampled_body_bytes : ℕ

pub record RateLimitPolicy : Type 0 where
  pub action : ℕ
  pub max_backoff_ms : ℕ
  pub record_onset : Bool

pub record Assignment (F : Type 0) : Type 0 where
  pub run_id : String
  pub worker_id : String
  pub contract_version : String
  pub target : Option Target
  pub throughput : F
  pub catch_up : F
  pub load_model : ℕ
  pub connections : ℕ
  pub keepalive : Bool
  pub epoch_unix_us : ℕ
  pub duration_s : ℕ
  pub warmup_s : ℕ
  pub asserts : Option AssertSpec
  pub rate_limit_policy : Option RateLimitPolicy

pub record RpsBucket (F : Type 0) : Type 0 where
  pub rps_lo : F
  pub rps_hi : F
  pub total : ℕ
  pub pass : ℕ
  pub fail_transport : ℕ
  pub fail_status : ℕ
  pub fail_latency : ℕ
  pub fail_size : ℕ
  pub fail_content_type : ℕ
  pub rate_limited : ℕ
  pub timeout : ℕ

pub record RateLimit (F : Type 0) : Type 0 where
  pub count_this_tick : ℕ
  pub first_429_rps : Option F
  pub last_retry_after_ms : Option ℕ
  pub backoff_us_total : ℕ

-- `ttfb_hist`, `this_tick_corrected` and `sampled` are left out: the engine always sends them empty.
pub record Partial (F : Type 0) : Type 0 where
  pub worker_id : String
  pub tick : ℕ
  pub final : Bool
  pub corrected_hist : Bytes
  pub uncorrected_hist : Bytes
  pub buckets : List (RpsBucket F)
  pub offered_rps : F
  pub achieved_rps : F
  pub sched_slip_us : ℕ
  pub client_saturated : Bool
  pub in_flight : ℕ
  pub conn_errors : ℕ
  pub timeouts : ℕ
  pub rate_limit : Option (RateLimit F)
  pub bytes_sent : ℕ
  pub bytes_recv : ℕ

-- a `WorkerEvent` on the stream of `RunSlice`, by its `kind`
pub data WorkerEvent (F : Type 0) : Type 0 where
  started : ℕ → ℕ → WorkerEvent F
  partial : Partial F → WorkerEvent F
  saturated : ℕ → String → WorkerEvent F
  error : String → String → Bool → WorkerEvent F
  no_kind : WorkerEvent F

-- casts between the signed and the unsigned types, on bit patterns
abbrev pub i32_negative : ℕ → Bool
i32_negative v = if ltb v (2 ^ 31) then false else true

-- `v as u64` of an `i32`: the sign is extended
abbrev pub i32_as_u64 : ℕ → ℕ
i32_as_u64 v = if ltb v (2 ^ 31) then v else v + (2 ^ 64 - 2 ^ 32)

-- `v.max(n)` of an `i32` and a small literal
abbrev pub i32_max : ℕ → ℕ → ℕ
i32_max v n = if ltb v (2 ^ 31) then max v n else n

-- `v as i32` of a `u64`
abbrev pub u64_as_i32 : ℕ → ℕ
u64_as_i32 v = v % 2 ^ 32
