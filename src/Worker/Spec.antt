-- ===== src/Worker/Spec.antt =====
-- `RunSpec`, `RlAction` and `RlConfig` of engine/src/worker.rs. A `Duration` is in nanoseconds, an
-- `http::Method` is its name, and the URL is of a parameter type `U`.
use correctness_bench.Common.{ℕ, Bool, ◌&&◌, Option, List, String, Bytes, ltb, if◌then◌else◌}
use correctness_bench.Float.{Float, whole, fclamp}

pub data RlAction : Type 0 where
  continue backoff abort : RlAction

-- `impl Default for RlAction`
unfoldable pub default_action : RlAction
default_action = backoff

pub record RunSpec (F U : Type 0) : Type 0 where
  pub url : U
  pub method : String
  pub target_rps : F
  pub duration_s : ℕ
  pub keepalive : Bool
  pub connections : ℕ
  pub timeout : ℕ
  pub expected_status : List ℕ
  pub max_latency_us : Option ℕ
  pub min_body_bytes : Option ℕ
  pub max_body_bytes : Option ℕ
  pub content_type : Option Bytes
  pub ramp : Bool
  pub sample_every_n : ℕ
  pub max_sampled_body_bytes : ℕ
  pub rate_limit_action : RlAction
  pub max_backoff_ms : ℕ
  pub record_onset : Bool

pub record RlConfig (F : Type 0) : Type 0 where
  pub action : RlAction
  pub max_backoff_ms : ℕ
  pub record_onset : Bool
  pub target_rps : F
  pub ramp : Bool
  pub duration_s : ℕ

-- the offered rate that the scheduler aims at, `elapsed_us` into the run
unfoldable pub offered_rps_at : {F : Type 0} ⦃f : Float F⦄ → RlConfig F → ℕ → F
offered_rps_at ⦃f⦄ c elapsed_us =
    if c.ramp && ltb 0 c.duration_s
    then f.mul c.target_rps (
        fclamp (f.div (f.of_u64 elapsed_us) (f.mul (f.of_u64 c.duration_s) (whole 1_000_000)))
          (whole 0) (whole 1))
    else c.target_rps
