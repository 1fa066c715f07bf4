-- ===== src/Client/Create.antt =====
-- cli/src/main.rs: the request that creates a run, made of the options. An entry of a JSON object that may
-- be left out is an option.
use correctness_bench.Common.{
  ℕ, Bool, true, Option, none, some, List, [], ◌∷◌, ◌++◌, Bytes, codes, is_empty,
  to_ascii_uppercase, if◌then◌else◌, u64_mul,
}

pub record RunArgs (F : Type 0) : Type 0 where
  pub target : Bytes
  pub method : Bytes
  pub rps : F
  pub duration_s : ℕ
  pub connections : ℕ
  pub load_model : Bytes
  pub expected_status : List ℕ
  pub max_latency_ms : Option ℕ
  pub name : Option Bytes
  pub key : Option Bytes
  pub timeout_ms : ℕ

pub record TargetSpec : Type 0 where
  pub url : Bytes
  pub method : Bytes
  pub headers : List (Bytes × Bytes)
  pub timeout_ms : ℕ
  pub verify_tls : Bool

-- the entries of the JSON object `assert`; one that is not set is left out
pub record AssertJson : Type 0 where
  pub expected_status : Option (List ℕ)
  pub max_latency_us : Option ℕ

pub record RateLimitJson : Type 0 where
  pub action : Bytes
  pub record_onset : Bool

pub record CreateRunRequest (F : Type 0) : Type 0 where
  pub name : Option Bytes
  pub target : TargetSpec
  pub target_rps : F
  pub duration_s : ℕ
  pub load_model : Bytes
  pub connections : ℕ
  pub keepalive : Bool
  pub assertions : AssertJson
  pub rate_limit_policy : RateLimitJson

unfoldable pub build_create_request : {F : Type 0} → RunArgs F → CreateRunRequest F
build_create_request args =
    let headers : List (Bytes × Bytes) = elim args.key [
      | none ↦ []
      | some key ↦ (codes "Authorization", codes "Bearer " ++ key) ∷ []
    ] in
    let latency : Option ℕ = elim args.max_latency_ms [
      | none ↦ none
      | some ms ↦ some (u64_mul ms 1000)
    ] in
    record {
      name = args.name;
      target = record {
        url = args.target;
        method = to_ascii_uppercase args.method;
        headers = headers;
        timeout_ms = args.timeout_ms;
        verify_tls = true;
      };
      target_rps = args.rps;
      duration_s = args.duration_s;
      load_model = args.load_model;
      connections = args.connections;
      keepalive = true;
      assertions = record {
        expected_status = if is_empty args.expected_status then none else some args.expected_status;
        max_latency_us = latency;
      };
      rate_limit_policy = record { action = codes "backoff"; record_onset = true };
    }
