-- ===== src/Coordinator/Dispatch/Handover.antt =====
-- What a worker reads from the assignment that the coordinator writes (coordinator/dispatch.rs and
-- worker_node.rs).
use correctness_bench.Common.{
  ℕ, ◌<◌, ◌^◌, ◌*◌, true, false, Option, none, some, All, List, [], ◌∷◌, String, Bytes,
  if◌then◌else◌, codes, to_ascii_uppercase, bytes_eq,
}
use mathlib.Core.Option
use correctness_bench.Float.{Float}
use correctness_bench.Worker.Spec.{RunSpec, RlAction}
use correctness_bench.WorkerNode.{UriParser}
use correctness_bench.Coordinator.Dispatch.{DispatchSpec}

abbrev first_named : Bytes → List String → String
first_named name [] = "GET"
first_named name (m ∷ ms) = if bytes_eq name (codes m) then m else first_named name ms

-- the method that a name stands for, whatever its case
abbrev pub method_name : String → String
method_name m =
    first_named (to_ascii_uppercase (codes m)) ("POST" ∷ "PUT" ∷ "PATCH" ∷ "DELETE" ∷ "HEAD" ∷ [])

-- Every expected status is a `u16`.
abbrev pub AllStatus : List ℕ → Type 0
AllStatus = All (λ n. n < 2 ^ 16)

-- A bound, if there is one, is not negative as an `i32`.
abbrev pub IsBound : Option ℕ → Type 0
IsBound none = Unit
IsBound (some n) = n < 2 ^ 31

module _ {F U : Type 0} ⦃f : Float F⦄ ⦃u : UriParser U⦄ where
  -- the slice that a worker should run, with its share of the rate
  abbrev pub share : DispatchSpec F → F → U → RunSpec F U
  share spec per_worker_rps url = record {
    url = url;
    method = method_name spec.target_method;
    target_rps = per_worker_rps;
    duration_s = spec.duration_s;
    keepalive = spec.keepalive;
    connections = spec.connections;
    timeout = spec.timeout_ms * 1_000_000;
    expected_status = spec.expected_status;
    max_latency_us = spec.max_latency_us;
    min_body_bytes = spec.min_body_bytes;
    max_body_bytes = spec.max_body_bytes;
    content_type = spec.content_type;
    ramp = false;
    sample_every_n = 0;
    max_sampled_body_bytes = 0;
    rate_limit_action = RlAction.backoff;
    max_backoff_ms = 5000;
    record_onset = true;
  }
