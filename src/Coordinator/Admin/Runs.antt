-- ===== src/Coordinator/Admin/Runs.antt =====
-- engine/src/coordinator/admin.rs: the endpoint that starts a run. The ticks that the run's aggregator
-- sends are an input, beside what its workers return; of an HTTP call only its URL and body are kept.
pub mod Answers
use correctness_bench.Common.{
  ℕ, Bool, true, false, ◌⊎◌, inl, inr, Option, none, some, List, [], ◌∷◌, map, String, Bytes,
}
use correctness_bench.Coordinator.{Worker, CoordinatorState}
use correctness_bench.Coordinator as Coordinator
use correctness_bench.Coordinator.Dispatch.{
  DispatchSpec, Warning, DispatchSummary, DispatchError, Meanwhile, dispatch_with_ticks,
}
use correctness_bench.Coordinator.Aggregate.{AggregatedTick}
use correctness_bench.Coordinator.Admin.{FinalsAcc, no_finals, observe, FinalizeBody, finalize_body}
use correctness_bench.Float.{Float}

pub record WorkerView : Type 0 where
  pub worker_id : String
  pub address : String
  pub contract_version : String
  pub max_rps : ℕ

-- `list_workers` of the endpoint
unfoldable pub worker_views : CoordinatorState → List WorkerView
worker_views s =
    map
      (λ w. record {
        worker_id = w.worker_id;
        address = w.address;
        contract_version = w.contract_version;
        max_rps = w.max_rps;
      })
      (Coordinator.list_workers s)

-- the JSON of a request; a field that has a default may be missing
pub record RunRequest (F : Type 0) : Type 0 where
  pub run_id : String
  pub target_url : String
  pub target_method : Option String
  pub target_rps : F
  pub duration_s : ℕ
  pub connections : Option ℕ
  pub keepalive : Option Bool
  pub timeout_ms : Option ℕ
  pub expected_status : Option (List ℕ)
  pub target_headers : Option (List (String × String))
  pub epoch_unix_us : Option ℕ
  pub max_latency_us : Option ℕ
  pub min_body_bytes : Option ℕ
  pub max_body_bytes : Option ℕ
  pub content_type : Option Bytes
  pub control_tick_url : Option String
  pub control_finalize_url : Option String

abbrev or_default {ℓ} : {A : Type ℓ} → A → Option A → A
or_default a none = a
or_default a (some b) = b

-- the request as it is decoded, and the `DispatchSpec` made of it
unfoldable pub spec_of : {F : Type 0} → RunRequest F → DispatchSpec F
spec_of req = record {
  run_id = req.run_id;
  target_url = req.target_url;
  target_method = or_default "GET" req.target_method;
  target_rps = req.target_rps;
  duration_s = req.duration_s;
  connections = or_default 50 req.connections;
  keepalive = or_default true req.keepalive;
  timeout_ms = or_default 30_000 req.timeout_ms;
  expected_status = or_default [] req.expected_status;
  max_latency_us = req.max_latency_us;
  min_body_bytes = req.min_body_bytes;
  max_body_bytes = req.max_body_bytes;
  content_type = req.content_type;
  target_headers = or_default [] req.target_headers;
  epoch_unix_us = or_default 0 req.epoch_unix_us;
}

pub record RunResponse (F : Type 0) : Type 0 where
  pub run_id : String
  pub workers_dispatched : ℕ
  pub workers_finished : ℕ
  pub total_completed : ℕ
  pub total_pass : ℕ
  pub total_fail_status : ℕ
  pub total_fail_latency : ℕ
  pub total_fail_size : ℕ
  pub total_fail_content_type : ℕ
  pub total_rate_limited : ℕ
  pub rate_limit_onset_rps : Option F
  pub workers_lost : ℕ
  pub warnings : List (Warning F)

unfoldable pub to_response : {F : Type 0} → String → DispatchSummary F → RunResponse F
to_response run_id s = record {
  run_id = run_id;
  workers_dispatched = s.workers_dispatched;
  workers_finished = s.workers_finished;
  total_completed = s.total_completed;
  total_pass = s.total_pass;
  total_fail_status = s.total_fail_status;
  total_fail_latency = s.total_fail_latency;
  total_fail_size = s.total_fail_size;
  total_fail_content_type = s.total_fail_content_type;
  total_rate_limited = s.total_rate_limited;
  rate_limit_onset_rps = s.first_429_rps;
  workers_lost = s.workers_lost;
  warnings = s.warnings;
}

-- the 503
pub data Unavailable : Type 0 where
  no_registered_workers : Unavailable

-- what a request leads to: the ticks that are posted, the final push, and the answer
pub record Served (F : Type 0) : Type 0 where
  pub posted : List (String × AggregatedTick F)
  pub finalized : Option (String × FinalizeBody F)
  pub answer : Unavailable ⊎ RunResponse F

module _ {F : Type 0} ⦃f : Float F⦄ where
  -- the task that takes the ticks from the channel, and what it posts
  unfoldable pub observe_all : List (AggregatedTick F) → FinalsAcc F → FinalsAcc F
  unfolding observe
  observe_all [] a = a
  observe_all (t ∷ ts) a = observe_all ts (observe t a)

  unfoldable pub post_ticks :
      Option String → List (AggregatedTick F) → List (String × AggregatedTick F)
  post_ticks none ticks = []
  post_ticks (some url) ticks = map (λ t. (url, t)) ticks

  -- the end of `run_endpoint`, by what the dispatch returned
  unfoldable pub respond :
      (Bytes → String)
      → RunRequest F
      → List (AggregatedTick F)
      → DispatchError ⊎ DispatchSummary F
      → Served F
  unfolding observe_all no_finals finalize_body to_response post_ticks
  respond encode req ticks (inl e) = record {
    posted = [];
    finalized = none;
    answer = inl no_registered_workers;
  }
  respond encode req ticks (inr summary) = record {
    posted = post_ticks req.control_tick_url ticks;
    finalized = elim req.control_finalize_url [
      | none ↦ none
      | some url ↦ some (url, finalize_body encode (observe_all ticks no_finals) summary)
    ];
    answer = inr (to_response req.run_id summary);
  }

  unfoldable pub run_endpoint :
      (Bytes → String)
      → ℕ
      → ℕ
      → Meanwhile F
      → List (AggregatedTick F)
      → RunRequest F
      → CoordinatorState
      → CoordinatorState × Served F
  unfolding dispatch_with_ticks spec_of respond
  run_endpoint encode now token meanwhile ticks req state =
      let (after, result) = dispatch_with_ticks now token meanwhile (spec_of req) state in
      (after, respond encode req ticks result)
