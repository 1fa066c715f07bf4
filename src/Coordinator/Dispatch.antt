-- ===== src/Coordinator/Dispatch.antt =====
-- engine/src/coordinator/dispatch.rs, a run: the assignments, what one worker's stream adds up to, and
-- the summary over the fleet.
pub mod Handover
pub mod Tallies
pub mod Fleet
pub mod Abort
pub mod EndToEnd
pub mod Reports
pub mod Stop
pub mod Lowest
pub mod Onset
pub mod Order
use correctness_bench.Common.{
  ℕ, suc, ◌+◌, ◌-◌, Bool, true, false, ◌⊎◌, inl, inr, Option, none, some, List, [], ◌∷◌, map,
  String, Bytes, ltb, ◌==◌, ◌||◌, not, if◌then◌else◌, codes, to_ascii_uppercase, bytes_eq, length,
  any, u64_add, saturating_sub,
}
use correctness_bench.Float.{Float, whole, fmin}
use correctness_bench.Proto.{
  Target, AssertSpec, RateLimitPolicy, Assignment, RpsBucket, RateLimit, Partial, WorkerEvent,
  partial, u64_as_i32,
}
use correctness_bench.Coordinator.{
  Worker, RunHandle, CoordinatorState, contract_version, list_workers, register_run, deregister_run,
  worker_url,
}

pub record DispatchSpec (F : Type 0) : Type 0 where
  pub run_id : String
  pub target_url : String
  pub target_method : String
  pub target_rps : F
  pub duration_s : ℕ
  pub connections : ℕ
  pub keepalive : Bool
  pub timeout_ms : ℕ
  pub expected_status : List ℕ
  pub max_latency_us : Option ℕ
  pub min_body_bytes : Option ℕ
  pub max_body_bytes : Option ℕ
  pub content_type : Option Bytes
  pub target_headers : List (String × String)
  pub epoch_unix_us : ℕ

-- The number of a method on the wire; an unknown one is `GET`.
unfoldable pub method_number : String → ℕ
method_number m =
    let name = to_ascii_uppercase (codes m) in
    if bytes_eq name (codes "POST")
    then 1
    else if bytes_eq name (codes "PUT")
    then 2
    else if bytes_eq name (codes "PATCH")
    then 3
    else if bytes_eq name (codes "DELETE")
    then 4
    else if bytes_eq name (codes "HEAD")
    then 5
    else 0

module _ {F : Type 0} ⦃f : Float F⦄ where
  unfoldable pub build_assignment : DispatchSpec F → String → F → ℕ → Assignment F
  unfolding method_number
  build_assignment spec worker_id per_worker_rps epoch_unix_us = record {
    run_id = spec.run_id;
    worker_id = worker_id;
    contract_version = contract_version;
    target = some (record {
      url = spec.target_url;
      method = method_number spec.target_method;
      headers = spec.target_headers;
      body = [];
      timeout_ms = u64_as_i32 spec.timeout_ms;
      verify_tls = true;
    });
    throughput = per_worker_rps;
    catch_up = f.mul per_worker_rps (whole 2);
    load_model = 0;
    connections = u64_as_i32 spec.connections;
    keepalive = spec.keepalive;
    epoch_unix_us = epoch_unix_us;
    duration_s = u64_as_i32 spec.duration_s;
    warmup_s = 0;
    asserts = some (record {
      max_latency_us = spec.max_latency_us;
      min_body_bytes = spec.min_body_bytes;
      max_body_bytes = spec.max_body_bytes;
      content_type = spec.content_type;
      expected_status = spec.expected_status;
      sample_every_n = 0;
      ship_bodies = false;
      max_sampled_body_bytes = 0;
    });
    rate_limit_policy = some (record { action = 1; max_backoff_ms = 5000; record_onset = true });
  }

pub record WorkerSummary (F : Type 0) : Type 0 where
  pub finished : Bool
  pub completed : ℕ
  pub pass : ℕ
  pub fail_status : ℕ
  pub fail_latency : ℕ
  pub fail_size : ℕ
  pub fail_content_type : ℕ
  pub rate_limited : ℕ
  pub first_429_rps : Option F

-- `WorkerSummary::default`
unfoldable pub no_summary : {F : Type 0} → WorkerSummary F
no_summary = record {
  finished = false;
  completed = 0;
  pass = 0;
  fail_status = 0;
  fail_latency = 0;
  fail_size = 0;
  fail_content_type = 0;
  rate_limited = 0;
  first_429_rps = none;
}

module _ {F : Type 0} ⦃f : Float F⦄ where
  -- the lower of the onset so far and a further one
  unfoldable pub lower_onset : Option F → Option F → Option F
  lower_onset so_far none = so_far
  lower_onset none (some onset) = some onset
  lower_onset (some cur) (some onset) = some (fmin cur onset)

  -- `first_429_rps` of a partial
  unfoldable pub onset_of : Option (RateLimit F) → Option F
  onset_of none = none
  onset_of (some rl) = rl.first_429_rps

  unfoldable pub count_bucket : RpsBucket F → WorkerSummary F → WorkerSummary F
  count_bucket b s = record s {
    completed = u64_add s.completed b.total;
    pass = u64_add s.pass b.pass;
    fail_status = u64_add s.fail_status b.fail_status;
    fail_latency = u64_add s.fail_latency b.fail_latency;
    fail_size = u64_add s.fail_size b.fail_size;
    fail_content_type = u64_add s.fail_content_type b.fail_content_type;
    rate_limited = u64_add s.rate_limited b.rate_limited;
  }

  unfoldable pub count_buckets : List (RpsBucket F) → WorkerSummary F → WorkerSummary F
  unfolding count_bucket
  count_buckets [] s = s
  count_buckets (b ∷ bs) s = count_buckets bs (count_bucket b s)

  unfoldable pub count_partial : Partial F → WorkerSummary F → WorkerSummary F
  unfolding count_buckets lower_onset onset_of
  count_partial p s =
      let counted = count_buckets p.buckets s in
      record counted {
        first_429_rps = lower_onset s.first_429_rps (onset_of p.rate_limit);
        finished = counted.finished || p.final;
      }

  -- The events of a stream, up to its end or its first error: the summary, and the partials passed on
  -- to the aggregator.
  unfoldable pub count_events :
      String → List (WorkerEvent F) → WorkerSummary F → WorkerSummary F × List (String × Partial F)
  unfolding count_partial
  count_events worker_id [] s = (s, [])
  count_events worker_id (partial p ∷ es) s =
      let (last, sent) = count_events worker_id es (count_partial p s) in
      (last, (worker_id, p) ∷ sent)
  count_events worker_id (_ ∷ es) s = count_events worker_id es s

  -- `none`: the address is malformed, or the connection or the call failed.
  unfoldable pub run_one_worker :
      String → Option (List (WorkerEvent F)) → WorkerSummary F × List (String × Partial F)
  unfolding count_events no_summary
  run_one_worker worker_id none = (no_summary, [])
  run_one_worker worker_id (some events) = count_events worker_id events no_summary

-- `WORKER_LOST`, with the numbers of its message
pub record Warning (F : Type 0) : Type 0 where
  pub workers_finished : ℕ
  pub workers_dispatched : ℕ
  pub unmet_rps : F
  pub target_rps : F

pub record DispatchSummary (F : Type 0) : Type 0 where
  pub workers_dispatched : ℕ
  pub workers_finished : ℕ
  pub workers_lost : ℕ
  pub warnings : List (Warning F)
  pub total_completed : ℕ
  pub total_pass : ℕ
  pub total_fail_status : ℕ
  pub total_fail_latency : ℕ
  pub total_fail_size : ℕ
  pub total_fail_content_type : ℕ
  pub total_rate_limited : ℕ
  pub first_429_rps : Option F
  pub aborted : Bool

pub data DispatchError : Type 0 where
  no_workers : DispatchError

unfoldable pub empty_summary : {F : Type 0} → ℕ → DispatchSummary F
empty_summary num_workers = record {
  workers_dispatched = num_workers;
  workers_finished = 0;
  workers_lost = 0;
  warnings = [];
  total_completed = 0;
  total_pass = 0;
  total_fail_status = 0;
  total_fail_latency = 0;
  total_fail_size = 0;
  total_fail_content_type = 0;
  total_rate_limited = 0;
  first_429_rps = none;
  aborted = false;
}

module _ {F : Type 0} ⦃f : Float F⦄ where
  unfoldable pub add_worker : WorkerSummary F → DispatchSummary F → DispatchSummary F
  unfolding lower_onset
  add_worker ws s = record s {
    workers_finished = if ws.finished then suc s.workers_finished else s.workers_finished;
    total_completed = u64_add s.total_completed ws.completed;
    total_pass = u64_add s.total_pass ws.pass;
    total_fail_status = u64_add s.total_fail_status ws.fail_status;
    total_fail_latency = u64_add s.total_fail_latency ws.fail_latency;
    total_fail_size = u64_add s.total_fail_size ws.fail_size;
    total_fail_content_type = u64_add s.total_fail_content_type ws.fail_content_type;
    total_rate_limited = u64_add s.total_rate_limited ws.rate_limited;
    first_429_rps = lower_onset s.first_429_rps ws.first_429_rps;
  }

  -- The workers' tasks in the order they were started; `none` is one that panicked.
  unfoldable pub add_workers :
      List (Option (WorkerSummary F)) → DispatchSummary F → DispatchSummary F
  unfolding add_worker
  add_workers [] s = s
  add_workers (none ∷ rest) s = add_workers rest s
  add_workers (some ws ∷ rest) s = add_workers rest (add_worker ws s)

  -- `workers_lost` and its warning, which an aborted run does not have
  unfoldable pub account_lost : Bool → F → F → DispatchSummary F → DispatchSummary F
  account_lost is_cancelled per_worker_rps target_rps s =
      let lost = saturating_sub s.workers_dispatched s.workers_finished in
      if is_cancelled
      then record s { aborted = true }
      else if ltb 0 lost
      then record s {
        workers_lost = lost;
        warnings =
            record {
              workers_finished = s.workers_finished;
              workers_dispatched = s.workers_dispatched;
              unmet_rps = f.mul per_worker_rps (f.of_u64 lost);
              target_rps = target_rps;
            }
            ∷ [];
      }
      else s

  -- what the coordinator starts, one per worker: its identifier, where it is dialled, its assignment
  unfoldable pub assignments :
      DispatchSpec F → F → ℕ → List Worker → List (String × (Bool × String) × Assignment F)
  unfolding build_assignment
  assignments spec per_worker_rps epoch workers =
      map
        (λ w. (
          w.worker_id,
          worker_url w.address,
          build_assignment spec w.worker_id per_worker_rps epoch,
        ))
        workers

-- What happens between the start of a run and its end: what the workers' tasks return, and what
-- becomes of the coordinator's state, through aborts, registrations and other runs.
pub record Meanwhile (F : Type 0) : Type 0 where
  pub results : List (String × (Bool × String) × Assignment F) → List (Option (WorkerSummary F))
  pub state : CoordinatorState → CoordinatorState

module _ {F : Type 0} ⦃f : Float F⦄ where
  -- a run over these workers; `token` is the new cancellation token
  unfoldable pub conduct :
      ℕ
      → ℕ
      → Meanwhile F
      → DispatchSpec F
      → List Worker
      → CoordinatorState
      → CoordinatorState × DispatchSummary F
  unfolding assignments add_workers account_lost empty_summary
  conduct now token meanwhile spec workers state =
      let per_worker_rps = f.div spec.target_rps (f.of_u64 (length workers)) in
      let epoch_unix_us = if spec.epoch_unix_us == 0 then now else spec.epoch_unix_us in
      let handle : RunHandle = record {
        worker_addrs = map (λ w. w.address) workers;
        cancel = token;
      } in
      let after = meanwhile.state (register_run spec.run_id handle state) in
      let results = meanwhile.results (assignments spec per_worker_rps epoch_unix_us workers) in
      let summary = add_workers results (empty_summary (length workers)) in
      let aborted = any (λ t. t == token) after.cancelled in
      (
        deregister_run spec.run_id after,
        account_lost aborted per_worker_rps spec.target_rps summary,
      )

  unfoldable pub dispatch_with_ticks :
      ℕ
      → ℕ
      → Meanwhile F
      → DispatchSpec F
      → CoordinatorState
      → CoordinatorState × (DispatchError ⊎ DispatchSummary F)
  unfolding conduct
  dispatch_with_ticks now token meanwhile spec state = elim (list_workers state) [
    | [] ↦ (state, inl DispatchError.no_workers)
    | (w ∷ ws) ↦
        let (after, summary) = conduct now token meanwhile spec (w ∷ ws) state in
        (after, inr summary)
  ]
