-- ===== src/Coordinator/Admin/Runs/Answers.antt =====
-- What the endpoint answers, and what it tells the control plane (engine/src/coordinator/admin.rs).
use correctness_bench.Common.{
  ℕ, ◌≡◌, refl, ◌∙◌, Bool, true, false, ◌⊎◌, inl, inr, Option, none, some, List, [], String, Bytes,
  is_empty, if◌then◌else◌,
}
use correctness_bench.Float.{Float}
use correctness_bench.Coordinator.{CoordinatorState, list_workers, is_run_active}
use correctness_bench.Coordinator.Dispatch.{
  DispatchSummary, DispatchError, Meanwhile, dispatch_with_ticks,
}
use correctness_bench.Coordinator.Dispatch.Fleet.{refused, dispatch_with_ticks-is_run_active}
use correctness_bench.Coordinator.Aggregate.{AggregatedTick}
use correctness_bench.Coordinator.Admin.{FinalsAcc, no_finals, FinalizeBody, finalize_body}
use correctness_bench.Coordinator.Admin.Runs.{
  RunRequest, RunResponse, to_response, Unavailable, no_registered_workers, Served, spec_of,
  observe_all, respond, run_endpoint,
}

-- whether the answer is the 503
abbrev pub is_unavailable : {A : Type 0} → Unavailable ⊎ A → Bool
is_unavailable (inl e) = true
is_unavailable (inr r) = false

module _ {F : Type 0} where
  -- An answer gives the counts, the onset, the losses and the warnings of the run.
  pub record Tells (s : DispatchSummary F) (run_id : String) (r : RunResponse F) : Type 0 where
    pub run_told : r.run_id ≡ run_id
    pub dispatched_told : r.workers_dispatched ≡ s.workers_dispatched
    pub finished_told : r.workers_finished ≡ s.workers_finished
    pub completed_told : r.total_completed ≡ s.total_completed
    pub pass_told : r.total_pass ≡ s.total_pass
    pub status_told : r.total_fail_status ≡ s.total_fail_status
    pub latency_told : r.total_fail_latency ≡ s.total_fail_latency
    pub size_told : r.total_fail_size ≡ s.total_fail_size
    pub type_told : r.total_fail_content_type ≡ s.total_fail_content_type
    pub rate_limited_told : r.total_rate_limited ≡ s.total_rate_limited
    pub onset_told : r.rate_limit_onset_rps ≡ s.first_429_rps
    pub lost_told : r.workers_lost ≡ s.workers_lost
    pub warnings_told : r.warnings ≡ s.warnings

  -- So does a push, which also says whether the run was aborted.
  pub record Pushes (s : DispatchSummary F) (b : FinalizeBody F) : Type 0 where
    pub requests_pushed : b.total_requests ≡ s.total_completed
    pub pass_pushed : b.total_pass ≡ s.total_pass
    pub rate_limited_pushed : b.rate_limited ≡ s.total_rate_limited
    pub onset_pushed : b.rate_limit_onset_rps ≡ s.first_429_rps
    pub lost_pushed : b.workers_lost ≡ s.workers_lost
    pub warnings_pushed : b.warnings ≡ s.warnings
    pub aborted_pushed : b.was_aborted ≡ s.aborted

  -- the final push to a URL, if there is one
  abbrev pub Pushed : DispatchSummary F → Option String → Option (String × FinalizeBody F) → Type 0
  Pushed s none finalized = finalized ≡ none
  Pushed s (some url) finalized = (b : FinalizeBody F) × (finalized ≡ some (url, b)) × Pushes s b

  -- What was served for a run that gave `result`: a run that did not start leads to the 503 alone, and
  -- another one to an answer with its summary, and to a push of it if there is a URL for that.
  abbrev pub Serves : RunRequest F → DispatchError ⊎ DispatchSummary F → Served F → Type 0
  Serves req (inl e) served =
      (served.answer ≡ inl no_registered_workers) × (served.posted ≡ []) × (served.finalized ≡ none)
  Serves req (inr s) served =
      ((r : RunResponse F) × (served.answer ≡ inr r) × Tells s req.run_id r)
      × Pushed s req.control_finalize_url served.finalized

  push :
      (s : DispatchSummary F) (url : Option String) (b : FinalizeBody F)
      → Pushes s b
      → Pushed s url (elim url [ none ↦ none | some u ↦ some (u, b) ])
  push s none b pushes = refl
  push s (some u) b pushes = (b, refl, pushes)

module _ {F : Type 0} ⦃f : Float F⦄ where
  Pushes-body :
      (encode : Bytes → String) (a : FinalsAcc F) (s : DispatchSummary F)
      → Pushes s (finalize_body encode a s)
  unfolding finalize_body
  Pushes-body encode a s = record {
    requests_pushed = refl;
    pass_pushed = refl;
    rate_limited_pushed = refl;
    onset_pushed = refl;
    lost_pushed = refl;
    warnings_pushed = refl;
    aborted_pushed = refl;
  }

  Tells-response : (s : DispatchSummary F) (run_id : String) → Tells s run_id (to_response run_id s)
  unfolding to_response
  Tells-response s run_id = record {
    run_told = refl;
    dispatched_told = refl;
    finished_told = refl;
    completed_told = refl;
    pass_told = refl;
    status_told = refl;
    latency_told = refl;
    size_told = refl;
    type_told = refl;
    rate_limited_told = refl;
    onset_told = refl;
    lost_told = refl;
    warnings_told = refl;
  }

  respond-Serves :
      (encode : Bytes → String) (req : RunRequest F) (ticks : List (AggregatedTick F))
      (result : DispatchError ⊎ DispatchSummary F)
      → (is_unavailable (respond encode req ticks result).answer ≡ refused result)
        × Serves req result (respond encode req ticks result)
  unfolding respond
  respond-Serves encode req ticks (inl e) = (refl, (refl, refl, refl))
  respond-Serves encode req ticks (inr s) = (
    refl,
    (
      (to_response req.run_id s, refl, Tells-response s req.run_id),
      push s req.control_finalize_url _ (Pushes-body encode (observe_all ticks no_finals) s),
    ),
  )

  -- A request for a run is answered with 503 just when no worker is registered, and then pushes nothing.
  -- Any other request is answered with the summary of the run that its specification gives: its seven
  -- counts, its workers, onset, losses and warnings. If it names a URL for that, the control plane is
  -- pushed the completed, passed and limited responses, the onset, the losses, the warnings and whether
  -- the run was aborted. Afterwards the run is not in flight. This holds whatever happens meanwhile.
  pub run_endpoint-Serves :
      (encode : Bytes → String) (now token : ℕ) (meanwhile : Meanwhile F)
      (ticks : List (AggregatedTick F)) (req : RunRequest F) (state : CoordinatorState)
      → let r = run_endpoint encode now token meanwhile ticks req state in
        let result = (dispatch_with_ticks now token meanwhile (spec_of req) state).1 in
        (is_unavailable r.1.answer ≡ is_empty (list_workers state))
        × Serves req result r.1
        × (is_run_active req.run_id r.0
            ≡ (if is_empty (list_workers state) then is_run_active req.run_id state else false))
  unfolding run_endpoint spec_of
  run_endpoint-Serves encode now token meanwhile ticks req state =
      let result = dispatch_with_ticks now token meanwhile (spec_of req) state in
      let (fails, over) =
        dispatch_with_ticks-is_run_active now token meanwhile (spec_of req) state in
      let (answer, told) = respond-Serves encode req ticks result.1 in (answer ∙ fails, told, over)
