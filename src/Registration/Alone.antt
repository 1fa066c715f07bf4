-- ===== src/Registration/Alone.antt =====
-- A fleet of one worker node, as a request for a run finds it (engine/src/bin/worker_node.rs and
-- engine/src/coordinator/).
use correctness_bench.Common.{
  ℕ, ◌-◌, ◌≡◌, refl, ap, ◌∙◌, Bool, true, false, inl, inr, List, [], ◌∷◌, String, Bytes, arith, ltb,
  str_eq_iff, is_empty, any, if◌then◌else◌, insert, remove, Bool-cases, map,
}
use correctness_bench.Float.{Float}
use correctness_bench.Coordinator.{
  Worker, CoordinatorState, list_workers, heartbeat_dead_after, is_dead, dead, remove_all,
  reap_dead_workers, worker_of,
}
use correctness_bench.Coordinator as Coordinator
use correctness_bench.Coordinator.Dispatch.{Meanwhile}
use correctness_bench.Coordinator.Aggregate.{AggregatedTick}
use correctness_bench.Coordinator.Admin.Runs.{RunRequest, run_endpoint}
use correctness_bench.Coordinator.Admin.Runs.Answers.{is_unavailable, run_endpoint-Serves}
use correctness_bench.Registration.{answered, info_of, reregister}
use correctness_bench.Registration.Backoff.{is_complete}
use correctness_bench.Registration.Fleet.{scan_all, reregister_entry}

-- what a scan leaves of a registry
abbrev left : ℕ → List (String × Worker) → List (String × Worker)
left now m = remove_all (dead now heartbeat_dead_after m) m

left_one :
    (now : ℕ) (id : String) (w : Worker)
    → left now ((id, w) ∷ []) ≡ (if is_dead now heartbeat_dead_after w then [] else (id, w) ∷ [])
unfolding remove_all dead remove
left_one now id w = ground (arith, str_eq_iff id id)

scan_all-none :
    (scans : List ℕ) (s : CoordinatorState) → s.workers ≡ [] → (scan_all scans s).workers ≡ []
unfolding scan_all reap_dead_workers dead remove_all
scan_all-none [] s e = e
scan_all-none (now ∷ scans) s e =
    scan_all-none scans (reap_dead_workers now heartbeat_dead_after s).0 (ap (left now) e)

scan_all-one :
    (scans : List ℕ) (id : String) (w : Worker) (s : CoordinatorState)
    → s.workers ≡ (id, w) ∷ []
    → (scan_all scans s).workers
      ≡ (if any (λ now. is_dead now heartbeat_dead_after w) scans then [] else (id, w) ∷ [])
unfolding scan_all reap_dead_workers
scan_all-one [] id w s e = e
scan_all-one (now ∷ scans) id w s e =
    let s' = (reap_dead_workers now heartbeat_dead_after s).0 in
    let kept = ap (left now) e ∙ left_one now id w in
    elim (Bool-cases (is_dead now heartbeat_dead_after w)) [
      | inl late ↦ rw late (scan_all-none scans s' (kept ∙ rw late refl))
      | inr alive ↦ rw alive (scan_all-one scans id w s' (kept ∙ rw alive refl))
    ]

empty_if :
    (b : Bool) (id : String) (w : Worker)
    → is_empty (map (λ (e : String × Worker). e.1) (if b then [] else (id, w) ∷ [])) ≡ b
empty_if true id w = refl
empty_if false id w = refl

module _ {F : Type 0} ⦃f : Float F⦄ where
  -- Let a coordinator start with an empty registry, and let a node register at `t`, the only one. Whatever
  -- the request and the rest of the run, the endpoint then answers 503 just when a scan came more than
  -- three seconds after `t`, no heartbeat having come in between.
  pub run_endpoint-scan_all :
      (worker_id address : String) (max_rps t : ℕ) (scans : List ℕ) (encode : Bytes → String)
      (now token : ℕ) (meanwhile : Meanwhile F) (ticks : List (AggregatedTick F))
      (req : RunRequest F)
      → is_complete worker_id address ≡ true
      → let state =
          scan_all scans
            (reregister (answered t) (info_of worker_id address max_rps) Coordinator.new) in
        is_unavailable (run_endpoint encode now token meanwhile ticks req state).1.answer
        ≡ any (λ n. ltb 3_000_000 (n - t)) scans
  unfolding Coordinator.new is_dead worker_of list_workers insert
  run_endpoint-scan_all id address max_rps t scans encode now token meanwhile ticks req ok =
      let info = info_of id address max_rps in
      let s = reregister (answered t) info Coordinator.new in
      let one = ap (λ s. s.workers) (reregister_entry id address max_rps t Coordinator.new ok) in
      let kept = scan_all-one scans id (worker_of t info) s one in
      (run_endpoint-Serves encode now token meanwhile ticks req (scan_all scans s)).0
      ∙ ap (λ m. is_empty (map (λ e. e.1) m)) kept
      ∙ empty_if (any (λ n. ltb 3_000_000 (n - t)) scans) id (worker_of t info)
