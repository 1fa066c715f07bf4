-- ===== src/Coordinator/Dispatch/Abort.antt =====
-- A dispatch while the coordinator goes on serving other calls (coordinator/dispatch.rs with
-- coordinator/mod.rs).
use correctness_bench.Common.{
  ℕ, ◌-◌, ◌≡◌, refl, sym, ◌∙◌, Bool, true, false, Option, List, map, String, arith, length,
  length-map, any, ltb, if◌then◌else◌, ◌==◌, lookup, lookup-insert,
}
use correctness_bench.Float.{Float}
use correctness_bench.Proto.{Assignment}
use correctness_bench.Coordinator.{
  Worker, RunHandle, CoordinatorState, register_run, deregister_run, is_run_active,
}
use correctness_bench.Coordinator.History.{Event, replay}
use correctness_bench.Coordinator.History.Runs.{
  holds, Owns, leave, is_abort, cancelled_by, replay-cancelled_by,
}
use correctness_bench.Coordinator.Dispatch.{
  WorkerSummary, DispatchSpec, Meanwhile, assignments, conduct, add_workers, empty_summary,
  account_lost,
}
use correctness_bench.Coordinator.Dispatch.Tallies.{account_lost_all}
use correctness_bench.Coordinator.Dispatch.Fleet.{conduct_over}

-- A token that no run has and that was never cancelled, as a new one is.
abbrev pub Fresh : ℕ → CoordinatorState → Type 0
Fresh token s =
    (cancelled_by token s ≡ false) × ((j : String) → holds token (lookup j s.runs) ≡ false)

register_run-Owns :
    (token : ℕ) (run_id : String) (addrs : List String) (s : CoordinatorState)
    → Fresh token s
    → Owns token run_id (register_run run_id (record { worker_addrs = addrs; cancel = token }) s)
unfolding register_run
register_run-Owns token run_id addrs s (clear, free) j =
    let handle : RunHandle = record { worker_addrs = addrs; cancel = token } in
    ground (arith, lookup-insert run_id j handle s.runs, free j)

register_run-cancelled_by :
    (token : ℕ) (run_id : String) (handle : RunHandle) (s : CoordinatorState)
    → cancelled_by token (register_run run_id handle s) ≡ cancelled_by token s
unfolding register_run
register_run-cancelled_by token run_id handle s = refl

deregister_run-cancelled_by :
    (token : ℕ) (run_id : String) (s : CoordinatorState)
    → cancelled_by token (deregister_run run_id s) ≡ cancelled_by token s
unfolding deregister_run
deregister_run-cancelled_by token run_id s = refl

-- what the workers' tasks return
abbrev pub Results : Type 0 → Type 0
Results F = List (String × (Bool × String) × Assignment F) → List (Option (WorkerSummary F))

module _ {F : Type 0} ⦃f : Float F⦄ where
  pub length-assignments :
      (spec : DispatchSpec F) (rps : F) (epoch : ℕ) (workers : List Worker)
      → length (assignments spec rps epoch workers) ≡ length workers
  unfolding assignments
  length-assignments spec rps epoch workers = length-map _ workers

  accounted :
      (aborted came : Bool) (rps target : F) (results : List (Option (WorkerSummary F))) (n : ℕ)
      → length results ≡ n
      → aborted ≡ came
      → let s = account_lost aborted rps target (add_workers results (empty_summary n)) in
        (s.aborted ≡ came)
        × (s.workers_lost ≡ (if came then 0 else n - s.workers_finished))
        × (length s.warnings ≡ (if ltb 0 s.workers_lost then 1 else 0))
  accounted aborted came rps target results n len e =
      rw (sym len, sym e)
        (let all = account_lost_all aborted rps target results in
          (all.4, all.1 ∙ rw all.0 refl, all.3))

  -- A run over some workers with one result each and a new token, while the coordinator serves
  -- other calls, none of which starts or ends this run or reuses its token: it is reported as
  -- aborted just when an abort of it came. Then no worker is counted as lost and there is no
  -- warning. Otherwise the lost are those that did not finish, with one warning just when there are
  -- some. Afterwards the run is not in flight.
  pub conduct-replay :
      (now token : ℕ) (results : Results F) (es : List Event) (spec : DispatchSpec F)
      (workers : List Worker) (state : CoordinatorState)
      → Fresh token state
      → leave token spec.run_id es ≡ true
      → ((tasks : _) → length (results tasks) ≡ length tasks)
      → let (after, s) =
          conduct now token (record { results = results; state = replay es }) spec workers state in
        (s.aborted ≡ any (is_abort spec.run_id) es)
        × (s.workers_lost
            ≡ (if any (is_abort spec.run_id) es then 0 else length workers - s.workers_finished))
        × (length s.warnings ≡ (if ltb 0 s.workers_lost then 1 else 0))
        × (is_run_active spec.run_id after ≡ false)
  unfolding conduct
  conduct-replay now token results es spec workers state fresh l one_each =
      let per_worker_rps = f.div spec.target_rps (f.of_u64 (length workers)) in
      let epoch = if spec.epoch_unix_us == 0 then now else spec.epoch_unix_us in
      let tasks = assignments spec per_worker_rps epoch workers in
      let addrs = map (λ w. w.address) workers in
      let started =
        register_run spec.run_id (record { worker_addrs = addrs; cancel = token }) state in
      let owns = register_run-Owns token spec.run_id addrs state fresh in
      let seen = (replay-cancelled_by token spec.run_id es started l owns).1 in
      let aborted = cancelled_by token (replay es started) in
      let by_abort : aborted ≡ any (is_abort spec.run_id) es = ground (
        arith,
        seen,
        fresh.0,
        register_run-cancelled_by token spec.run_id
            (record { worker_addrs = addrs; cancel = token }) state,
      ) in
      let len = one_each tasks ∙ length-assignments spec per_worker_rps epoch workers in
      let all =
        accounted aborted (any (is_abort spec.run_id) es) per_worker_rps spec.target_rps
          (results tasks) (length workers) len by_abort in
      let meanwhile : Meanwhile F = record { results = results; state = replay es } in
      (all.0, all.1, all.2, conduct_over now token meanwhile spec workers state)
