-- ===== src/Coordinator/Dispatch/EndToEnd.antt =====
-- From the counters of the workers to the summary of the fleet (worker_node.rs and
-- coordinator/dispatch.rs).
use correctness_bench.Common.{
  ℕ, ◌+◌, ◌%◌, ◌≡◌, refl, sym, ◌∙◌, ◌==◌, Bool, Option, some, List, [], ◌∷◌, map, String, arith,
  length, length-map, u64_mod, if◌then◌else◌,
}
use correctness_bench.Float.{Float}
use correctness_bench.Hist.Library.{Hdr}
use correctness_bench.Proto.{Assignment}
use correctness_bench.Worker.Connection.{Shared}
use correctness_bench.Worker.Ticks.{nothing_seen, ticks}
use correctness_bench.Worker.Ticks.Deltas as Deltas
use correctness_bench.Worker.Ticks.Deltas.{Column, Rising, last_seen}
use correctness_bench.WorkerNode.Slices.{events}
use correctness_bench.Coordinator.{Worker, CoordinatorState}
use correctness_bench.Coordinator.Dispatch.Abort.{length-assignments}
use correctness_bench.Coordinator.Dispatch.{
  WorkerSummary, DispatchSpec, Meanwhile, assignments, conduct, run_one_worker, add_workers,
  empty_summary, account_lost,
}
use correctness_bench.Coordinator.Dispatch.Tallies.{
  fleet_total, sum_tallies, finishers, fleet_total_sums, account_lost_all,
}
use correctness_bench.Coordinator.Dispatch.Fleet.{run_one_worker-events}

-- A worker of a run: its identifier, its start and epoch, and its shared state as each tick, to the
-- last, finds it.
pub record Fleeted (F H : Type 0) : Type 0 where
  pub worker_id : String
  pub start : ℕ
  pub epoch : ℕ
  pub states : List (Shared F H)

module _ {F H : Type 0} ⦃f : Float F⦄ ⦃h : Hdr H⦄ where
  -- what the coordinator makes of each worker's whole stream
  abbrev pub streamed : List (Fleeted F H) → List (Option (WorkerSummary F))
  streamed [] = []
  streamed (w ∷ ws) =
      some
        (run_one_worker w.worker_id (some (events w.worker_id w.start w.epoch (ticks w.states)))).0
      ∷ streamed ws

  -- No counter of any worker falls.
  abbrev pub AllRising : List (Fleeted F H) → Type 0
  AllRising [] = Unit
  AllRising (w ∷ ws) = ((k : Column) → Rising k nothing_seen w.states) × AllRising ws

  -- the sum of a counter over the workers, as their last ticks saw it
  abbrev pub sum_last : Column → List (Fleeted F H) → ℕ
  sum_last k [] = 0
  sum_last k (w ∷ ws) = Deltas.entry k (last_seen nothing_seen w.states) + sum_last k ws

  length-streamed : (ws : List (Fleeted F H)) → length (streamed ws) ≡ length ws
  length-streamed [] = refl
  length-streamed (w ∷ ws) = omega (arith, length-streamed ws)

  finishers-streamed :
      (ws : List (Fleeted F H)) → AllRising ws → finishers (streamed ws) ≡ length ws
  finishers-streamed [] r = refl
  finishers-streamed (w ∷ ws) (r, rs) =
      let one =
        run_one_worker-events Column.total w.worker_id w.start w.epoch w.states (r Column.total) in
      ground (arith, one.0, finishers-streamed ws rs)

  sum_tallies-streamed :
      (k : Column) (ws : List (Fleeted F H))
      → AllRising ws
      → sum_tallies k (streamed ws) % u64_mod ≡ sum_last k ws % u64_mod
  sum_tallies-streamed k [] r = refl
  sum_tallies-streamed k (w ∷ ws) (r, rs) =
      let one = run_one_worker-events k w.worker_id w.start w.epoch w.states (r k) in
      omega (arith, one.1, sum_tallies-streamed k ws rs)

  account_lost-streamed :
      (k : Column) (aborted : Bool) (rps target : F) (ws : List (Fleeted F H)) (n : ℕ)
      → length ws ≡ n
      → AllRising ws
      → let s = account_lost aborted rps target (add_workers (streamed ws) (empty_summary n)) in
        (fleet_total k s ≡ sum_last k ws % u64_mod)
        × (s.workers_finished ≡ n)
        × (s.workers_lost ≡ 0)
        × (length s.warnings ≡ 0)
  account_lost-streamed k aborted rps target ws n len r =
      let results = streamed ws in
      rw (sym len, sym (length-streamed ws))
        (let all = account_lost_all aborted rps target results in
          let full = finishers-streamed ws r ∙ sym (length-streamed ws) in
          let none_lost = all.1 ∙ ground (arith, full) in
          (
            fleet_total_sums k aborted rps target results ∙ sum_tallies-streamed k ws r,
            all.0 ∙ full,
            none_lost,
            all.3 ∙ rw none_lost refl,
          ))

  AllRising-map :
      {A : Type 0} (play : A → Fleeted F H) (tasks : List A)
      → ((task : A) (k : Column) → Rising k nothing_seen (play task).states)
      → AllRising (map play tasks)
  AllRising-map play [] r = tt
  AllRising-map play (task ∷ tasks) r = (r task, AllRising-map play tasks r)

  -- A run over some workers, whatever else the coordinator does meanwhile, in which each worker works
  -- off its own assignment without a counter that falls, and its stream arrives whole: each of the
  -- run's seven totals is the sum over the workers of that counter, as their last ticks saw it, modulo
  -- 2 ^ 64; every worker counts as finished, none as lost, and there is no warning.
  pub conduct-streamed :
      (k : Column) (now token : ℕ) (play : String × (Bool × String) × Assignment F → Fleeted F H)
      (other : CoordinatorState → CoordinatorState) (spec : DispatchSpec F) (workers : List Worker)
      (state : CoordinatorState)
      → ((task : _) (k : Column) → Rising k nothing_seen (play task).states)
      → let per_worker_rps = f.div spec.target_rps (f.of_u64 (length workers)) in
        let epoch = if spec.epoch_unix_us == 0 then now else spec.epoch_unix_us in
        let fleet = map play (assignments spec per_worker_rps epoch workers) in
        let meanwhile : Meanwhile F = record {
          results = λ tasks. streamed (map play tasks);
          state = other;
        } in
        let s = (conduct now token meanwhile spec workers state).1 in
        (fleet_total k s ≡ sum_last k fleet % u64_mod)
        × (s.workers_finished ≡ length workers)
        × (s.workers_lost ≡ 0)
        × (length s.warnings ≡ 0)
  unfolding conduct
  conduct-streamed k now token play other spec workers state r =
      let per_worker_rps = f.div spec.target_rps (f.of_u64 (length workers)) in
      let epoch = if spec.epoch_unix_us == 0 then now else spec.epoch_unix_us in
      let tasks = assignments spec per_worker_rps epoch workers in
      account_lost-streamed k _ per_worker_rps spec.target_rps (map play tasks) (length workers)
        (length-map play tasks ∙ length-assignments spec per_worker_rps epoch workers)
        (AllRising-map play tasks r)
