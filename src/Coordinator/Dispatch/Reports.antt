-- ===== src/Coordinator/Dispatch/Reports.antt =====
-- A run of the whole fleet, from the turns of each worker's connections to the coordinator's summary
-- (worker.rs, worker_node.rs and coordinator/dispatch.rs).
use correctness_bench.Common.{
  ℕ, ◌+◌, ◌%◌, ◌<◌, ◌≡◌, ◌==◌, refl, ap, ◌∙◌, Bool, List, [], ◌∷◌, map, String, arith, length,
  u64_mod, if◌then◌else◌,
}
use correctness_bench.Float.{Float}
use correctness_bench.Hist.Library.{Hdr}
use correctness_bench.Proto.{Assignment}
use correctness_bench.Worker.Spec.{RunSpec}
use correctness_bench.Worker.Ticks.Deltas.{Column}
use correctness_bench.Worker.Run.{World, Happening, RunReport, start, config_of, report}
use correctness_bench.Worker.Run.Books.{result}
use correctness_bench.Worker.Run.Seconds.{found, ticked, happenings, reported, ticked-reported}
use correctness_bench.Coordinator.{Worker, CoordinatorState}
use correctness_bench.Coordinator.Dispatch.{DispatchSpec, Meanwhile, assignments, conduct}
use correctness_bench.Coordinator.Dispatch.Tallies.{fleet_total}
use correctness_bench.Coordinator.Dispatch.EndToEnd.{Fleeted, streamed, sum_last, conduct-streamed}

-- What becomes of one worker's slice: its spec, which connects succeed, what happens in the pool from
-- each tick to the next, when it starts and how long it takes.
pub record Work (F U : Type 0) : Type 0 where
  pub spec : RunSpec F U
  pub connects : List Bool
  pub segments : List (List Happening)
  pub started : ℕ
  pub elapsed_ns : ℕ

abbrev pub Task : Type 0 → Type 0
Task F = String × (Bool × String) × Assignment F

module _ (H : Type 0) {F U : Type 0} ⦃f : Float F⦄ ⦃h : Hdr H⦄ where
  -- the pool after the worker's last tick, and its report
  abbrev pub pool : Work F U → World F H
  pool w = ticked (config_of w.spec) (start w.spec w.connects) w.segments

  abbrev pub report_of : Work F U → RunReport F H U
  report_of w = report w.spec w.elapsed_ns (pool w) (map result (pool w).tasks)

  abbrev pub sum_reports : Column → List (Work F U) → ℕ
  sum_reports k [] = 0
  sum_reports k (w ∷ ws) = reported k (report_of w) + sum_reports k ws

  -- the worker as the coordinator streams from it
  abbrev pub fleeted : (Task F → Work F U) → Task F → Fleeted F H
  fleeted work (id, url, a) = record {
    worker_id = id;
    start = (work (id, url, a)).started;
    epoch = a.epoch_unix_us;
    states =
        let w = work (id, url, a) in found (config_of w.spec) (start w.spec w.connects) w.segments;
  }

  sum_last-reports :
      (k : Column) (work : Task F → Work F U) (tasks : List (Task F))
      → ((task : Task F) → happenings (work task).segments < u64_mod)
      → sum_last k (map (fleeted work) tasks) ≡ sum_reports k (map work tasks)
  sum_last-reports k work [] room = refl
  sum_last-reports k work (task ∷ tasks) room =
      let w = work task in
      let one = ticked-reported H k w.spec w.connects w.segments w.elapsed_ns (room task) in
      omega (arith, one.1, sum_last-reports k work tasks room)

  -- A run over some workers, whatever else the coordinator does meanwhile, in which fewer than 2 ^ 64
  -- things happen in each worker, in any interleaving and with an abort at any point, and each worker's
  -- stream arrives whole: each of the run's seven totals is the sum of that count over the workers'
  -- reports, modulo 2 ^ 64, if each report is made at the worker's last tick. Every worker counts as
  -- finished, none as lost, and there is no warning.
  pub conduct-reported :
      (k : Column) (now token : ℕ) (work : Task F → Work F U)
      (other : CoordinatorState → CoordinatorState) (spec : DispatchSpec F) (workers : List Worker)
      (state : CoordinatorState)
      → ((task : Task F) → happenings (work task).segments < u64_mod)
      → let per_worker_rps = f.div spec.target_rps (f.of_u64 (length workers)) in
        let epoch = if spec.epoch_unix_us == 0 then now else spec.epoch_unix_us in
        let tasks = assignments spec per_worker_rps epoch workers in
        let meanwhile : Meanwhile F = record {
          results = λ tasks. streamed (map (fleeted work) tasks);
          state = other;
        } in
        let s = (conduct now token meanwhile spec workers state).1 in
        (fleet_total k s ≡ sum_reports k (map work tasks) % u64_mod)
        × (s.workers_finished ≡ length workers)
        × (s.workers_lost ≡ 0)
        × (length s.warnings ≡ 0)
  conduct-reported k now token work other spec workers state room =
      let per_worker_rps = f.div spec.target_rps (f.of_u64 (length workers)) in
      let epoch = if spec.epoch_unix_us == 0 then now else spec.epoch_unix_us in
      let tasks = assignments spec per_worker_rps epoch workers in
      let all = conduct-streamed k now token (fleeted work) other spec workers state (λ task k.
        let w = work task in
        (ticked-reported H k w.spec w.connects w.segments w.elapsed_ns (room task)).0) in
      (all.0 ∙ ap (λ n. n % u64_mod) (sum_last-reports k work tasks room), all.1, all.2, all.3)
