-- ===== src/Tests/History.antt =====
-- Histories of the coordinator, and whole dispatches, on concrete inputs.
use correctness_bench.Common.{
  ℕ, ◌+◌, ◌-◌, ◌*◌, ◌%◌, ◌≡◌, ◌<◌, ◌≤◌, refl, Bool, true, false, none, some, List, [], ◌∷◌, ◌++◌,
  map, String, arith, ltb, leb, length, length-map, if◌then◌else◌, lookup, u64_mod, any, keep,
  str_eq, ◌==◌, ◌&&◌, ◌||◌, Option,
}
use mathlib.Core.List.Perm
use correctness_bench.Float.Fixed.{Fixed, fixed_float}
use correctness_bench.Hist.Listed.{Listed, listed_hdr}
use correctness_bench.Proto.{Assignment}
use correctness_bench.Worker.Ticks.Deltas.{Column}
use correctness_bench.Coordinator.{new, register_run, is_run_active, abort_run}
use correctness_bench.Coordinator.History.{
  Event, registers, heartbeats, scans, starts, aborts, replay, reaped, scan_at,
}
use correctness_bench.Coordinator.History.Refines.{see_all, replay-see_all}
use correctness_bench.Coordinator.History.Invariant.{fits, latest, Since, replay-fits}
use correctness_bench.Coordinator.History.Reaper.{reaped-lookup}
use correctness_bench.Coordinator.History.Runs.{is_abort}
use correctness_bench.Coordinator.History.Attentive.{falls_silent, last_beat, replay-last_beat}
use correctness_bench.Coordinator.Dispatch.{WorkerSummary, Meanwhile, assignments, conduct}
use correctness_bench.Coordinator.Dispatch.Tallies.{fleet_total}
use correctness_bench.Coordinator.Dispatch.Abort.{conduct-replay}
use correctness_bench.Coordinator.Dispatch.EndToEnd.{streamed}
use correctness_bench.Coordinator.Dispatch.Stop.{deliver, is_cancelled, abort_run-deliver}
use correctness_bench.Coordinator.Dispatch.Order.{conduct-Perm}
use correctness_bench.Tests.Data as Data
use correctness_bench.Tests.Data.{a_turn}
use correctness_bench.Worker.Run.{enters, turns, cancelled}
use correctness_bench.Coordinator.Dispatch.Reports.{
  Work, Task, fleeted, sum_reports, conduct-reported,
}
use correctness_bench.Tests.Fleet.{spec, worker_at, one_worker, joining, handle, busy, summary_of}

abbrev joins : List Event
joins =
    registers 0 joining
    ∷ heartbeats 1_000_000 "w2"
    ∷ heartbeats 900_000 "w2"
    ∷ starts "other" handle
    ∷ scans 3_500_000
    ∷ aborts "other"
    ∷ []

replay-see_all_example :
    lookup "w2" (replay joins one_worker).workers
    ≡ see_all "w2" joins (lookup "w2" one_worker.workers)
unfolding lookup
replay-see_all_example = replay-see_all "w2" joins one_worker (refl, tt)

joins-Since : Since 0 joins
joins-Since =
    (omega arith, (omega arith, (omega arith, (omega arith, (omega arith, (omega arith, tt))))))

replay-fits_example :
    (fits 0 (latest 0 0 joins) "w2" (lookup "w2" (replay joins new).workers) ≡ true)
    × (lookup "w2" (replay (joins ++ (scans 4_500_000 ∷ [])) new).workers
        ≡ keep
            (λ w. leb (4_500_000 - w.last_heartbeat) 3_000_000)
            (lookup "w2" (replay joins new).workers))
replay-fits_example = replay-fits 0 4_500_000 "w2" joins joins-Since

reaped-lookup_example :
    (lookup "w1" (reaped 0 5 one_worker).workers
      ≡ (if ltb (0 + 3_000_000) (0 + 5 * 1_000_000) then none else some (worker_at 0)))
    × ((late : ℕ) × (0 + 3_000_000 < scan_at 0 late) × (scan_at 0 late ≤ 0 + 4_000_000))
unfolding lookup
reaped-lookup_example =
    reaped-lookup 0 5 "w1" (worker_at 0) one_worker (refl, tt) refl (omega arith)

replay-last_beat_example : lookup "w1" (replay joins one_worker).workers ≡ (
    if falls_silent "w1" joins 0
    then none
    else some (record (worker_at 0) { last_heartbeat = last_beat "w1" joins 0 }))
unfolding lookup
replay-last_beat_example = replay-last_beat "w1" joins (worker_at 0) one_worker (refl, tt) refl refl

abbrev finishing : String × (Bool × String) × Assignment Fixed → Option (WorkerSummary Fixed)
finishing task = some (summary_of 3)

abbrev stopping : List Event
stopping = heartbeats 5 "w1" ∷ aborts "run" ∷ []

conduct-replay_example :
    let meanwhile : Meanwhile Fixed = record { results = map finishing; state = replay stopping } in
    let (after, s) = conduct 0 9 meanwhile spec (worker_at 0 ∷ []) one_worker in
    (s.aborted ≡ any (is_abort "run") stopping)
    × (s.workers_lost ≡ (if any (is_abort "run") stopping then 0 else 1 - s.workers_finished))
    × (length s.warnings ≡ (if ltb 0 s.workers_lost then 1 else 0))
    × (is_run_active "run" after ≡ false)
unfolding lookup
conduct-replay_example =
    conduct-replay 0 9 (map finishing) stopping spec (worker_at 0 ∷ []) one_worker (refl, λ j. refl)
      refl (λ tasks. length-map finishing tasks)

conduct-Perm_example :
    let meanwhile : Meanwhile Fixed = record { results = map finishing; state = replay joins } in
    let s = (conduct 0 9 meanwhile spec (worker_at 0 ∷ worker_at 1 ∷ []) one_worker).1 in
    let t = (conduct 0 9 meanwhile spec (worker_at 1 ∷ worker_at 0 ∷ []) one_worker).1 in
    (fleet_total Column.pass s ≡ fleet_total Column.pass t)
    × (s.workers_finished ≡ t.workers_finished)
    × (s.workers_lost ≡ t.workers_lost)
    × (length s.warnings ≡ length t.warnings)
    × (s.aborted ≡ t.aborted)
unfolding lookup
conduct-Perm_example =
    conduct-Perm Column.pass 0 9 finishing joins spec (worker_at 0 ∷ worker_at 1 ∷ [])
      (worker_at 1 ∷ worker_at 0 ∷ []) one_worker (Perm.swap (worker_at 1) (worker_at 0) [])
      (refl, λ j. refl) refl

-- two seconds of a worker: a turn of each connection, and a turn cut short by an abort
abbrev two_seconds : Task Fixed → Work Fixed ℕ
two_seconds task = record {
  spec = Data.spec;
  connects = true ∷ true ∷ [];
  segments =
      (enters 1 ∷ turns 1 a_turn ∷ enters 0 ∷ [])
      ∷ (cancelled ∷ turns 0 a_turn ∷ enters 0 ∷ [])
      ∷ [];
  started = 5;
  elapsed_ns = 2_000_000_000;
}

conduct-reported_example :
    let tasks = assignments spec 100_000_000 7 (worker_at 0 ∷ []) in
    let meanwhile : Meanwhile Fixed = record {
      results = λ tasks. streamed (map (fleeted Listed two_seconds) tasks);
      state = λ s. s;
    } in
    let s = (conduct 7 9 meanwhile spec (worker_at 0 ∷ []) one_worker).1 in
    (fleet_total Column.pass s ≡ sum_reports Listed Column.pass (map two_seconds tasks) % u64_mod)
    × (s.workers_finished ≡ 1)
    × (s.workers_lost ≡ 0)
    × (length s.warnings ≡ 0)
conduct-reported_example =
    conduct-reported Listed Column.pass 7 9 two_seconds (λ s. s) spec (worker_at 0 ∷ []) one_worker
      (λ task. omega arith)

abort_run-deliver_example :
    let (accepted, calls) =
      (abort_run "run" (replay joins (register_run "run" handle one_worker))).1 in
    (accepted ≡ true)
    × (is_cancelled 0 (deliver (λ a. true) calls (λ a. busy 0) "localhost:9000") ≡ (
        any (λ a. true && str_eq "localhost:9000" a) handle.worker_addrs && 0 == 0
        || is_cancelled 0 (busy 0)))
unfolding lookup
abort_run-deliver_example =
    abort_run-deliver "run" "localhost:9000" handle joins one_worker (λ a. true) (λ a. busy 0) 0 0
      refl refl
