-- ===== src/Tests/Onset.antt =====
-- The onset of a fleet on a concrete input.
use correctness_bench.Common.{refl, Bool, none, some, List, [], ◌∷◌, map, String, Option}
use correctness_bench.Float.Fixed.{Fixed, fixed_float, Fixed-IsIeee}
use correctness_bench.Proto.{Assignment, WorkerEvent, partial, started}
use correctness_bench.Coordinator.Dispatch.{
  Meanwhile, onset_of, run_one_worker, assignments, conduct,
}
use correctness_bench.Coordinator.Dispatch.Lowest.{IsLowest, together}
use correctness_bench.Coordinator.Dispatch.Onset.{onsets_of, conduct-IsLowest}
use correctness_bench.Tests.Fleet.{spec, worker_at, one_worker, partial_of}

-- two partials with an onset and one without
abbrev limited : String × (Bool × String) × Assignment Fixed → Option (List (WorkerEvent Fixed))
limited task = some (
    started 7 0
    ∷ partial (partial_of "w1" 3)
    ∷ partial (record (partial_of "w1" 3) {
      rate_limit = some (record {
        count_this_tick = 1;
        first_429_rps = some 70_000_000;
        last_retry_after_ms = none;
        backoff_us_total = 0;
      });
    })
    ∷ partial (record (partial_of "w1" 3) {
      rate_limit = some (record {
        count_this_tick = 1;
        first_429_rps = some 60_000_000;
        last_retry_after_ms = none;
        backoff_us_total = 0;
      });
    })
    ∷ [])

conduct-IsLowest_example :
    let meanwhile : Meanwhile Fixed = record {
      results = map (λ task. some (run_one_worker task.0 (limited task)).0);
      state = λ s. s;
    } in
    IsLowest
      (conduct 7 9 meanwhile spec (worker_at 0 ∷ worker_at 1 ∷ []) one_worker).1.first_429_rps
      (together
        (λ task. onsets_of (limited task))
        (assignments spec 50_000_000 7 (worker_at 0 ∷ worker_at 1 ∷ [])))
unfolding onset_of
conduct-IsLowest_example =
    conduct-IsLowest Fixed-IsIeee 7 9 limited (λ s. s) spec (worker_at 0 ∷ worker_at 1 ∷ [])
      one_worker (λ task. (tt, (refl, (refl, tt))))
