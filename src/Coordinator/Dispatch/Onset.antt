-- ===== src/Coordinator/Dispatch/Onset.antt =====
-- The rate at which a fleet is first limited (coordinator/dispatch.rs).
use correctness_bench.Common.{
  ℕ, ◌≡◌, refl, ap, ◌∙◌, ◌==◌, Bool, Option, none, some, List, [], ◌∷◌, map, String, arith, All,
  length, if◌then◌else◌, any,
}
use correctness_bench.Float.{Float, IsIeee}
use correctness_bench.Proto.{
  Assignment, Partial, WorkerEvent, partial, started, saturated, error, no_kind,
}
use correctness_bench.Coordinator.{Worker, RunHandle, CoordinatorState, register_run}
use correctness_bench.Coordinator.Dispatch.{
  WorkerSummary, DispatchSummary, DispatchSpec, Meanwhile, lower_onset, onset_of, count_partial,
  count_events, run_one_worker, no_summary, add_worker, add_workers, account_lost, empty_summary,
  assignments, conduct,
}
use correctness_bench.Coordinator.Dispatch.Lowest.{
  IsDefined, IsLowest, together, lowest, lowest-none, lowest-IsDefined, IsLowest-together,
}

module _ {F : Type 0} ⦃f : Float F⦄ where
  -- the onsets that a stream's partials carry
  abbrev pub onsets_in : List (WorkerEvent F) → List (Option F)
  onsets_in [] = []
  onsets_in (partial p ∷ es) = onset_of p.rate_limit ∷ onsets_in es
  onsets_in (_ ∷ es) = onsets_in es

  -- of no stream, if the worker could not be reached
  abbrev pub onsets_of : Option (List (WorkerEvent F)) → List (Option F)
  onsets_of none = []
  onsets_of (some events) = onsets_in events

  count_partial_first :
      (p : Partial F) (s : WorkerSummary F)
      → (count_partial p s).first_429_rps ≡ lower_onset s.first_429_rps (onset_of p.rate_limit)
  unfolding count_partial
  count_partial_first p s = refl

  count_events_first :
      (worker_id : String) (es : List (WorkerEvent F)) (s : WorkerSummary F)
      → (count_events worker_id es s).0.first_429_rps ≡ lowest s.first_429_rps (onsets_in es)
  unfolding count_events
  count_events_first worker_id [] s = refl
  count_events_first worker_id (partial p ∷ es) s =
      count_events_first worker_id es (count_partial p s)
      ∙ ap (λ o. lowest o (onsets_in es)) (count_partial_first p s)
  count_events_first worker_id (started a b ∷ es) s = count_events_first worker_id es s
  count_events_first worker_id (saturated a b ∷ es) s = count_events_first worker_id es s
  count_events_first worker_id (error a b c ∷ es) s = count_events_first worker_id es s
  count_events_first worker_id (no_kind ∷ es) s = count_events_first worker_id es s

  run_one_worker_first :
      (worker_id : String) (stream : Option (List (WorkerEvent F)))
      → (run_one_worker worker_id stream).0.first_429_rps ≡ lowest none (onsets_of stream)
  unfolding run_one_worker no_summary
  run_one_worker_first worker_id none = refl
  run_one_worker_first worker_id (some es) = count_events_first worker_id es no_summary

  module _ {A : Type 0} (play : A → WorkerSummary F) where
    add_workers_first :
        (xs : List A) (s : DispatchSummary F)
        → (add_workers (map (λ a. some (play a)) xs) s).first_429_rps
          ≡ lowest s.first_429_rps (map (λ a. (play a).first_429_rps) xs)
    unfolding add_workers add_worker
    add_workers_first [] s = refl
    add_workers_first (a ∷ xs) s = add_workers_first xs (add_worker (play a) s)

  account_lost_first :
      (aborted : Bool) (rps target : F) (s : DispatchSummary F)
      → (account_lost aborted rps target s).first_429_rps ≡ s.first_429_rps
  unfolding account_lost
  account_lost_first aborted rps target s = ground arith

module _ {F : Type 0} ⦃f : Float F⦄ (laws : IsIeee F) where
  module _ {A : Type 0} (id : A → String) (stream : A → Option (List (WorkerEvent F)))
      (defined : (a : A) → All IsDefined (onsets_of (stream a))) where
    abbrev first_of : A → Option F
    first_of a = (run_one_worker (id a) (stream a)).0.first_429_rps

    first_of-IsLowest : (a : A) → IsLowest (first_of a) (onsets_of (stream a))
    first_of-IsLowest a =
        rw (run_one_worker_first (id a) (stream a))
          (lowest-none laws (onsets_of (stream a)) (defined a))

    first_of-IsDefined : (xs : List A) → All IsDefined (map first_of xs)
    first_of-IsDefined [] = tt
    first_of-IsDefined (a ∷ xs) = (
      rw (run_one_worker_first (id a) (stream a))
          (lowest-IsDefined laws none (onsets_of (stream a)) tt (defined a)),
      first_of-IsDefined xs,
    )

    all_first :
        (xs : List A)
        → IsLowest (lowest none (map first_of xs)) (together (λ a. onsets_of (stream a)) xs)
    all_first xs =
        IsLowest-together laws first_of (λ a. onsets_of (stream a)) first_of-IsLowest
          (lowest none (map first_of xs)) xs
          (lowest-none laws (map first_of xs) (first_of-IsDefined xs))

  -- A run over some workers, whatever else the coordinator does meanwhile and however each worker's
  -- stream goes, if no onset in them is NaN: the rate at which the run is first limited is the lowest
  -- onset in the partials of all workers, and there is none just when no partial has one.
  pub conduct-IsLowest :
      (now token : ℕ)
      (stream : String × (Bool × String) × Assignment F → Option (List (WorkerEvent F)))
      (other : CoordinatorState → CoordinatorState) (spec : DispatchSpec F) (workers : List Worker)
      (state : CoordinatorState)
      → ((task : _) → All IsDefined (onsets_of (stream task)))
      → let per_worker_rps = f.div spec.target_rps (f.of_u64 (length workers)) in
        let epoch = if spec.epoch_unix_us == 0 then now else spec.epoch_unix_us in
        let meanwhile : Meanwhile F = record {
          results = map (λ task. some (run_one_worker task.0 (stream task)).0);
          state = other;
        } in
        IsLowest (conduct now token meanwhile spec workers state).1.first_429_rps (
          together
            (λ task. onsets_of (stream task))
            (assignments spec per_worker_rps epoch workers))
  unfolding conduct empty_summary
  conduct-IsLowest now token stream other spec workers state defined =
      let per_worker_rps = f.div spec.target_rps (f.of_u64 (length workers)) in
      let epoch = if spec.epoch_unix_us == 0 then now else spec.epoch_unix_us in
      let tasks = assignments spec per_worker_rps epoch workers in
      let handle : RunHandle = record {
        worker_addrs = map (λ w. w.address) workers;
        cancel = token;
      } in
      let after = other (register_run spec.run_id handle state) in
      let s = empty_summary (length workers) in
      let summary =
        add_workers (map (λ task. some (run_one_worker task.0 (stream task)).0) tasks) s in
      let first =
        account_lost_first (any (λ t. t == token) after.cancelled) per_worker_rps spec.target_rps
          summary
        ∙ add_workers_first (λ task. (run_one_worker task.0 (stream task)).0) tasks s in
      rw first (all_first (λ task. task.0) stream defined tasks)
