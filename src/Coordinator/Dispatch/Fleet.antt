-- ===== src/Coordinator/Dispatch/Fleet.antt =====
-- From the counters of a worker to the summary of its stream, and a whole dispatch
-- (coordinator/dispatch.rs).
use correctness_bench.Common.{
  ℕ, ◌+◌, ◌%◌, ◌<◌, ◌≡◌, refl, Bool, true, false, inl, inr, some, List, [], ◌∷◌, map, String, arith,
  u64_mod, u64_add, is_empty, ◌⊎◌, if◌then◌else◌, lookup-remove, str_eq_iff,
}
use correctness_bench.Float.{Float}
use correctness_bench.Hist.Library.{Hdr}
use correctness_bench.Proto.{Partial}
use correctness_bench.Worker.Connection.{Shared}
use correctness_bench.Worker.Ticks.{Tick, Bucket, nothing_seen, ticks}
use correctness_bench.Worker.Ticks.Deltas as Deltas
use correctness_bench.Worker.Ticks.Deltas.{
  Column, Rising, last_seen, sum_ticks, sum_buckets, bucket_entry, ticks_sums,
}
use correctness_bench.WorkerNode.{bucket_from, partial_from_tick, empty_final_partial}
use correctness_bench.WorkerNode.Slices.{partials_from, events}
use correctness_bench.Coordinator.{
  Worker, RunHandle, CoordinatorState, register_run, list_workers, deregister_run, is_run_active,
}
use correctness_bench.Coordinator.Dispatch.{
  WorkerSummary, DispatchSummary, DispatchSpec, DispatchError, Meanwhile, count_buckets,
  count_partial, count_events, run_one_worker, no_summary, conduct, dispatch_with_ticks,
}
use correctness_bench.Coordinator.Dispatch.Tallies.{entry, tally, sum_entries, tally-count_buckets}

module _ {F : Type 0} ⦃f : Float F⦄ where
  sum_entries-buckets :
      (k : Column) (bs : List (Bucket F)) → sum_entries k (map bucket_from bs) ≡ sum_buckets k bs
  unfolding bucket_from
  sum_entries-buckets k [] = refl
  sum_entries-buckets k (b ∷ bs) = let same = one k in omega (arith, same, sum_entries-buckets k bs)
    where
      one : (k : Column) → entry k (bucket_from b) ≡ bucket_entry k b
      one k = ground arith

  tally-count_partial :
      (k : Column) (p : Partial F) (s : WorkerSummary F)
      → tally k (count_partial p s) ≡ tally k (count_buckets p.buckets s)
  unfolding count_partial
  tally-count_partial k p s = ground arith

  tally-count_tick :
      (k : Column) (worker_id : String) (n : ℕ) (t : Tick F) (s : WorkerSummary F)
      → tally k s < u64_mod
      → tally k (count_partial (partial_from_tick worker_id n false t) s)
        ≡ (tally k s + sum_buckets k t.buckets) % u64_mod
  unfolding partial_from_tick
  tally-count_tick k worker_id n t s lt =
      let p = partial_from_tick worker_id n false t in
      omega (
        arith,
        tally-count_partial k p s,
        tally-count_buckets k (map bucket_from t.buckets) s lt,
        sum_entries-buckets k t.buckets,
      )

  tally-count_final :
      (k : Column) (worker_id : String) (n : ℕ) (s : WorkerSummary F)
      → tally k (count_partial (empty_final_partial worker_id n) s) ≡ tally k s
  unfolding count_partial count_buckets empty_final_partial
  tally-count_final k worker_id n s = ground arith

  count-partials_from :
      (k : Column) (worker_id : String) (n : ℕ) (ts : List (Tick F)) (s : WorkerSummary F)
      → tally k s < u64_mod
      → tally k (count_events worker_id (partials_from worker_id n ts) s).0
        ≡ (tally k s + sum_ticks k ts) % u64_mod
  unfolding count_events partials_from
  count-partials_from k worker_id n [] s lt =
      omega (arith, tally-count_final k worker_id (u64_add n 1) s)
  count-partials_from k worker_id n (t ∷ ts) s lt =
      let step = tally-count_tick k worker_id (u64_add n 1) t s lt in
      let p = partial_from_tick worker_id (u64_add n 1) false t in
      let rest =
        count-partials_from k worker_id (u64_add n 1) ts (count_partial p s)
          (omega (arith, step)) in
      omega (arith, step, rest)

  finished-partials_from :
      (worker_id : String) (n : ℕ) (ts : List (Tick F)) (s : WorkerSummary F)
      → (count_events worker_id (partials_from worker_id n ts) s).0.finished ≡ true
  unfolding count_events partials_from count_partial empty_final_partial
  finished-partials_from worker_id n [] s = ground arith
  finished-partials_from worker_id n (t ∷ ts) s =
      finished-partials_from worker_id (u64_add n 1) ts
        (count_partial (partial_from_tick worker_id (u64_add n 1) false t) s)

tally-no_summary : (F : Type 0) (k : Column) → tally {F = F} k no_summary ≡ 0
unfolding no_summary
tally-no_summary F k = ground arith

module _ {F H : Type 0} ⦃f : Float F⦄ ⦃h : Hdr H⦄ where
  -- For a worker whose counters never fall, the coordinator's summary of its complete stream is marked
  -- finished, and each of its seven counts is the worker's counter as its last tick saw it, modulo
  -- 2 ^ 64.
  pub run_one_worker-events :
      (k : Column) (worker_id : String) (start epoch : ℕ) (shs : List (Shared F H))
      → Rising k nothing_seen shs
      → let s = (run_one_worker worker_id (some (events worker_id start epoch (ticks shs)))).0 in
        (s.finished ≡ true) × (tally k s ≡ Deltas.entry k (last_seen nothing_seen shs) % u64_mod)
  unfolding run_one_worker count_events events
  run_one_worker-events k worker_id start epoch shs r =
      let none_yet = tally-no_summary F k in
      let sums =
        count-partials_from k worker_id 0 (ticks shs) no_summary (omega (arith, none_yet)) in
      (
        finished-partials_from worker_id 0 (ticks shs) no_summary,
        omega (arith, none_yet, sums, ticks_sums k shs r),
      )

abbrev pub refused : {A : Type 0} → DispatchError ⊎ A → Bool
refused (inl e) = true
refused (inr s) = false

module _ {F : Type 0} ⦃f : Float F⦄ where
  pub conduct_over :
      (now token : ℕ) (meanwhile : Meanwhile F) (spec : DispatchSpec F) (workers : List Worker)
      (state : CoordinatorState)
      → is_run_active spec.run_id (conduct now token meanwhile spec workers state).0 ≡ false
  unfolding conduct is_run_active deregister_run register_run
  conduct_over now token meanwhile spec workers state =
      let handle : RunHandle = record {
        worker_addrs = map (λ w. w.address) workers;
        cancel = token;
      } in
      let after = meanwhile.state (register_run spec.run_id handle state) in
      ground (
        arith,
        lookup-remove spec.run_id spec.run_id after.runs,
        str_eq_iff spec.run_id spec.run_id,
      )

  -- A dispatch fails just when no worker is registered, and then leaves the runs in flight as they
  -- were. Any other dispatch leaves its run out of flight, whatever happens meanwhile and whatever the
  -- workers return.
  pub dispatch_with_ticks-is_run_active :
      (now token : ℕ) (meanwhile : Meanwhile F) (spec : DispatchSpec F) (state : CoordinatorState)
      → (refused (dispatch_with_ticks now token meanwhile spec state).1
          ≡ is_empty (list_workers state))
        × (is_run_active spec.run_id (dispatch_with_ticks now token meanwhile spec state).0
            ≡ (if is_empty (list_workers state) then is_run_active spec.run_id state else false))
  unfolding dispatch_with_ticks
  dispatch_with_ticks-is_run_active now token meanwhile spec state = by_workers (list_workers state)
    where
      by_workers :
          (ws : List Worker)
          → let r : CoordinatorState × (DispatchError ⊎ DispatchSummary F) = elim ws [
            | [] ↦ (state, inl DispatchError.no_workers)
            | (w ∷ ws) ↦
                let (after, summary) = conduct now token meanwhile spec (w ∷ ws) state in
                (after, inr summary)
          ] in
            (refused r.1 ≡ is_empty ws)
            × (is_run_active spec.run_id r.0
                ≡ (if is_empty ws then is_run_active spec.run_id state else false))
      by_workers [] = (refl, refl)
      by_workers (w ∷ ws) = (refl, conduct_over now token meanwhile spec (w ∷ ws) state)
