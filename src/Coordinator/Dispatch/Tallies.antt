-- ===== src/Coordinator/Dispatch/Tallies.antt =====
-- What the counts of a dispatch add up to (coordinator/dispatch.rs).
use correctness_bench.Common.{
  ℕ, suc, ◌+◌, ◌-◌, ◌%◌, ◌<◌, ◌≤◌, ◌≡◌, Bool, Option, none, some, List, [], ◌∷◌, arith, u64_mod,
  u64_add, length, if◌then◌else◌, ltb,
}
use correctness_bench.Float.{Float}
use correctness_bench.Proto.{RpsBucket}
use correctness_bench.Worker.Ticks.Deltas.{Column}
use correctness_bench.Coordinator.Dispatch.{
  WorkerSummary, DispatchSummary, count_bucket, count_buckets, add_worker, add_workers,
  empty_summary, account_lost,
}

module _ {F : Type 0} where
  abbrev pub entry : Column → RpsBucket F → ℕ
  entry Column.total b = b.total
  entry Column.pass b = b.pass
  entry Column.fail_status b = b.fail_status
  entry Column.fail_latency b = b.fail_latency
  entry Column.fail_size b = b.fail_size
  entry Column.fail_content_type b = b.fail_content_type
  entry Column.rate_limited b = b.rate_limited

  abbrev pub tally : Column → WorkerSummary F → ℕ
  tally Column.total s = s.completed
  tally Column.pass s = s.pass
  tally Column.fail_status s = s.fail_status
  tally Column.fail_latency s = s.fail_latency
  tally Column.fail_size s = s.fail_size
  tally Column.fail_content_type s = s.fail_content_type
  tally Column.rate_limited s = s.rate_limited

  abbrev pub fleet_total : Column → DispatchSummary F → ℕ
  fleet_total Column.total s = s.total_completed
  fleet_total Column.pass s = s.total_pass
  fleet_total Column.fail_status s = s.total_fail_status
  fleet_total Column.fail_latency s = s.total_fail_latency
  fleet_total Column.fail_size s = s.total_fail_size
  fleet_total Column.fail_content_type s = s.total_fail_content_type
  fleet_total Column.rate_limited s = s.total_rate_limited

  abbrev pub sum_entries : Column → List (RpsBucket F) → ℕ
  sum_entries k [] = 0
  sum_entries k (b ∷ bs) = entry k b + sum_entries k bs

  -- the workers that reported
  abbrev pub sum_tallies : Column → List (Option (WorkerSummary F)) → ℕ
  sum_tallies k [] = 0
  sum_tallies k (none ∷ rest) = sum_tallies k rest
  sum_tallies k (some ws ∷ rest) = tally k ws + sum_tallies k rest

  abbrev pub finishers : List (Option (WorkerSummary F)) → ℕ
  finishers [] = 0
  finishers (none ∷ rest) = finishers rest
  finishers (some ws ∷ rest) = if ws.finished then suc (finishers rest) else finishers rest

  finishers-le-length :
      (results : List (Option (WorkerSummary F))) → finishers results ≤ length results
  finishers-le-length [] = omega arith
  finishers-le-length (none ∷ rest) = omega (arith, finishers-le-length rest)
  finishers-le-length (some ws ∷ rest) = ground (arith, finishers-le-length rest)

fleet_total-empty : (F : Type 0) (k : Column) (n : ℕ) → fleet_total k (empty_summary {F = F} n) ≡ 0
unfolding empty_summary
fleet_total-empty F k n = ground arith

module _ {F : Type 0} ⦃f : Float F⦄ where
  pub tally-count_bucket :
      (k : Column) (b : RpsBucket F) (s : WorkerSummary F)
      → tally k (count_bucket b s) ≡ u64_add (tally k s) (entry k b)
  unfolding count_bucket
  tally-count_bucket k b s = ground arith

  pub tally-count_buckets :
      (k : Column) (bs : List (RpsBucket F)) (s : WorkerSummary F)
      → tally k s < u64_mod
      → tally k (count_buckets bs s) ≡ (tally k s + sum_entries k bs) % u64_mod
  unfolding count_buckets
  tally-count_buckets k [] s lt = omega arith
  tally-count_buckets k (b ∷ bs) s lt =
      let step = tally-count_bucket k b s in
      omega (arith, step, tally-count_buckets k bs (count_bucket b s) (omega (arith, step)))

  fleet_total-add_worker :
      (k : Column) (ws : WorkerSummary F) (s : DispatchSummary F)
      → fleet_total k (add_worker ws s) ≡ u64_add (fleet_total k s) (tally k ws)
  unfolding add_worker
  fleet_total-add_worker k ws s = ground arith

  fleet_total-add_workers :
      (k : Column) (results : List (Option (WorkerSummary F))) (s : DispatchSummary F)
      → fleet_total k s < u64_mod
      → fleet_total k (add_workers results s) ≡ (fleet_total k s + sum_tallies k results) % u64_mod
  unfolding add_workers
  fleet_total-add_workers k [] s lt = omega arith
  fleet_total-add_workers k (none ∷ rest) s lt = fleet_total-add_workers k rest s lt
  fleet_total-add_workers k (some ws ∷ rest) s lt =
      let step = fleet_total-add_worker k ws s in
      omega (arith, step, fleet_total-add_workers k rest (add_worker ws s) (omega (arith, step)))

  finished-add_workers :
      (results : List (Option (WorkerSummary F))) (s : DispatchSummary F)
      → ((add_workers results s).workers_finished ≡ s.workers_finished + finishers results)
        × ((add_workers results s).workers_dispatched ≡ s.workers_dispatched)
        × ((add_workers results s).workers_lost ≡ s.workers_lost)
        × ((add_workers results s).warnings ≡ s.warnings)
        × ((add_workers results s).aborted ≡ s.aborted)
  unfolding add_workers add_worker
  finished-add_workers [] s = ground arith
  finished-add_workers (none ∷ rest) s = finished-add_workers rest s
  finished-add_workers (some ws ∷ rest) s =
      ground (arith, finished-add_workers rest (add_worker ws s))

  account_lost-fleet_total :
      (k : Column) (aborted : Bool) (rps target : F) (s : DispatchSummary F)
      → fleet_total k (account_lost aborted rps target s) ≡ fleet_total k s
  unfolding account_lost
  account_lost-fleet_total k aborted rps target s = ground arith

  -- Each of the seven totals of a run is the sum of that count over the workers that reported, modulo
  -- 2 ^ 64, aborted or not.
  pub fleet_total_sums :
      (k : Column) (aborted : Bool) (rps target : F) (results : List (Option (WorkerSummary F)))
      → fleet_total k
          (account_lost aborted rps target (add_workers results (empty_summary (length results))))
        ≡ sum_tallies k results % u64_mod
  fleet_total_sums k aborted rps target results =
      let none_yet = fleet_total-empty F k (length results) in
      omega (
        arith,
        none_yet,
        account_lost-fleet_total k aborted rps target
            (add_workers results (empty_summary (length results))),
        fleet_total-add_workers k results (empty_summary (length results))
            (omega (arith, none_yet)),
      )

  -- In a run that was not aborted, with one result per worker dispatched, every worker is counted as
  -- finished or as lost, and there is one warning just when some worker is lost. An aborted run counts
  -- none as lost and has no warning.
  pub account_lost_all :
      (aborted : Bool) (rps target : F) (results : List (Option (WorkerSummary F)))
      → let s =
          account_lost aborted rps target (add_workers results (empty_summary (length results))) in
        (s.workers_finished ≡ finishers results)
        × (s.workers_lost ≡ (if aborted then 0 else length results - finishers results))
        × (s.workers_dispatched ≡ length results)
        × (length s.warnings ≡ (if ltb 0 s.workers_lost then 1 else 0))
        × (s.aborted ≡ aborted)
  unfolding account_lost empty_summary
  account_lost_all aborted rps target results =
      ground (arith, finished-add_workers results (empty_summary (length results)))
