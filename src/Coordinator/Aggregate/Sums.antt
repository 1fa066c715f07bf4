-- ===== src/Coordinator/Aggregate/Sums.antt =====
-- What a tick of the fleet adds up (coordinator/dispatch.rs).
use correctness_bench.Common.{
  ℕ, ◌+◌, ◌%◌, ◌<◌, ◌≡◌, refl, List, [], ◌∷◌, ◌++◌, map, String, arith, u64_mod, u64_add, insert,
  ◌==◌, if◌then◌else◌, if_cases, length,
}
use correctness_bench.Float.{Float}
use correctness_bench.Hist.Library.{Hdr}
use correctness_bench.Proto.{RpsBucket, Partial}
use correctness_bench.Worker.Ticks.Deltas.{Column}
use correctness_bench.Coordinator.Dispatch.Tallies.{sum_entries}
use correctness_bench.Coordinator.Dispatch.Tallies as Tallies
use correctness_bench.Coordinator.Aggregate.{
  AggThisTick, AggBucket, AggregatedTick, Cumulative, Aggregator, Gathered, Values, nothing_yet,
  add_bucket, add_buckets, accrue, gather_start, gather_partial, gather, tick_of, aggregator_start,
  aggregate_tick, deliver, hold, waiting_for, receive, aggregate_loop,
}

abbrev pub entry : Column → AggThisTick → ℕ
entry Column.total t = t.total
entry Column.pass t = t.pass
entry Column.fail_status t = t.fail_status
entry Column.fail_latency t = t.fail_latency
entry Column.fail_size t = t.fail_size
entry Column.fail_content_type t = t.fail_content_type
entry Column.rate_limited t = t.rate_limited

module _ {F : Type 0} where
  abbrev pub bucket_entry : Column → AggBucket F → ℕ
  bucket_entry Column.total b = b.total
  bucket_entry Column.pass b = b.pass
  bucket_entry Column.fail_status b = b.fail_status
  bucket_entry Column.fail_latency b = b.fail_latency
  bucket_entry Column.fail_size b = b.fail_size
  bucket_entry Column.fail_content_type b = b.fail_content_type
  bucket_entry Column.rate_limited b = b.rate_limited

  abbrev pub bucket_entries : Column → List (AggBucket F) → List ℕ
  bucket_entries k bs = map (λ b. bucket_entry k b) bs

  -- a count over all partials
  abbrev pub sum_partials : Column → List (Partial F) → ℕ
  sum_partials k [] = 0
  sum_partials k (p ∷ ps) = sum_entries k p.buckets + sum_partials k ps

  entry-add_bucket :
      (k : Column) (b : RpsBucket F) (t : AggThisTick)
      → entry k (add_bucket b t) ≡ u64_add (entry k t) (Tallies.entry k b)
  unfolding add_bucket
  entry-add_bucket k b t = ground arith

  entry-add_buckets :
      (k : Column) (bs : List (RpsBucket F)) (t : AggThisTick)
      → entry k t < u64_mod
      → entry k (add_buckets bs t) ≡ (entry k t + sum_entries k bs) % u64_mod
  unfolding add_buckets
  entry-add_buckets k [] t lt = omega arith
  entry-add_buckets k (b ∷ bs) t lt =
      let step = entry-add_bucket k b t in
      omega (arith, step, entry-add_buckets k bs (add_bucket b t) (omega (arith, step)))

nothing_entry : (k : Column) → entry k nothing_yet ≡ 0
unfolding nothing_yet
nothing_entry k = ground arith

module _ {F H : Type 0} ⦃f : Float F⦄ ⦃h : Hdr H⦄ where
  entry-gather_partial :
      (k : Column) (p : Partial F) (g : Gathered F H)
      → entry k (gather_partial p g).this_tick ≡ entry k (add_buckets p.buckets g.this_tick)
  unfolding gather_partial
  entry-gather_partial k p g = refl

  entry-gather :
      (k : Column) (ps : List (Partial F)) (g : Gathered F H)
      → entry k g.this_tick < u64_mod
      → entry k (gather ps g).this_tick ≡ (entry k g.this_tick + sum_partials k ps) % u64_mod
  unfolding gather
  entry-gather k [] g lt = omega arith
  entry-gather k (p ∷ ps) g lt =
      let same = entry-gather_partial k p g in
      let step = entry-add_buckets k p.buckets g.this_tick lt in
      omega (arith, same, step, entry-gather k ps (gather_partial p g) (omega (arith, same, step)))

  tick_of-entry :
      (k : Column) (n : ℕ) (g : Gathered F H) (cum : Cumulative)
      → bucket_entries k (tick_of n g cum).buckets ≡ entry k g.this_tick ∷ []
  unfolding tick_of
  tick_of-entry k n g cum = ground arith

module _ {F : Type 0} (H : Type 0) ⦃f : Float F⦄ ⦃h : Hdr H⦄ where
  -- Each of the seven counts of a tick of the fleet is the sum of that count over all buckets of all
  -- its partials, modulo 2 ^ 64, and so the same in whatever order the partials come; its one bucket
  -- has the same counts.
  pub aggregate_tick_sums :
      (k : Column) (n : ℕ) (ps : List (Partial F)) (cum : Cumulative)
      → (entry k (aggregate_tick H n ps cum).0.this_tick ≡ sum_partials k ps % u64_mod)
        × (bucket_entries k (aggregate_tick H n ps cum).0.buckets
            ≡ entry k (aggregate_tick H n ps cum).0.this_tick ∷ [])
  unfolding aggregate_tick gather_start tick_of
  aggregate_tick_sums k n ps cum =
      let none_yet = nothing_entry k in
      let start : Gathered F H = gather_start in
      let g : Gathered F H = gather ps start in
      (
        omega (arith, none_yet, entry-gather k ps start (omega (arith, none_yet))),
        tick_of-entry k n g (accrue g.this_tick cum),
      )

  -- Each tick carries on the running totals from the ones before it.
  abbrev pub Running : Cumulative → List (AggregatedTick F) → Type 0
  Running cum [] = Unit
  Running cum (t ∷ ts) =
      (t.completed_total ≡ u64_add cum.completed t.this_tick.total)
      × (t.pass_total ≡ u64_add cum.pass t.this_tick.pass)
      × (t.fail_status_total ≡ u64_add cum.fail_status t.this_tick.fail_status)
      × Running
          (record {
            completed = t.completed_total;
            pass = t.pass_total;
            fail_status = t.fail_status_total;
          })
          ts

  -- what `receive` hands on, whichever branch it takes
  abbrev Carries : Cumulative → Aggregator F × List (AggregatedTick F) → Type 0
  Carries cum r = (ts : List (AggregatedTick F)) → Running r.0.cum ts → Running cum (r.1 ++ ts)

  receive-Carries :
      (values : Values F) (num : ℕ) (id : String) (p : Partial F) (a : Aggregator F)
      → Carries a.cum (receive H values num id p a)
  unfolding receive deliver hold aggregate_tick tick_of accrue
  receive-Carries values num id p a =
      let entry = insert id p (waiting_for p.tick a.per_tick) in
      let out = deliver H values p.tick entry a in
      let kept = hold H p.tick entry a in
      let full = length entry == num in
      if_cases (Carries a.cum) p.final (a, []) (if full then out else kept) (λ e ts run. run)
        (λ e.
          if_cases (Carries a.cum) full out kept (λ e ts run. (refl, refl, refl, run))
            (λ e ts run. run))

  loop-Running :
      (values : Values F) (num : ℕ) (ms : List (String × Partial F)) (a : Aggregator F)
      → Running a.cum (aggregate_loop H values num ms a)
  unfolding aggregate_loop
  loop-Running values num [] a = tt
  loop-Running values num ((id, p) ∷ ms) a =
      receive-Carries values num id p a _
        (loop-Running values num ms (receive H values num id p a).0)

  -- Whatever partials arrive, with gaps, repeats and interleaved seconds, the ticks that the loop sends
  -- have running totals, in whatever order the maps give their values: each tick's totals are those of the tick before it, or zero for the first, plus
  -- its own counts, modulo 2 ^ 64.
  pub aggregate_loop-Running :
      (values : Values F) (num : ℕ) (ms : List (String × Partial F))
      → Running
          (record { completed = 0; pass = 0; fail_status = 0 })
          (aggregate_loop H values num ms aggregator_start)
  unfolding aggregator_start
  aggregate_loop-Running values num ms = loop-Running values num ms aggregator_start
