-- ===== src/Coordinator/Aggregate/Complete.antt =====
-- When the aggregator sends a tick (coordinator/dispatch.rs).
use correctness_bench.Common.{
  ℕ, ◌+◌, ◌<◌, ◌≤◌, ◌≡◌, ap, refl, false, none, List, [], ◌∷◌, ◌++◌, map, String, arith, length,
  length-append, ◌∙◌, ◌%◌, u64_mod, ◌==◌, if◌then◌else◌, lookup, insert, Bool-cases, inl, inr,
}
use mathlib.Core.List.{Perm}
use correctness_bench.Float.{Float}
use correctness_bench.Hist.Library.{Hdr}
use correctness_bench.Proto.{Partial}
use correctness_bench.Worker.Ticks.Deltas.{Column}
use correctness_bench.Coordinator.Dispatch.Order.{same}
use correctness_bench.Coordinator.Aggregate.Sums as Sums
use correctness_bench.Coordinator.Aggregate.Sums.{sum_partials, aggregate_tick_sums}
use correctness_bench.Coordinator.Aggregate.{
  AggregatedTick, Cumulative, Aggregator, aggregator_start, Values, waiting_for, tick_of,
  aggregate_tick, deliver, hold, receive, aggregate_loop,
}

module _ {F : Type 0} where
  abbrev pub of_all : List (String × Partial F) → List (Partial F)
  of_all = map (λ (id, p). p)

  -- These messages are partials of second `n`, none of them final, each from a worker that is not
  -- among the earlier ones.
  abbrev pub Second : ℕ → List (String × Partial F) → List (String × Partial F) → Type 0
  Second n entry [] = Unit
  Second n entry ((id, p) ∷ ms) =
      (p.tick ≡ n)
      × (p.final ≡ false)
      × (lookup id entry ≡ none)
      × Second n (entry ++ (id, p) ∷ []) ms

  insert_fresh :
      (id : String) (p : Partial F) (entry : List (String × Partial F))
      → lookup id entry ≡ none
      → insert id p entry ≡ entry ++ (id, p) ∷ []
  unfolding lookup insert
  insert_fresh id p [] e = refl
  insert_fresh id p ((j, q) ∷ entry) e = ground (arith, insert_fresh id p entry)

  append_assoc :
      (entry : List (String × Partial F)) (m : String × Partial F) (ms : List (String × Partial F))
      → (entry ++ m ∷ []) ++ ms ≡ entry ++ m ∷ ms
  append_assoc [] m ms = refl
  append_assoc (x ∷ entry) m ms = ap (λ l. x ∷ l) (append_assoc entry m ms)

  none_left : (ms : List (String × Partial F)) → length ms ≤ 0 → ms ≡ []
  none_left [] le = refl
  none_left (m ∷ ms) le = ground arith

  append_nil : (entry : List (String × Partial F)) → entry ++ [] ≡ entry
  append_nil [] = refl
  append_nil (x ∷ entry) = ap (λ l. x ∷ l) (append_nil entry)

module _ {F : Type 0} where
  sum_partials-Perm :
      (k : Column) {ps qs : List (Partial F)} → Perm ps qs → sum_partials k ps ≡ sum_partials k qs
  sum_partials-Perm k =
      same (sum_partials k) (λ p ps qs e. omega (arith, e)) (λ p q ps. omega arith)

module _ {F : Type 0} (H : Type 0) ⦃f : Float F⦄ ⦃h : Hdr H⦄ (values : Values F) where
  abbrev pub tick_over : ℕ → List (String × Partial F) → Cumulative → List (AggregatedTick F)
  tick_over n entry cum = (aggregate_tick H n (values entry) cum).0 ∷ []

  receive_last :
      (num n : ℕ) (id : String) (p : Partial F) (entry : List (String × Partial F))
      (a : Aggregator F)
      → p.tick ≡ n
      → p.final ≡ false
      → lookup id entry ≡ none
      → waiting_for n a.per_tick ≡ entry
      → length entry + 1 ≡ num
      → (receive H values num id p a).1 ≡ tick_over n (entry ++ (id, p) ∷ []) a.cum
  unfolding receive deliver hold
  receive_last num n id p entry a t l u w e =
      ground (arith, insert_fresh id p entry u, length-append entry ((id, p) ∷ []))

  receive_early :
      (num n : ℕ) (id : String) (p : Partial F) (entry : List (String × Partial F))
      (a : Aggregator F)
      → p.tick ≡ n
      → p.final ≡ false
      → lookup id entry ≡ none
      → waiting_for n a.per_tick ≡ entry
      → length entry + 1 < num
      → ((receive H values num id p a).1 ≡ [])
        × ((receive H values num id p a).0.cum ≡ a.cum)
        × (waiting_for n (receive H values num id p a).0.per_tick ≡ entry ++ (id, p) ∷ [])
  unfolding receive deliver hold waiting_for
  receive_early num n id p entry a t l u w e =
      ground (arith, insert_fresh id p entry u, length-append entry ((id, p) ∷ []))

  loop-Second :
      (num n : ℕ) (ms entry : List (String × Partial F)) (a : Aggregator F)
      → Second n entry ms
      → waiting_for n a.per_tick ≡ entry
      → length entry < num
      → length entry + length ms ≤ num
      → aggregate_loop H values num ms a
        ≡ (if length entry + length ms == num then tick_over n (entry ++ ms) a.cum else [])
  unfolding aggregate_loop
  loop-Second num n [] entry a s w lt le = ground arith
  loop-Second num n ((id, p) ∷ ms) entry a (t, l, u, s) w lt le =
      elim (Bool-cases (length entry + 1 == num)) [
        | inl e ↦
            let last = receive_last num n id p entry a t l u w (ground arith) in
            let over = none_left ms (ground arith) in ground (arith, last, over)
        | inr e ↦
            let entry' = entry ++ (id, p) ∷ [] in
            let (nothing, cum, waits) = receive_early num n id p entry a t l u w (ground arith) in
            let longer = length-append entry ((id, p) ∷ []) in
            let rest =
              loop-Second num n ms entry' (receive H values num id p a).0 s waits (ground arith)
                (ground arith) in
            ground (arith, nothing, cum, rest, append_assoc entry (id, p) ms)
      ]

  loop_once :
      (num n : ℕ) (ms : List (String × Partial F))
      → Second n [] ms
      → 1 ≤ num
      → length ms ≤ num
      → aggregate_loop H values num ms aggregator_start ≡ (
          if length ms == num
          then tick_over n ms (record { completed = 0; pass = 0; fail_status = 0 })
          else [])
  unfolding aggregator_start waiting_for
  loop_once num n ms s pos le =
      ground (
        arith,
        loop-Second num n ms [] (aggregator_start {F = F}) s refl (omega arith) (omega arith),
      )

  -- Of one second, each message from another worker and none of them final, with at most as many
  -- messages as workers: the fleet's tick is sent, once, when the last worker has reported; before,
  -- nothing is sent. In whatever order the hash map gives the partials, the tick is that of this second,
  -- and each of its counts is the sum of that count over the partials of all messages, modulo 2 ^ 64.
  pub aggregate_loop-Second :
      (k : Column) (num n : ℕ) (ms : List (String × Partial F))
      → Perm (values ms) (of_all ms)
      → Second n [] ms
      → 1 ≤ num
      → length ms ≤ num
      → let ticks = aggregate_loop H values num ms aggregator_start in
        let full = length ms == num in
        (map (λ t. t.elapsed_s) ticks ≡ (if full then n ∷ [] else []))
        × (map (λ t. Sums.entry k t.this_tick) ticks
            ≡ (if full then sum_partials k (of_all ms) % u64_mod ∷ [] else []))
  unfolding aggregate_tick tick_of
  aggregate_loop-Second k num n ms perm s pos le =
      let zero : Cumulative = record { completed = 0; pass = 0; fail_status = 0 } in
      let once = loop_once num n ms s pos le in
      let sums = (aggregate_tick_sums H k n (values ms) zero).0 in
      let total = sums ∙ ap (λ sum. sum % u64_mod) (sum_partials-Perm k perm) in
      elim (Bool-cases (length ms == num)) [
        | inl full ↦ rw (once, full) (refl, ap (λ sum. sum ∷ []) total)
        | inr more ↦ rw (once, more) (refl, refl)
      ]
