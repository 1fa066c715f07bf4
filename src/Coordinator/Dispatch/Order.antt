-- ===== src/Coordinator/Dispatch/Order.antt =====
-- The order in which a dispatch takes the workers, which is that of a hash map and so any at all
-- (coordinator/dispatch.rs).
use correctness_bench.Common.{
  ℕ, suc, ◌%◌, ◌≡◌, refl, sym, ap, ◌∙◌, ◌==◌, Bool, true, Option, none, some, List, ◌∷◌, map,
  String, arith, length, length-map, u64_mod, if◌then◌else◌,
}
use mathlib.Core.Logic.{∥∥₁_elim}
use mathlib.Core.List.{Perm, Permᴰ}
use mathlib.Core.List.Perm
use native.Mathlib.Nat.{ℕ_set}
use correctness_bench.Float.{Float}
use correctness_bench.Proto.{Assignment}
use correctness_bench.Worker.Ticks.Deltas.{Column}
use correctness_bench.Coordinator.{Worker, CoordinatorState}
use correctness_bench.Coordinator.History.{Event, replay}
use correctness_bench.Coordinator.History.Runs.{leave}
use correctness_bench.Coordinator.Dispatch.{
  WorkerSummary, DispatchSpec, Meanwhile, assignments, conduct, add_workers, empty_summary,
  account_lost,
}
use correctness_bench.Coordinator.Dispatch.Tallies.{
  fleet_total, sum_tallies, finishers, fleet_total_sums, account_lost_all,
}
use correctness_bench.Coordinator.Dispatch.Abort.{Fresh, length-assignments, conduct-replay}

-- A number that a list gives alike in either order of two neighbours is the same for any order.
module _ {A : Type 0} (measure : List A → ℕ)
    (grow : (x : A) (xs ys : List A)
      → measure xs ≡ measure ys
      → measure (x ∷ xs) ≡ measure (x ∷ ys))
    (exchange : (x y : A) (xs : List A) → measure (x ∷ y ∷ xs) ≡ measure (y ∷ x ∷ xs)) where
  same_in : {xs ys : List A} → Permᴰ xs ys → measure xs ≡ measure ys
  same_in Permᴰ.nil = refl
  same_in (Permᴰ.cons {a} {b} {l₁} {l₂} e p) =
      grow a l₁ l₂ (same_in p) ∙ ap (λ x. measure (x ∷ l₂)) e
  same_in (Permᴰ.swap {a} {b} {a'} {b'} {l} e e') =
      exchange a b l ∙ ap (λ x. measure (x ∷ a ∷ l)) e' ∙ ap (λ y. measure (a' ∷ y ∷ l)) e
  same_in (Permᴰ.trans p q) = same_in p ∙ same_in q

  pub same : {xs ys : List A} → Perm xs ys → measure xs ≡ measure ys
  same p = ∥∥₁_elim p (ℕ_set _ _) same_in

length-Perm : {A : Type 0} {xs ys : List A} → Perm xs ys → length xs ≡ length ys
length-Perm = same length (λ x xs ys e. ap suc e) (λ x y xs. refl)

module _ {F : Type 0} where
  sum_tallies-Perm :
      (k : Column) {xs ys : List (Option (WorkerSummary F))}
      → Perm xs ys
      → sum_tallies k xs ≡ sum_tallies k ys
  sum_tallies-Perm k = same (sum_tallies k) grow exchange
    where
      grow :
          (x : Option (WorkerSummary F)) (xs ys : List (Option (WorkerSummary F)))
          → sum_tallies k xs ≡ sum_tallies k ys
          → sum_tallies k (x ∷ xs) ≡ sum_tallies k (x ∷ ys)
      grow none xs ys e = e
      grow (some w) xs ys e = omega (arith, e)

      exchange :
          (x y : Option (WorkerSummary F)) (xs : List (Option (WorkerSummary F)))
          → sum_tallies k (x ∷ y ∷ xs) ≡ sum_tallies k (y ∷ x ∷ xs)
      exchange none none xs = refl
      exchange none (some w) xs = refl
      exchange (some v) none xs = refl
      exchange (some v) (some w) xs = omega arith

  finishers-Perm :
      {xs ys : List (Option (WorkerSummary F))} → Perm xs ys → finishers xs ≡ finishers ys
  finishers-Perm = same finishers grow exchange
    where
      grow :
          (x : Option (WorkerSummary F)) (xs ys : List (Option (WorkerSummary F)))
          → finishers xs ≡ finishers ys
          → finishers (x ∷ xs) ≡ finishers (x ∷ ys)
      grow none xs ys e = e
      grow (some w) xs ys e = ground (arith, e)

      exchange :
          (x y : Option (WorkerSummary F)) (xs : List (Option (WorkerSummary F)))
          → finishers (x ∷ y ∷ xs) ≡ finishers (y ∷ x ∷ xs)
      exchange none none xs = refl
      exchange none (some w) xs = refl
      exchange (some v) none xs = refl
      exchange (some v) (some w) xs = ground arith

module _ {F : Type 0} ⦃f : Float F⦄ where
  -- what a run whose workers return these results reports, for one of its totals
  abbrev pub totals : Column → ℕ → List (Option (WorkerSummary F)) → Bool → F → F → ℕ × ℕ
  totals k n results aborted rps target =
      let s = account_lost aborted rps target (add_workers results (empty_summary n)) in
      (fleet_total k s, s.workers_finished)

  totals_sums :
      (k : Column) (n : ℕ) (results : List (Option (WorkerSummary F))) (aborted : Bool)
      (rps target : F)
      → length results ≡ n
      → totals k n results aborted rps target ≡ (sum_tallies k results % u64_mod, finishers results)
  totals_sums k n results aborted rps target len =
      rw
        (
          sym len,
          fleet_total_sums k aborted rps target results,
          (account_lost_all aborted rps target results).0,
        )
        refl

  -- what the tasks return, at the rate for `n` workers
  abbrev played :
      (String × (Bool × String) × Assignment F → Option (WorkerSummary F))
      → DispatchSpec F
      → ℕ
      → ℕ
      → List Worker
      → List (Option (WorkerSummary F))
  played play spec epoch n workers =
      map play (assignments spec (f.div spec.target_rps (f.of_u64 n)) epoch workers)

  conduct_sums :
      (k : Column) (now token : ℕ)
      (play : String × (Bool × String) × Assignment F → Option (WorkerSummary F))
      (other : CoordinatorState → CoordinatorState) (spec : DispatchSpec F) (workers : List Worker)
      (state : CoordinatorState)
      → let meanwhile : Meanwhile F = record { results = map play; state = other } in
        let s = (conduct now token meanwhile spec workers state).1 in
        let epoch = if spec.epoch_unix_us == 0 then now else spec.epoch_unix_us in
        let results = played play spec epoch (length workers) workers in
        (fleet_total k s ≡ sum_tallies k results % u64_mod)
        × (s.workers_finished ≡ finishers results)
  unfolding conduct
  conduct_sums k now token play other spec workers state =
      let epoch = if spec.epoch_unix_us == 0 then now else spec.epoch_unix_us in
      let rps = f.div spec.target_rps (f.of_u64 (length workers)) in
      let tasks = assignments spec rps epoch workers in
      let sums =
        totals_sums k (length workers) (map play tasks) _ rps spec.target_rps
          (length-map play tasks ∙ length-assignments spec rps epoch workers) in
      (ap (λ r. r.0) sums, ap (λ r. r.1) sums)

  played-Perm :
      (play : String × (Bool × String) × Assignment F → Option (WorkerSummary F))
      (spec : DispatchSpec F) (epoch n : ℕ) {ws vs : List Worker}
      → Perm ws vs
      → Perm (played play spec epoch n ws) (played play spec epoch n vs)
  unfolding assignments
  played-Perm play spec epoch n p = Perm.map play (Perm.map _ p)

  totals_same :
      (k : Column) (now token : ℕ)
      (play : String × (Bool × String) × Assignment F → Option (WorkerSummary F))
      (other : CoordinatorState → CoordinatorState) (spec : DispatchSpec F)
      (workers reordered : List Worker) (state : CoordinatorState)
      → Perm workers reordered
      → let meanwhile : Meanwhile F = record { results = map play; state = other } in
        let s = (conduct now token meanwhile spec workers state).1 in
        let t = (conduct now token meanwhile spec reordered state).1 in
        (fleet_total k s ≡ fleet_total k t) × (s.workers_finished ≡ t.workers_finished)
  totals_same k now token play other spec workers reordered state perm =
      let epoch = if spec.epoch_unix_us == 0 then now else spec.epoch_unix_us in
      let one = conduct_sums k now token play other spec workers state in
      let two = conduct_sums k now token play other spec reordered state in
      let size = length-Perm perm in
      let results = played-Perm play spec epoch (length workers) perm in
      let moved = λ (n : ℕ). played play spec epoch n reordered in
      (
        one.0
            ∙ ap (λ total. total % u64_mod) (sum_tallies-Perm k results)
            ∙ ap (λ n. sum_tallies k (moved n) % u64_mod) size
            ∙ sym two.0,
        one.1 ∙ finishers-Perm results ∙ ap (λ n. finishers (moved n)) size ∙ sym two.1,
      )

  -- The order of the workers does not matter. Two runs over the same workers in two orders, with a
  -- new token, in which each worker makes the same of its assignment and the coordinator serves the
  -- same other calls, none of which starts or ends this run or reuses its token: they report the
  -- same seven totals, as many workers finished and lost, as many warnings, and both as aborted or
  -- neither.
  pub conduct-Perm :
      (k : Column) (now token : ℕ)
      (play : String × (Bool × String) × Assignment F → Option (WorkerSummary F)) (es : List Event)
      (spec : DispatchSpec F) (workers reordered : List Worker) (state : CoordinatorState)
      → Perm workers reordered
      → Fresh token state
      → leave token spec.run_id es ≡ true
      → let meanwhile : Meanwhile F = record { results = map play; state = replay es } in
        let s = (conduct now token meanwhile spec workers state).1 in
        let t = (conduct now token meanwhile spec reordered state).1 in
        (fleet_total k s ≡ fleet_total k t)
        × (s.workers_finished ≡ t.workers_finished)
        × (s.workers_lost ≡ t.workers_lost)
        × (length s.warnings ≡ length t.warnings)
        × (s.aborted ≡ t.aborted)
  conduct-Perm k now token play es spec workers reordered state perm fresh l =
      let meanwhile : Meanwhile F = record { results = map play; state = replay es } in
      let sums = totals_same k now token play (replay es) spec workers reordered state perm in
      let one =
        conduct-replay now token (map play) es spec workers state fresh l
          (λ tasks. length-map play tasks) in
      let two =
        conduct-replay now token (map play) es spec reordered state fresh l
          (λ tasks. length-map play tasks) in
      let s = (conduct now token meanwhile spec workers state).1 in
      let t = (conduct now token meanwhile spec reordered state).1 in
      let lost : s.workers_lost ≡ t.workers_lost =
        ground (arith, one.1, two.1, sums.1, length-Perm perm) in
      (sums.0, sums.1, lost, one.2 ∙ rw lost (sym two.2), one.0 ∙ sym two.0)
