-- ===== src/Worker/Run/Halt.antt =====
-- A cancelled run ends (worker.rs): how many steps its tasks have left.
use correctness_bench.Common.{
  ℕ, zero, suc, ◌+◌, ◌*◌, ◌≤◌, ◌≡◌, refl, Bool, true, false, not, ◌&&◌, ◌⊎◌, inl, inr, Bool-cases,
  if◌then◌else◌, some, none, Option, List, [], ◌∷◌, arith, length, get_elem?, set, if_cases,
}
use correctness_bench.Float.{Float}
use correctness_bench.Hist.Library.{Hdr}
use correctness_bench.Worker.Connection.{Config, Turn}
use correctness_bench.Worker.Turn.{checked}
use correctness_bench.Worker.Turn.Aborts.{checked_abort}
use correctness_bench.Worker.Run.Cancel.{one_if}
use correctness_bench.Worker.Run.{
  Task, World, Happening, enters, turns, cancelled, is_over, goes_on, enter, take_turn, happen,
  happen_all,
}

module _ {F : Type 0} where
  -- How many steps a task has left once the flag is up: the end of its turn, and the next abort check.
  abbrev steps_left : Task F → ℕ
  steps_left task = if task.running then if task.under_way then 2 else 1 else 0

  abbrev pub rank : List (Task F) → ℕ
  rank [] = 0
  rank (task ∷ tasks) = steps_left task + rank tasks

  rank-set :
      (tasks : List (Task F)) (id : ℕ) (old new : Task F)
      → get_elem? tasks id ≡ some old
      → rank (set tasks id new) + steps_left old ≡ rank tasks + steps_left new
  rank-set [] id old new e = ground arith
  rank-set (t ∷ tasks) zero old new e = ground arith
  rank-set (t ∷ tasks) (suc id) old new e = omega (arith, rank-set tasks id old new e)

  abbrev can_enter : Task F → Bool
  can_enter task = task.running && not task.under_way

  rank_bound : (tasks : List (Task F)) → rank tasks ≤ 2 * length tasks
  rank_bound [] = omega arith
  rank_bound (t ∷ tasks) = ground (arith, rank_bound tasks)

module _ {F H : Type 0} ⦃f : Float F⦄ ⦃h : Hdr H⦄ where
  abbrev can_end : Config F → Turn → World F H → Task F → Bool
  can_end cfg t w task =
      let (_, _, flow) = checked cfg t w.shared task.conn in
      task.running && task.under_way && is_over flow

  -- A task takes a step: the abort check at the top of its loop, or the end of the turn that it is in.
  abbrev pub acts : Config F → World F H → Happening → Bool
  acts cfg w (enters id) = elim (get_elem? w.tasks id) [ none ↦ false | some task ↦ can_enter task ]
  acts cfg w (turns id t) = elim (get_elem? w.tasks id) [
    | none ↦ false
    | some task ↦ can_end cfg t w task
  ]
  acts cfg w cancelled = false

  -- how many steps the tasks take in a history
  abbrev pub steps_taken : Config F → World F H → List Happening → ℕ
  steps_taken cfg w [] = 0
  steps_taken cfg w (e ∷ es) = one_if (acts cfg w e) + steps_taken cfg (happen cfg w e) es

  -- The flag is up in `w'`. A step took one from what was left in `w`, and nothing else did anything.
  record Spends (stepped : Bool) (w w' : World F H) : Type 0 where
    pub up : w'.shared.counters.abort ≡ true
    pub spent : one_if stepped + rank w'.tasks ≤ rank w.tasks
    pub idle : (stepped ≡ true) ⊎ (w' ≡ w)

  nothing : (w : World F H) → w.shared.counters.abort ≡ true → Spends false w w
  nothing w up = record { up = up; spent = omega arith; idle = inr refl }

  enter-Spends :
      (id : ℕ) (task : Task F) (w : World F H)
      → w.shared.counters.abort ≡ true
      → get_elem? w.tasks id ≡ some task
      → Spends (can_enter task) w (enter id task w)
  unfolding enter
  enter-Spends id task w up e = go (can_enter task) refl
    where
      checks : Bool → Task F
      checks aborted =
          if aborted then record task { running = false } else record task { under_way = true }

      go :
          (can : Bool)
          → can_enter task ≡ can
          → Spends can w (
              if can
              then record w { tasks = set w.tasks id (checks w.shared.counters.abort) }
              else w)
      go false cannot = nothing w up
      go true can =
          if_cases (λ new. Spends true w (record w { tasks = set w.tasks id new }))
            w.shared.counters.abort _ _
            (λ _. record {
              up = up;
              spent =
                  ground (arith, can, rank-set w.tasks id task (record task { running = false }) e);
              idle = inl refl;
            })
            (λ down. absurd (ground (arith, up, down)))

  take_turn-Spends :
      (cfg : Config F) (t : Turn) (id : ℕ) (task : Task F) (w : World F H)
      → w.shared.counters.abort ≡ true
      → get_elem? w.tasks id ≡ some task
      → Spends (can_end cfg t w task) w (take_turn cfg t id task w)
  unfolding take_turn
  take_turn-Spends cfg t id task w up e =
      let (sh, conn, flow) = checked cfg t w.shared task.conn in
      let done : Task F = record { conn = conn; running = goes_on flow; under_way = false } in
      elim (Bool-cases (can_end cfg t w task)) [
        | inl can ↦ rw can (record {
          up = checked_abort cfg t w.shared task.conn up;
          spent = ground (arith, can, rank-set w.tasks id task done e);
          idle = inl refl;
        })
        | inr cannot ↦ rw cannot (nothing w up)
      ]

  happen-Spends :
      (cfg : Config F) (w : World F H) (e : Happening)
      → w.shared.counters.abort ≡ true
      → Spends (acts cfg w e) w (happen cfg w e)
  unfolding happen
  happen-Spends cfg w (enters id) up = go (get_elem? w.tasks id) refl
    where
      go :
          (found : Option (Task F))
          → get_elem? w.tasks id ≡ found
          → Spends
              (elim found [ none ↦ false | some task ↦ can_enter task ])
              w
              (elim found [ none ↦ w | some task ↦ enter id task w ])
      go none e = nothing w up
      go (some task) e = enter-Spends id task w up e
  happen-Spends cfg w (turns id t) up = go (get_elem? w.tasks id) refl
    where
      go :
          (found : Option (Task F))
          → get_elem? w.tasks id ≡ found
          → Spends
              (elim found [ none ↦ false | some task ↦ can_end cfg t w task ])
              w
              (elim found [ none ↦ w | some task ↦ take_turn cfg t id task w ])
      go none e = nothing w up
      go (some task) e = take_turn-Spends cfg t id task w up e
  happen-Spends cfg w cancelled up = record {
    up = refl;
    spent = omega arith;
    idle = inr (ground (arith, up));
  }

  happen_all-Spends :
      (cfg : Config F) (w : World F H) (es : List Happening)
      → w.shared.counters.abort ≡ true
      → ((happen_all cfg w es).shared.counters.abort ≡ true)
        × (steps_taken cfg w es + rank (happen_all cfg w es).tasks ≤ rank w.tasks)
  unfolding happen_all
  happen_all-Spends cfg w [] up = (up, omega arith)
  happen_all-Spends cfg w (e ∷ es) up =
      let one = happen-Spends cfg w e up in
      let (still, more) = happen_all-Spends cfg (happen cfg w e) es one.up in
      (still, omega (arith, one.spent, more))

  idle_still : (stepped : Bool) (w w' : World F H) → Spends stepped w w' → stepped ≡ false → w' ≡ w
  idle_still stepped w w' s e = elim s.idle [
    | inl stepped ↦ absurd (ground (arith, e, stepped))
    | inr same ↦ same
  ]

  -- After a cancellation the tasks take at most as many steps as they have left, whatever happens in
  -- whatever order: two for each that is in a turn, one for each other that is running, and so at most
  -- two for each task. What happens and is not such a step changes nothing.
  pub happen_all-rank :
      (cfg : Config F) (w : World F H) (es : List Happening) (next : Happening)
      → acts cfg (happen_all cfg (happen cfg w cancelled) es) next ≡ false
      → let c = happen cfg w cancelled in
        let after = happen_all cfg c es in
        (steps_taken cfg c es + rank after.tasks ≤ rank w.tasks)
        × (rank w.tasks ≤ 2 * length w.tasks)
        × (happen cfg after next ≡ after)
  unfolding happen
  happen_all-rank cfg w es next none_acts =
      let c = happen cfg w cancelled in
      let after = happen_all cfg c es in
      let (up, steps) = happen_all-Spends cfg c es refl in
      (
        steps,
        rank_bound w.tasks,
        idle_still (acts cfg after next) after _ (happen-Spends cfg after next up) none_acts,
      )
