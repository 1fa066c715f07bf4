-- ===== src/Worker/Run/Cancel.antt =====
-- What a cancellation leaves to happen: the turns that are under way (worker.rs).
use correctness_bench.Common.{
  ℕ, zero, suc, ◌+◌, ◌<◌, ◌≤◌, ◌≡◌, refl, ap, ◌∙◌, Bool, true, false, not, ◌&&◌, some, List, [],
  ◌∷◌, arith, u64_mod, get_elem?, set, if_cases, option_cases,
}
use mathlib.Core.Option
use correctness_bench.Float.{Float}
use correctness_bench.Hist.Library.{Hdr}
use correctness_bench.Worker.Counters.{ConnResult, LiveCounters}
use correctness_bench.Worker.Connection.{Config, Turn}
use correctness_bench.Worker.Ticks.{seen}
use correctness_bench.Worker.Ticks.Deltas.{Column, entry}
use correctness_bench.Worker.Turn.{checked}
use correctness_bench.Worker.Turn.Rises.{checked-Rises}
use correctness_bench.Worker.Turn.Aborts.{checked_abort}
use correctness_bench.Worker.Run.{
  Task, World, Happening, enters, turns, cancelled, is_over, goes_on, enter, take_turn, happen,
  happen_all,
}
use correctness_bench.Worker.Run.Books.{result}

pub cancelled_column :
    (c : LiveCounters) (k : Column) → entry k (seen (record c { abort = true })) ≡ entry k (seen c)
unfolding seen
cancelled_column c k = ground arith

abbrev pub one_if : Bool → ℕ
one_if true = 1
one_if false = 0

module _ {F : Type 0} where
  abbrev pub is_under_way : Task F → Bool
  is_under_way task = task.running && task.under_way

  -- how many tasks are in the middle of a turn
  abbrev pub in_flight : List (Task F) → ℕ
  in_flight [] = 0
  in_flight (task ∷ tasks) = one_if (is_under_way task) + in_flight tasks

  in_flight-set :
      (tasks : List (Task F)) (id : ℕ) (old new : Task F)
      → get_elem? tasks id ≡ some old
      → in_flight (set tasks id new) + one_if (is_under_way old)
        ≡ in_flight tasks + one_if (is_under_way new)
  in_flight-set [] id old new e = ground arith
  in_flight-set (t ∷ tasks) zero old new e = ground arith
  in_flight-set (t ∷ tasks) (suc id) old new e = omega (arith, in_flight-set tasks id old new e)

  -- Task `id` is not in the middle of a turn, and this is its result.
  abbrev Rests : ℕ → ConnResult → List (Task F) → Type 0
  Rests id r tasks =
      (task : Task F) × (get_elem? tasks id ≡ some task)
      × (is_under_way task ≡ false)
      × (result task ≡ r)

  Rests-set :
      (tasks : List (Task F)) (id j : ℕ) (r : ConnResult) (old new : Task F)
      → get_elem? tasks j ≡ some old
      → (is_under_way old ≡ false → (is_under_way new ≡ false) × (result new ≡ result old))
      → Rests id r tasks
      → Rests id r (set tasks j new)
  Rests-set [] id j r old new e keep rests = rests
  Rests-set (t ∷ tasks) zero zero r old new e keep (task, at, rest, res) =
      let same : old ≡ task = ground (arith, e, at) in
      let (still, kept) = keep (ap is_under_way same ∙ rest) in
      (new, refl, still, kept ∙ ap result same ∙ res)
  Rests-set (t ∷ tasks) zero (suc j) r old new e keep rests = rests
  Rests-set (t ∷ tasks) (suc id) zero r old new e keep rests = rests
  Rests-set (t ∷ tasks) (suc id) (suc j) r old new e keep rests =
      Rests-set tasks id j r old new e keep rests

module _ {F H : Type 0} ⦃f : Float F⦄ ⦃h : Hdr H⦄ where
  abbrev pub level : Column → World F H → ℕ
  level k w = entry k (seen w.shared.counters)

  -- From `w` to `w'` the flag is up, no turn begins, and each turn that ends counts at most one more.
  record Drains (k : Column) (w w' : World F H) : Type 0 where
    pub up : w'.shared.counters.abort ≡ true
    pub rises : level k w ≤ level k w'
    pub spends : level k w' + in_flight w'.tasks ≤ level k w + in_flight w.tasks
    pub rest : (id : ℕ) (r : ConnResult) → Rests id r w.tasks → Rests id r w'.tasks

  stays : (k : Column) (w : World F H) → w.shared.counters.abort ≡ true → Drains k w w
  stays k w up = record {
    up = up;
    rises = omega arith;
    spends = omega arith;
    rest = λ id r rests. rests;
  }

  Drains-trans : (k : Column) (u v w : World F H) → Drains k u v → Drains k v w → Drains k u w
  Drains-trans k u v w a b = record {
    up = b.up;
    rises = omega (arith, a.rises, b.rises);
    spends = omega (arith, a.spends, b.spends);
    rest = λ id r rests. b.rest id r (a.rest id r rests);
  }

  enter-Drains :
      (k : Column) (id : ℕ) (task : Task F) (w : World F H)
      → w.shared.counters.abort ≡ true
      → get_elem? w.tasks id ≡ some task
      → Drains k w (enter id task w)
  unfolding enter
  enter-Drains k id task w up e =
      let done = record task { running = false } in
      if_cases (Drains k w) (task.running && not task.under_way) _ _
        (λ _.
          if_cases (λ new. Drains k w (record w { tasks = set w.tasks id new }))
            w.shared.counters.abort _ _
            (λ _. record {
              up = up;
              rises = omega arith;
              spends = omega (arith, in_flight-set w.tasks id task done e);
              rest = λ j r rests. Rests-set w.tasks j id r task done e (λ _. (refl, refl)) rests;
            })
            (λ down. absurd (ground (arith, up, down))))
        (λ _. stays k w up)

  take_turn-Drains :
      (k : Column) (cfg : Config F) (t : Turn) (id : ℕ) (task : Task F) (w : World F H)
      → w.shared.counters.abort ≡ true
      → get_elem? w.tasks id ≡ some task
      → level k w + in_flight w.tasks < u64_mod
      → Drains k w (take_turn cfg t id task w)
  unfolding take_turn
  take_turn-Drains k cfg t id task w up e room =
      let (sh, conn, flow) = checked cfg t w.shared task.conn in
      let done : Task F = record { conn = conn; running = goes_on flow; under_way = false } in
      let rises = checked-Rises cfg t w.shared task.conn k (omega (arith, room)) in
      let over : is_under_way done ≡ false = ground arith in
      if_cases (Drains k w) (task.running && task.under_way && is_over flow) _ _
        (λ both.
          let busy : is_under_way task ≡ true = ground (arith, both) in
          let moved = in_flight-set w.tasks id task done e in
          let one : one_if (is_under_way task) ≡ 1 = rw busy refl in
          let none_left : one_if (is_under_way done) ≡ 0 = rw over refl in
          record {
            up = checked_abort cfg t w.shared task.conn up;
            rises = omega (arith, room, rises.small, rises.moved, moved, one);
            spends = omega (arith, room, rises.small, rises.moved, moved, one, none_left);
            rest = λ j r rests.
                Rests-set w.tasks j id r task done e (λ idle. absurd (ground (arith, idle, busy)))
                  rests;
          })
        (λ _. stays k w up)

  happen-Drains :
      (k : Column) (cfg : Config F) (w : World F H) (e : Happening)
      → w.shared.counters.abort ≡ true
      → level k w + in_flight w.tasks < u64_mod
      → Drains k w (happen cfg w e)
  unfolding happen
  happen-Drains k cfg w (enters id) up room =
      option_cases (Drains k w) (get_elem? w.tasks id) _ _ (λ _. stays k w up)
        (λ task e. enter-Drains k id task w up e)
  happen-Drains k cfg w (turns id t) up room =
      option_cases (Drains k w) (get_elem? w.tasks id) _ _ (λ _. stays k w up)
        (λ task e. take_turn-Drains k cfg t id task w up e room)
  happen-Drains k cfg w cancelled up room = again_up k w
    where
      again_up :
          (k : Column) (w : World F H)
          → let sh = w.shared in
            let c = sh.counters in
            Drains k w (record w { shared = record sh { counters = record c { abort = true } } })
      again_up k w = record {
        up = refl;
        rises = omega (arith, cancelled_column w.shared.counters k);
        spends = omega (arith, cancelled_column w.shared.counters k);
        rest = λ id r rests. rests;
      }

  happen_all-Drains :
      (k : Column) (cfg : Config F) (w : World F H) (es : List Happening)
      → w.shared.counters.abort ≡ true
      → level k w + in_flight w.tasks < u64_mod
      → Drains k w (happen_all cfg w es)
  unfolding happen_all
  happen_all-Drains k cfg w [] up room = stays k w up
  happen_all-Drains k cfg w (e ∷ es) up room =
      let w' = happen cfg w e in
      let one = happen-Drains k cfg w e up room in
      Drains-trans k w w' _ one
        (happen_all-Drains k cfg w' es one.up (omega (arith, room, one.spends)))

  -- Once the run is cancelled, whatever the tasks still do, in whatever order: no count of the worker's
  -- next tick falls, each rises by at most the number of turns that were under way and have ended since
  -- (below 2 ^ 64), and a task that was not in a turn keeps its results.
  pub happen_all-cancelled :
      (k : Column) (cfg : Config F) (w : World F H) (es : List Happening) (id : ℕ) (task : Task F)
      → level k w + in_flight w.tasks < u64_mod
      → get_elem? w.tasks id ≡ some task
      → is_under_way task ≡ false
      → let c = happen cfg w cancelled in
        let after = happen_all cfg c es in
        (level k w ≤ level k after)
        × (level k after + in_flight after.tasks ≤ level k w + in_flight w.tasks)
        × (Option.map result (get_elem? after.tasks id) ≡ some (result task))
  unfolding happen
  happen_all-cancelled k cfg w es id task room e idle =
      let c = happen cfg w cancelled in
      let same = cancelled_column w.shared.counters k in
      let drains = happen_all-Drains k cfg c es refl (omega (arith, room, same)) in
      let (kept, at, _, res) = drains.rest id (result task) (task, e, idle, refl) in
      (omega (arith, same, drains.rises), omega (arith, same, drains.spends), rw at (ap some res))
