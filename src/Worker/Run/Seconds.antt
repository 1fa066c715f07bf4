-- ===== src/Worker/Run/Seconds.antt =====
-- A run with its tick emitter: what happens from one tick to the next, and the states that the ticks find
-- (worker.rs).
use correctness_bench.Common.{
  ℕ, ◌+◌, ◌<◌, ◌≤◌, ◌≡◌, refl, sym, ap, ◌∙◌, Bool, not, ◌&&◌, List, [], ◌∷◌, map, arith, get_elem?,
  u64_mod, length, option_cases, if_cases,
}
use mathlib.Core.Path.{subst}
use correctness_bench.Float.{Float}
use correctness_bench.Hist.Library.{Hdr}
use correctness_bench.Worker.Spec.{RunSpec}
use correctness_bench.Worker.Counters.{LiveCounters, fresh}
use correctness_bench.Worker.Connection.{Shared, Config, Turn}
use correctness_bench.Worker.Ticks.{seen, nothing_seen}
use correctness_bench.Worker.Ticks.Deltas.{Column, entry, Rising, last_seen}
use correctness_bench.Worker.Turn.{checked}
use correctness_bench.Worker.Turn.Rises.{checked-Rises}
use correctness_bench.Worker.Run.{
  Task, World, Happening, enters, turns, cancelled, is_over, start, config_of, enter, take_turn,
  happen, happen_all, RunReport, report,
}
use correctness_bench.Worker.Run.Cancel.{level, cancelled_column}
use correctness_bench.Worker.Run.Books.{
  Agrees, happen_all-Agrees, start-Agrees, Agrees-IsHonest, IsHonest, result,
}

abbrev pub happenings : List (List Happening) → ℕ
happenings [] = 0
happenings (es ∷ rest) = length es + happenings rest

-- the same column of a report
abbrev pub reported : {F H U : Type 0} → Column → RunReport F H U → ℕ
reported Column.total r = r.completed
reported Column.pass r = r.pass
reported Column.fail_status r = r.fail_status
reported Column.fail_latency r = r.fail_latency
reported Column.fail_size r = r.fail_size
reported Column.fail_content_type r = r.fail_content_type
reported Column.rate_limited r = r.rate_limited

module _ {F H : Type 0} ⦃f : Float F⦄ ⦃h : Hdr H⦄ where
  -- a tick takes the samples away
  unfoldable pub drained : World F H → World F H
  drained w = let sh = w.shared in record w { shared = record sh { samples = [] } }

  -- The states that the ticks find, one after each list of happenings.
  unfoldable pub found : Config F → World F H → List (List Happening) → List (Shared F H)
  unfolding drained happen_all
  found cfg w [] = []
  found cfg w (es ∷ rest) = let w' = happen_all cfg w es in w'.shared ∷ found cfg (drained w') rest

  -- the pool after the last of these ticks
  unfoldable pub ticked : Config F → World F H → List (List Happening) → World F H
  unfolding drained happen_all
  ticked cfg w [] = w
  ticked cfg w (es ∷ rest) = ticked cfg (drained (happen_all cfg w es)) rest

  enter_shared : (id : ℕ) (task : Task F) (w : World F H) → (enter id task w).shared ≡ w.shared
  unfolding enter
  enter_shared id task w =
      if_cases (λ (v : World F H). v.shared ≡ w.shared) (task.running && not task.under_way) _ _
        (λ _. refl) (λ _. refl)

  take_turn_column :
      (cfg : Config F) (t : Turn) (id : ℕ) (task : Task F) (w : World F H) (k : Column)
      → level k w + 1 < u64_mod
      → (level k w ≤ level k (take_turn cfg t id task w))
        × (level k (take_turn cfg t id task w) ≤ level k w + 1)
  unfolding take_turn
  take_turn_column cfg t id task w k room =
      let rises = checked-Rises cfg t w.shared task.conn k (omega (arith, room)) in
      let (_, _, flow) = checked cfg t w.shared task.conn in
      if_cases (λ (v : World F H). (level k w ≤ level k v) × (level k v ≤ level k w + 1))
        (task.running && task.under_way && is_over flow) _ _
        (λ _. (
          omega (arith, room, rises.small, rises.moved),
          omega (arith, room, rises.small, rises.moved),
        ))
        (λ _. (omega arith, omega arith))

  happen_column :
      (cfg : Config F) (w : World F H) (e : Happening) (k : Column)
      → level k w + 1 < u64_mod
      → (level k w ≤ level k (happen cfg w e)) × (level k (happen cfg w e) ≤ level k w + 1)
  unfolding happen
  happen_column cfg w (enters id) k room =
      option_cases (λ (v : World F H). (level k w ≤ level k v) × (level k v ≤ level k w + 1))
        (get_elem? w.tasks id) _ _ (λ _. (omega arith, omega arith))
        (λ task _.
          let same = ap (λ sh. entry k (seen sh.counters)) (enter_shared id task w) in
          (omega (arith, same), omega (arith, same)))
  happen_column cfg w (turns id t) k room =
      option_cases (λ (v : World F H). (level k w ≤ level k v) × (level k v ≤ level k w + 1))
        (get_elem? w.tasks id) _ _ (λ _. (omega arith, omega arith))
        (λ task _. take_turn_column cfg t id task w k room)
  happen_column cfg w cancelled k room =
      let same = cancelled_column w.shared.counters k in (omega (arith, same), omega (arith, same))

  happen_all_column :
      (cfg : Config F) (w : World F H) (es : List Happening) (k : Column)
      → level k w + length es < u64_mod
      → (level k w ≤ level k (happen_all cfg w es))
        × (level k (happen_all cfg w es) ≤ level k w + length es)
  unfolding happen_all
  happen_all_column cfg w [] k room = (omega arith, omega arith)
  happen_all_column cfg w (e ∷ es) k room =
      let (up, by_one) = happen_column cfg w e k (omega (arith, room)) in
      let (more, bound) =
        happen_all_column cfg (happen cfg w e) es k (omega (arith, room, by_one)) in
      (omega (arith, up, more), omega (arith, by_one, bound))

  found-Rising :
      (k : Column) (cfg : Config F) (w : World F H) (segments : List (List Happening))
      → level k w + happenings segments < u64_mod
      → Rising k (seen w.shared.counters) (found cfg w segments)
        × (last_seen (seen w.shared.counters) (found cfg w segments)
            ≡ seen (ticked cfg w segments).shared.counters)
  unfolding found ticked drained
  found-Rising k cfg w [] room = (tt, refl)
  found-Rising k cfg w (es ∷ rest) room =
      let w' = happen_all cfg w es in
      let (up, bound) = happen_all_column cfg w es k (omega (arith, room)) in
      let (rising, last) = found-Rising k cfg (drained w') rest (omega (arith, room, bound)) in
      ((up, rising), last)

  drained-Agrees : (w : World F H) → Agrees w → Agrees (drained w)
  unfolding drained
  drained-Agrees w a = record { counted = a.counted; balanced = a.balanced }

  ticked-Agrees :
      (cfg : Config F) (w : World F H) (segments : List (List Happening))
      → Agrees w
      → Agrees (ticked cfg w segments)
  unfolding ticked
  ticked-Agrees cfg w [] a = a
  ticked-Agrees cfg w (es ∷ rest) a =
      ticked-Agrees cfg (drained (happen_all cfg w es)) rest
        (drained-Agrees (happen_all cfg w es) (happen_all-Agrees cfg w es a))

module _ {F H U : Type 0} ⦃f : Float F⦄ ⦃h : Hdr H⦄ where
  IsHonest-reported :
      (k : Column) (c : LiveCounters) (r : RunReport F H U)
      → IsHonest c r
      → entry k (seen c) ≡ reported k r
  unfolding seen
  IsHonest-reported Column.total c r honest = sym honest.completed_live
  IsHonest-reported Column.pass c r honest = sym honest.pass_live
  IsHonest-reported Column.fail_status c r honest = sym honest.fail_status_live
  IsHonest-reported Column.fail_latency c r honest = sym honest.fail_latency_live
  IsHonest-reported Column.fail_size c r honest = sym honest.fail_size_live
  IsHonest-reported Column.fail_content_type c r honest = sym honest.fail_content_type_live
  IsHonest-reported Column.rate_limited c r honest = sym honest.rate_limited_live

entry-nothing_seen : (k : Column) → entry k nothing_seen ≡ 0
unfolding nothing_seen
entry-nothing_seen k = ground arith

module _ (H : Type 0) {F U : Type 0} ⦃f : Float F⦄ ⦃h : Hdr H⦄ where
  start-nothing_seen :
      (spec : RunSpec F U) (connects : List Bool)
      → seen (start {F = F} {H = H} spec connects).shared.counters ≡ nothing_seen
  unfolding start fresh seen nothing_seen
  start-nothing_seen spec connects = refl

  -- In a run of fewer than 2 ^ 64 happenings, whatever they are and however the ticks cut them: no
  -- counter falls from one tick to the next, and after the last tick each is what the report has.
  pub ticked-reported :
      (k : Column) (spec : RunSpec F U) (connects : List Bool) (segments : List (List Happening))
      (elapsed_ns : ℕ)
      → happenings segments < u64_mod
      → let w₀ : World F H = start spec connects in
        let states = found (config_of spec) w₀ segments in
        let w = ticked (config_of spec) w₀ segments in
        Rising k nothing_seen states
        × (entry k (last_seen nothing_seen states)
            ≡ reported k (report spec elapsed_ns w (map result w.tasks)))
  ticked-reported k spec connects segments elapsed_ns room =
      let cfg = config_of spec in
      let w₀ : World F H = start spec connects in
      let states = found cfg w₀ segments in
      let w = ticked cfg w₀ segments in
      let zero = start-nothing_seen spec connects in
      let rising =
        found-Rising k cfg w₀ segments
          (omega (arith, room, ap (entry k) zero, entry-nothing_seen k)) in
      let (up, last) =
        subst (λ prev. Rising k prev states × (last_seen prev states ≡ seen w.shared.counters)) zero
          rising in
      let agrees = ticked-Agrees cfg w₀ segments (start-Agrees spec connects) in
      (
        up,
        ap (entry k) last
            ∙ IsHonest-reported k w.shared.counters _ (Agrees-IsHonest spec elapsed_ns w agrees),
      )
