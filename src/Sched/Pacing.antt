-- ===== src/Sched/Pacing.antt =====
-- When a connection may fire, over any history of its schedule (sched.rs).
use correctness_bench.Common.{
  ℕ, ◌+◌, ◌-◌, ◌≤◌, ◌<◌, ◌≡◌, false, List, [], ◌∷◌, arith, max, u64_mod, u64_add, u64_sub, length,
  if◌then◌else◌,
}
use correctness_bench.Float.{Float, whole}
use correctness_bench.Sched.{
  constant, ConnSched, new, intended_send_time, catch_up_next, usec_to_next_send, advance,
  defer_origin,
}

-- What a connection task does with its schedule.
pub data Op : Type 0 where
  schedule_at : ℕ → Op
  respond : Op
  pause : ℕ → Op

module _ {F : Type 0} ⦃f : Float F⦄ where
  unfoldable pub step : ConnSched F → Op → ConnSched F
  step s (schedule_at now_us) = (usec_to_next_send s now_us).0
  step s respond = advance s
  step s (pause delta_us) = defer_origin s delta_us

  unfoldable pub run : ConnSched F → List Op → ConnSched F
  unfolding step
  run s [] = s
  run s (op ∷ ops) = run (step s op) ops

  -- A constant schedule at rate `t`: it catches up at twice the rate, and a catch-up window opened
  -- at a request that the connection has reached.
  pub record IsPaced (t : F) (s : ConnSched F) : Type 0 where
    pub rate : s.schedule ≡ constant t
    pub double : s.catch_up_us ≡ f.mul t (whole 2)
    pub window : s.complete_at_catch_up_start ≤ s.complete

  step-IsPaced :
      {t : F} (s : ConnSched F) (op : Op)
      → IsPaced t s
      → s.complete + 1 < u64_mod
      → IsPaced t (step s op) × ((step s op).complete ≤ s.complete + 1)
  unfolding step usec_to_next_send advance defer_origin
  step-IsPaced s (schedule_at now) p h = rw p.rate (ground arith)
  step-IsPaced s respond p h = ground arith
  step-IsPaced s (pause delta) p h = ground arith

  -- A request is never fired before its slot: the wait reaches at least to the intended send time.
  pub intended-le-add_wait :
      (s : ConnSched F) (now : ℕ) → intended_send_time s ≤ now + (usec_to_next_send s now).1
  unfolding usec_to_next_send
  intended-le-add_wait s now = ground arith

  run-IsPaced :
      {t : F} (s : ConnSched F) (ops : List Op)
      → IsPaced t s
      → s.complete + length ops < u64_mod
      → IsPaced t (run s ops) × ((run s ops).complete ≤ s.complete + length ops)
  unfolding run
  run-IsPaced s [] p h = (p, omega arith)
  run-IsPaced s (op ∷ ops) p h =
      let (q, c) = step-IsPaced s op p (omega arith) in
      let (r, d) = run-IsPaced (step s op) ops q (omega arith) in (r, omega arith)

  new-IsPaced : (start : ℕ) (t : F) → IsPaced t (new start t) × ((new start t).complete ≡ 0)
  unfolding new
  new-IsPaced start t = ground arith

  -- the requests of the catch-up window, spread at twice the rate
  abbrev pub window_due : F → ConnSched F → ℕ
  window_due t s =
      let since = f.of_u64 (s.complete - s.complete_at_catch_up_start) in
      u64_add s.catch_up_start_time (f.to_u64 (f.div since (f.mul t (whole 2))))

  abbrev pub PacesFrom : F → ℕ → ConnSched F → Type 0
  PacesFrom t now s =
      let r = usec_to_next_send s now in
      (r.0.caught_up ≡ false)
      × (r.0.catch_up_start_time ≡ (if s.caught_up then now else s.catch_up_start_time))
      × (r.0.complete_at_catch_up_start
          ≡ (if s.caught_up then s.complete else s.complete_at_catch_up_start))
      × (now + r.1 ≡ max now (window_due t r.0))

  catch_up_next_lem :
      {t : F} (s : ConnSched F)
      → IsPaced t s
      → s.complete < u64_mod
      → catch_up_next s ≡ window_due t s
  unfolding catch_up_next
  catch_up_next_lem s p c =
      let e : u64_sub s.complete s.complete_at_catch_up_start
          ≡ s.complete - s.complete_at_catch_up_start =
        omega (arith, p.window) in
      rw (e, p.double)

  IsPaced-PacesFrom :
      (t : F) (s : ConnSched F) (now : ℕ)
      → IsPaced t s
      → s.complete < u64_mod
      → intended_send_time s ≤ now
      → PacesFrom t now s
  unfolding usec_to_next_send
  IsPaced-PacesFrom t s now p c late =
      let opened = record s {
        caught_up = false;
        catch_up_start_time = now;
        complete_at_catch_up_start = s.complete;
      } in
      let q : IsPaced t opened = ground arith in
      ground (arith, catch_up_next_lem s p c, catch_up_next_lem opened q c)

  -- In any state that a connection of constant rate `t` reaches by fewer than 2 ^ 64 operations and in
  -- which it is behind its schedule: a connection that was on pace opens a catch-up window at this
  -- moment and request, one that was behind keeps its window, and the request goes out at once or at
  -- the window's start plus the requests of the window at twice the rate, whichever is later.
  pub catch_up_pacing :
      (start : ℕ) (t : F) (ops : List Op) (now : ℕ)
      → length ops < u64_mod
      → intended_send_time (run (new start t) ops) ≤ now
      → PacesFrom t now (run (new start t) ops)
  catch_up_pacing start t ops now few late =
      let (p, fresh) = new-IsPaced start t in
      let (q, c) = run-IsPaced (new start t) ops p (omega arith) in
      IsPaced-PacesFrom t (run (new start t) ops) now q (omega arith) late
