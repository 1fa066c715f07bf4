-- ===== src/Sched/Origin.antt =====
-- Where a request's slot stands: what pacing, completing and deferring do to it (sched.rs).
use correctness_bench.Common.{ℕ, zero, suc, ◌+◌, ◌<◌, ◌≡◌, refl, arith, u64_mod, u64_add}
use correctness_bench.Float.{Float}
use correctness_bench.Sched.{
  RateSchedule, constant, ramp, ConnSched, intended_send_time, usec_to_next_send, behind, advance,
  defer_origin,
}

module _ {F : Type 0} ⦃f : Float F⦄ where
  -- `n` responses
  abbrev pub advance_by : ℕ → ConnSched F → ConnSched F
  advance_by zero s = s
  advance_by (suc n) s = advance (advance_by n s)

  behind_keeps :
      (r : RateSchedule F) (s : ConnSched F) (now : ℕ)
      → let t = (behind r s now).0 in
        (t.thread_start_us ≡ s.thread_start_us)
        × (t.complete ≡ s.complete)
        × (t.schedule ≡ s.schedule)
  unfolding behind
  behind_keeps (ramp duration_us peak) s now = (refl, refl, refl)
  behind_keeps (constant throughput_us) s now = ground arith

  -- Pacing never moves the slot that a request is measured against: whatever branch
  -- `usec_to_next_send` takes, the intended send time afterwards is the one before.
  pub intended-usec_to_next_send :
      (s : ConnSched F) (now : ℕ)
      → intended_send_time (usec_to_next_send s now).0 ≡ intended_send_time s
  unfolding usec_to_next_send intended_send_time
  intended-usec_to_next_send s now = ground (arith, behind_keeps s.schedule s now)

  advance_by-defer_origin :
      (n : ℕ) (s : ConnSched F) (delta : ℕ)
      → let a = advance_by n s in
        let d = advance_by n (defer_origin s delta) in
        (d.complete ≡ a.complete)
        × (d.schedule ≡ a.schedule)
        × (a.thread_start_us ≡ s.thread_start_us)
        × (d.thread_start_us ≡ (defer_origin s delta).thread_start_us)
  unfolding advance defer_origin
  advance_by-defer_origin zero s delta = (refl, refl, refl, refl)
  advance_by-defer_origin (suc n) s delta = ground (arith, advance_by-defer_origin n s delta)

  defer_origin_start :
      (s : ConnSched F) (delta : ℕ)
      → s.thread_start_us + delta < u64_mod
      → (defer_origin s delta).thread_start_us ≡ s.thread_start_us + delta
  unfolding defer_origin
  defer_origin_start s delta h = omega arith

  -- A deferral of `delta` microseconds that does not saturate moves the slot of the present request,
  -- and of every later one, by exactly `delta` (in the 64-bit clock).
  pub intended-defer_origin :
      (n : ℕ) (s : ConnSched F) (delta : ℕ)
      → s.thread_start_us + delta < u64_mod
      → intended_send_time (advance_by n (defer_origin s delta))
        ≡ u64_add (intended_send_time (advance_by n s)) delta
  unfolding intended_send_time
  intended-defer_origin n s delta h =
      let (c, r, t, t') = advance_by-defer_origin n s delta in
      rw (c, r, t, t', defer_origin_start s delta h) (omega arith)
