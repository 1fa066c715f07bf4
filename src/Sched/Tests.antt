-- ===== src/Sched/Tests.antt =====
-- The unit tests of engine/src/sched.rs, evaluated over fixed-point numbers.
use correctness_bench.Common.{◌≡◌, refl, false}
use correctness_bench.Float.Fixed.{Fixed, fixed_float, isqrt}
use correctness_bench.Sched.{
  ConnSched, new, new_ramp, slot, intended_send_time, catch_up_next, usec_to_next_send, advance,
}

-- 1000 requests per second: 0.001 per microsecond
abbrev thousand_rps : ConnSched Fixed
unfolding new
thousand_rps = new 0 1000

steps_by_the_interval :
    (intended_send_time thousand_rps ≡ 0)
    × (intended_send_time (advance thousand_rps) ≡ 1000)
    × (intended_send_time (advance (advance thousand_rps)) ≡ 2000)
unfolding new intended_send_time slot advance
steps_by_the_interval = (refl, refl, refl)

on_schedule_waits : (usec_to_next_send (advance thousand_rps) 600).1 ≡ 400
unfolding new intended_send_time slot advance usec_to_next_send
on_schedule_waits = refl

behind_catches_up :
    let s = usec_to_next_send (advance thousand_rps) 4000 in
    (s.1 ≡ 0) × (s.0.caught_up ≡ false) × ((usec_to_next_send (advance s.0) 4000).1 ≡ 500)
unfolding new intended_send_time slot advance usec_to_next_send catch_up_next
behind_catches_up = (refl, refl, refl)

ramp_end :
    (s : ConnSched Fixed)
    → s ≡ record (new_ramp 0 1_000_000 1000) { complete = 500 }
    → intended_send_time s ≡ 1_000_000
unfolding new_ramp intended_send_time slot isqrt
ramp_end s e = rw e refl
