-- ===== src/Sched.antt =====
-- engine/src/sched.rs: the per-connection schedule, a port of wrk2's `usec_to_next_send`. A method
-- on `&mut self` returns the new record; the clock is an argument, as in the source.
pub mod Origin
pub mod Pacing
pub mod Tests
use correctness_bench.Common.{
  ℕ, ◌-◌, Bool, true, false, ltb, if◌then◌else◌, u64_add, u64_sub, saturating_add,
}
use correctness_bench.Float.{Float, whole}

pub data RateSchedule (F : Type 0) : Type 0 where
  constant : F → RateSchedule F
  ramp : ℕ → F → RateSchedule F

pub record ConnSched (F : Type 0) : Type 0 where
  pub thread_start_us : ℕ
  pub complete : ℕ
  pub schedule : RateSchedule F
  pub catch_up_us : F
  pub caught_up : Bool
  pub catch_up_start_time : ℕ
  pub complete_at_catch_up_start : ℕ

module _ {F : Type 0} ⦃f : Float F⦄ where
  -- `ConnSched::new`
  unfoldable pub new : ℕ → F → ConnSched F
  new thread_start_us throughput_us = record {
    thread_start_us = thread_start_us;
    complete = 0;
    schedule = constant throughput_us;
    catch_up_us = f.mul throughput_us (whole 2);
    caught_up = true;
    catch_up_start_time = 0;
    complete_at_catch_up_start = 0;
  }

  -- `ConnSched::ramp`
  unfoldable pub new_ramp : ℕ → ℕ → F → ConnSched F
  new_ramp thread_start_us duration_us peak_throughput_us = record {
    thread_start_us = thread_start_us;
    complete = 0;
    schedule = ramp duration_us peak_throughput_us;
    catch_up_us = whole 0;
    caught_up = true;
    catch_up_start_time = 0;
    complete_at_catch_up_start = 0;
  }

  -- how far request `n` stands behind the origin of the schedule
  unfoldable pub slot : RateSchedule F → ℕ → ℕ
  slot (constant throughput_us) n = f.to_u64 (f.div (f.of_u64 n) throughput_us)
  slot (ramp duration_us peak) n =
      f.to_u64 (f.sqrt (f.div (f.mul (f.mul (whole 2) (f.of_u64 duration_us)) (f.of_u64 n)) peak))

  unfoldable pub intended_send_time : ConnSched F → ℕ
  intended_send_time s = u64_add s.thread_start_us (slot s.schedule s.complete)

  -- when the next request is due while catching up at twice the rate
  unfoldable pub catch_up_next : ConnSched F → ℕ
  catch_up_next s =
      u64_add s.catch_up_start_time (
        f.to_u64 (f.div (f.of_u64 (u64_sub s.complete s.complete_at_catch_up_start)) s.catch_up_us))

  -- `if self.caught_up { … }`: falling behind opens a catch-up window
  unfoldable pub open_window : ConnSched F → ℕ → ConnSched F
  open_window s now_us =
      if s.caught_up
      then record s {
        caught_up = false;
        catch_up_start_time = now_us;
        complete_at_catch_up_start = s.complete;
      }
      else s

  -- the branches of `usec_to_next_send` for a connection that is behind
  unfoldable pub behind : RateSchedule F → ConnSched F → ℕ → ConnSched F × ℕ
  unfolding open_window
  behind (ramp duration_us peak) s now_us = (record s { caught_up = false }, 0)
  behind (constant throughput_us) s now_us =
      let s' = open_window s now_us in
      let next = catch_up_next s' in (s', if ltb now_us next then next - now_us else 0)

  unfoldable pub usec_to_next_send : ConnSched F → ℕ → ConnSched F × ℕ
  unfolding behind
  usec_to_next_send s now_us =
      let next_start_orig = intended_send_time s in
      if ltb now_us next_start_orig
      then (record s { caught_up = true }, next_start_orig - now_us)
      else behind s.schedule s now_us

  unfoldable pub advance : ConnSched F → ConnSched F
  advance s = record s { complete = u64_add s.complete 1 }

  unfoldable pub defer_origin : ConnSched F → ℕ → ConnSched F
  defer_origin s delta_us = record s {
    thread_start_us = saturating_add s.thread_start_us delta_us;
    caught_up = true;
  }
