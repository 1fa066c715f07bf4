-- ===== src/Coordinator/History.antt =====
-- The coordinator's state over a whole history (coordinator/mod.rs): the calls that change it, in the
-- order in which they take its locks, and the moments at which the heartbeat reaper scans. The time of a
-- call is what it read on the clock before it took the lock, so that times may be in another order.
pub mod Refines
pub mod Invariant
pub mod Reaper
pub mod Runs
pub mod Attentive
use correctness_bench.Common.{
  ℕ, zero, suc, ◌+◌, ◌*◌, List, [], ◌∷◌, ◌++◌, String, Bool, ◌⊎◌, inl, inr, Option, none, some,
}
use correctness_bench.Proto.{WorkerInfo}
use correctness_bench.Coordinator.{
  CoordinatorState, RunHandle, RegisterAck, heartbeat_dead_after, reaper_scan_interval, new,
  reap_dead_workers, register_run, deregister_run, abort_run, register, heartbeat,
}

pub data Event : Type 0 where
  registers : ℕ → WorkerInfo → Event
  heartbeats : ℕ → String → Event
  scans : ℕ → Event
  starts : String → RunHandle → Event
  ends : String → Event
  aborts : String → Event

unfoldable pub step : Event → CoordinatorState → CoordinatorState
step (registers now info) s = (register now info s).0
step (heartbeats now id) s = heartbeat now id s
step (scans now) s = (reap_dead_workers now heartbeat_dead_after s).0
step (starts run_id handle) s = register_run run_id handle s
step (ends run_id) s = deregister_run run_id s
step (aborts run_id) s = (abort_run run_id s).0

unfoldable pub replay : List Event → CoordinatorState → CoordinatorState
unfolding step
replay [] s = s
replay (e ∷ es) s = replay es (step e s)

-- When the reaper, spawned at `start`, scans for the `n`-th time, from 0: the first tick of its timer,
-- which comes at once, is skipped.
unfoldable pub scan_at : ℕ → ℕ → ℕ
scan_at start n = start + (n + 1) * reaper_scan_interval

-- the state after the first `n` rounds of the reaper's loop, when nothing else happens
unfoldable pub reaped : ℕ → ℕ → CoordinatorState → CoordinatorState
unfolding scan_at
reaped start zero s = s
reaped start (suc n) s =
    (reap_dead_workers (scan_at start n) heartbeat_dead_after (reaped start n s)).0

-- what comes in on a stream of heartbeats
pub data Received : Type 0 where
  message : ℕ → String → Received
  broken : Received

-- what goes out on the stream that answers it
pub data Answer : Type 0 where
  health_ack failed : Answer

-- `heartbeat`, up to the end of the incoming stream or its first error
unfoldable pub heartbeat_stream : List Received → CoordinatorState → CoordinatorState × List Answer
heartbeat_stream [] s = (s, [])
heartbeat_stream (broken ∷ rest) s = (s, failed ∷ [])
heartbeat_stream (message now id ∷ rest) s =
    let (s', answers) = heartbeat_stream rest (heartbeat now id s) in (s', health_ack ∷ answers)
