-- ===== src/Coordinator/History/Reaper.antt =====
-- When the heartbeat reaper takes a silent worker out (`spawn_heartbeat_reaper` of coordinator/mod.rs).
use correctness_bench.Common.{
  ℕ, zero, suc, ◌+◌, ◌-◌, ◌*◌, ◌/◌, ◌≤◌, ◌<◌, ◌≡◌, ◌∙◌, not, Option, none, some, String, arith,
  if◌then◌else◌, ltb, lookup, Unique, keep,
}
use correctness_bench.Coordinator.{Worker, CoordinatorState, heartbeat_dead_after, is_dead}
use correctness_bench.Coordinator.Liveness.{reap_dead_workers-lookup, reap-Unique}
use correctness_bench.Coordinator.History.{scan_at, reaped}

reaped-Unique :
    (start n : ℕ) (s : CoordinatorState) → Unique s.workers → Unique (reaped start n s).workers
unfolding reaped
reaped-Unique start zero s u = u
reaped-Unique start (suc n) s u =
    reap-Unique (scan_at start n) heartbeat_dead_after (reaped start n s)
      (reaped-Unique start n s u)

-- what the first `n` scans leave of an entry
abbrev left : ℕ → ℕ → Worker → Option Worker
left start n w = if ltb (w.last_heartbeat + 3_000_000) (start + n * 1_000_000) then none else some w

left-left :
    (start n : ℕ) (w : Worker)
    → keep (λ w. not (is_dead (scan_at start n) heartbeat_dead_after w)) (left start n w)
      ≡ left start (suc n) w
unfolding scan_at is_dead
left-left start n w = ground arith

left-start :
    (start : ℕ) (w : Worker) → start ≤ w.last_heartbeat + 3_000_000 → left start 0 w ≡ some w
left-start start w t = ground arith

-- A worker whose last heartbeat came no more than three seconds before the reaper's start, and which
-- sends no other: the scans leave its entry as it was up to three seconds after that heartbeat, and
-- every later one finds the worker gone or takes it out. Some scan comes later than that and at most
-- four seconds after the heartbeat.
pub reaped-lookup :
    (start n : ℕ) (id : String) (w : Worker) (s : CoordinatorState)
    → Unique s.workers
    → lookup id s.workers ≡ some w
    → start ≤ w.last_heartbeat + 3_000_000
    → (lookup id (reaped start n s).workers
        ≡ (if ltb (w.last_heartbeat + 3_000_000) (start + n * 1_000_000) then none else some w))
      × ((late : ℕ) × (w.last_heartbeat + 3_000_000 < scan_at start late)
          × (scan_at start late ≤ w.last_heartbeat + 4_000_000))
unfolding reaped scan_at
reaped-lookup start n id w s u e t =
    (entries n, ((w.last_heartbeat + 3_000_000 - start) / 1_000_000, omega arith, omega arith))
  where
    entries : (n : ℕ) → lookup id (reaped start n s).workers ≡ left start n w
    entries zero = e ∙ ground (arith, left-start start w t)
    entries (suc n) =
        let before = reaped start n s in
        reap_dead_workers-lookup (scan_at start n) heartbeat_dead_after id before
          (reaped-Unique start n s u)
        ∙ rw (entries n) (left-left start n w)
