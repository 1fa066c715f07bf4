-- ===== src/Coordinator/History/Refines.antt =====
-- What the registry says of one worker, and the list of runs of one run, after any history
-- (coordinator/mod.rs).
use correctness_bench.Common.{
  ℕ, ◌-◌, ◌≡◌, refl, ◌∙◌, not, ◌&&◌, Option, none, some, List, [], ◌∷◌, ◌++◌, String, arith, str_eq,
  str_eq_iff, if◌then◌else◌, ltb, lookup, insert, lookup-insert, Unique, insert-Unique, if_cases,
  option_cases, keep,
}
use correctness_bench.Proto.{WorkerInfo}
use correctness_bench.Coordinator.{
  Worker, CoordinatorState, heartbeat_dead_after, worker_of, is_dead, register_run, deregister_run,
  abort_run, register, heartbeat,
}
use correctness_bench.Coordinator.Liveness.{
  acceptable, reap_dead_workers-lookup, register-lookup, reap-Unique, heartbeat-Unique,
}
use correctness_bench.Coordinator.History.{
  Event, registers, heartbeats, scans, starts, ends, aborts, step, replay,
}

-- What a call does to what is known of the worker `j`, that worker alone being looked at.
abbrev pub see : String → Event → Option Worker → Option Worker
see j (registers now info) known =
    if acceptable info && str_eq info.worker_id j then some (worker_of now info) else known
see j (heartbeats now id) none = none
see j (heartbeats now id) (some w) =
    some (if str_eq id j then record w { last_heartbeat = now } else w)
see j (scans now) known = keep (λ w. not (ltb 3_000_000 (now - w.last_heartbeat))) known
see j (starts run_id handle) known = known
see j (ends run_id) known = known
see j (aborts run_id) known = known

abbrev pub see_all : String → List Event → Option Worker → Option Worker
see_all j [] known = known
see_all j (e ∷ es) known = see_all j es (see j e known)

register-workers :
    (now : ℕ) (info : WorkerInfo) (s : CoordinatorState)
    → (register now info s).0.workers ≡ (
        if acceptable info then insert info.worker_id (worker_of now info) s.workers else s.workers)
unfolding register
register-workers now info s = ground arith

register-Unique :
    (now : ℕ) (info : WorkerInfo) (s : CoordinatorState)
    → Unique s.workers
    → Unique (register now info s).0.workers
register-Unique now info s u = rw (register-workers now info s) (
    if_cases Unique (acceptable info) _ _
      (λ e. insert-Unique info.worker_id (worker_of now info) s.workers u) (λ e. u))

abort_run-workers :
    (run_id : String) (s : CoordinatorState) → (abort_run run_id s).0.workers ≡ s.workers
unfolding abort_run
abort_run-workers run_id s = ground arith

step-Unique : (e : Event) (s : CoordinatorState) → Unique s.workers → Unique (step e s).workers
unfolding step register_run deregister_run
step-Unique (registers now info) s u = register-Unique now info s u
step-Unique (heartbeats now id) s u = heartbeat-Unique now id s u
step-Unique (scans now) s u = reap-Unique now heartbeat_dead_after s u
step-Unique (starts run_id handle) s u = u
step-Unique (ends run_id) s u = u
step-Unique (aborts run_id) s u = rw (abort_run-workers run_id s) u

heartbeat-see :
    (now : ℕ) (id j : String) (s : CoordinatorState)
    → lookup j (heartbeat now id s).workers ≡ see j (heartbeats now id) (lookup j s.workers)
unfolding heartbeat
heartbeat-see now id j s =
    option_cases (λ r. lookup j r.workers ≡ see j (heartbeats now id) (lookup j s.workers))
      (lookup id s.workers) s
      (λ w. record s { workers = insert id (record w { last_heartbeat = now }) s.workers })
      (λ e. ground (arith, str_eq_iff id j))
      (λ w e.
        ground (
          arith,
          str_eq_iff id j,
          lookup-insert id j (record w { last_heartbeat = now }) s.workers,
        ))

step-see :
    (j : String) (e : Event) (s : CoordinatorState)
    → Unique s.workers
    → lookup j (step e s).workers ≡ see j e (lookup j s.workers)
unfolding step register_run deregister_run is_dead
step-see j (registers now info) s u = (register-lookup now info s j).1
step-see j (heartbeats now id) s u = heartbeat-see now id j s
step-see j (scans now) s u = reap_dead_workers-lookup now heartbeat_dead_after j s u
step-see j (starts run_id handle) s u = refl
step-see j (ends run_id) s u = refl
step-see j (aborts run_id) s u = rw (abort_run-workers run_id s) refl

-- From a registry without duplicate identifiers and after any calls and scans, in any order, what
-- it holds of a worker is what one sees who follows that worker alone: its last accepted
-- registration with its last heartbeat, unless a scan came more than three seconds after that
-- heartbeat and no registration since.
pub replay-see_all :
    (j : String) (es : List Event) (s : CoordinatorState)
    → Unique s.workers
    → lookup j (replay es s).workers ≡ see_all j es (lookup j s.workers)
unfolding replay
replay-see_all j [] s u = refl
replay-see_all j (e ∷ es) s u =
    let now = step-see j e s u in replay-see_all j es (step e s) (step-Unique e s u) ∙ rw now refl

pub replay-Unique :
    (es : List Event) (s : CoordinatorState) → Unique s.workers → Unique (replay es s).workers
unfolding replay
replay-Unique [] s u = u
replay-Unique (e ∷ es) s u = replay-Unique es (step e s) (step-Unique e s u)

pub replay-append :
    (es fs : List Event) (s : CoordinatorState) → replay (es ++ fs) s ≡ replay fs (replay es s)
unfolding replay
replay-append [] fs s = refl
replay-append (e ∷ es) fs s = replay-append es fs (step e s)
