-- ===== src/Coordinator/Liveness.antt =====
-- Who is in the registry, and what an abort reaches (coordinator/mod.rs).
use correctness_bench.Common.{
  ℕ, ◌+◌, ◌≤◌, ◌≡◌, refl, Bool, true, false, not, ◌&&◌, ◌||◌, Option, none, some, List, [], ◌∷◌,
  String, arith, str_eq, str_eq_iff, if◌then◌else◌, lookup, insert, remove, lookup-insert,
  lookup-remove, Unique, insert-Unique, remove-Unique, option_cases, keep,
}
use correctness_bench.Proto.{WorkerInfo}
use correctness_bench.Coordinator.{
  Worker, RunHandle, CoordinatorState, contract_version, worker_of, is_dead, dead, remove_all,
  reap_dead_workers, register_run, deregister_run, is_run_active, fan_out_aborts, abort_run,
  register, heartbeat,
}

abbrev named : String → List String → Bool
named j [] = false
named j (id ∷ ids) = str_eq id j || named j ids

lookup-remove_all :
    (j : String) (ids : List String) (m : List (String × Worker))
    → lookup j (remove_all ids m) ≡ (if named j ids then none else lookup j m)
unfolding remove_all
lookup-remove_all j [] m = refl
lookup-remove_all j (id ∷ ids) m =
    ground (arith, lookup-remove_all j ids (remove id m), lookup-remove id j m)

abbrev dead_entry : ℕ → ℕ → Option Worker → Bool
dead_entry now dead_after none = false
dead_entry now dead_after (some w) = is_dead now dead_after w

dead-named-none :
    (now d : ℕ) (j : String) (m : List (String × Worker))
    → lookup j m ≡ none
    → named j (dead now d m) ≡ false
unfolding lookup dead
dead-named-none now d j [] e = refl
dead-named-none now d j ((i, w) ∷ m) e = ground (arith, dead-named-none now d j m)

dead-named :
    (now d : ℕ) (j : String) (m : List (String × Worker))
    → Unique m
    → named j (dead now d m) ≡ dead_entry now d (lookup j m)
unfolding lookup dead
dead-named now d j [] u = refl
dead-named now d j ((i, w) ∷ m) (fresh, u) =
    ground (arith, str_eq_iff i j, dead-named now d j m u, dead-named-none now d j m)

-- In a registry without duplicate identifiers, a scan evicts a worker just when its last heartbeat is
-- older than the limit, and leaves the entry of every other worker as it was.
pub reap_dead_workers-lookup :
    (now dead_after : ℕ) (j : String) (s : CoordinatorState)
    → Unique s.workers
    → lookup j (reap_dead_workers now dead_after s).0.workers
      ≡ keep (λ w. not (is_dead now dead_after w)) (lookup j s.workers)
unfolding reap_dead_workers
reap_dead_workers-lookup now d j s u =
    ground
      (arith, lookup-remove_all j (dead now d s.workers) s.workers, dead-named now d j s.workers u)

remove_all-Unique :
    (ids : List String) (m : List (String × Worker)) → Unique m → Unique (remove_all ids m)
unfolding remove_all
remove_all-Unique [] m u = u
remove_all-Unique (id ∷ ids) m u = remove_all-Unique ids (remove id m) (remove-Unique id m u)

pub reap-Unique :
    (now d : ℕ) (s : CoordinatorState)
    → Unique s.workers
    → Unique (reap_dead_workers now d s).0.workers
unfolding reap_dead_workers
reap-Unique now d s u = remove_all-Unique (dead now d s.workers) s.workers u

pub heartbeat-Unique :
    (now : ℕ) (id : String) (s : CoordinatorState)
    → Unique s.workers
    → Unique (heartbeat now id s).workers
unfolding heartbeat
heartbeat-Unique now id s u =
    option_cases (λ r. Unique r.workers) (lookup id s.workers) s
      (λ w. record s { workers = insert id (record w { last_heartbeat = now }) s.workers }) (λ e. u)
      (λ w e. insert-Unique id (record w { last_heartbeat = now }) s.workers u)

heartbeat-lookup :
    (now : ℕ) (id : String) (s : CoordinatorState) (w : Worker)
    → lookup id s.workers ≡ some w
    → lookup id (heartbeat now id s).workers ≡ some (record w { last_heartbeat = now })
unfolding heartbeat
heartbeat-lookup now id s w e =
    ground
      (arith, lookup-insert id id (record w { last_heartbeat = now }) s.workers, str_eq_iff id id)

-- After a heartbeat of a registered worker, a scan that comes no later than the limit keeps the worker,
-- with that heartbeat, however old its previous one was.
pub reap-heartbeat :
    (at now dead_after : ℕ) (id : String) (s : CoordinatorState) (w : Worker)
    → Unique s.workers
    → lookup id s.workers ≡ some w
    → now ≤ at + dead_after
    → lookup id (reap_dead_workers now dead_after (heartbeat at id s)).0.workers
      ≡ some (record w { last_heartbeat = at })
unfolding is_dead
reap-heartbeat at now d id s w u e t = ground (
  arith,
  reap_dead_workers-lookup now d id (heartbeat at id s) (heartbeat-Unique at id s u),
  heartbeat-lookup at id s w e,
)

-- what the coordinator asks of a worker
abbrev pub acceptable : WorkerInfo → Bool
acceptable info =
    str_eq info.contract_version contract_version
    && not (str_eq info.worker_id "")
    && not (str_eq info.address "")

-- A registration is accepted just when it has the coordinator's contract version, an identifier and an
-- address. Then the worker's entry is the new one, also when it was registered before; no other entry
-- changes, and a refused registration changes none.
pub register-lookup :
    (now : ℕ) (info : WorkerInfo) (s : CoordinatorState) (j : String)
    → ((register now info s).1.accepted ≡ acceptable info)
      × (lookup j (register now info s).0.workers ≡ (
          if acceptable info && str_eq info.worker_id j
          then some (worker_of now info)
          else lookup j s.workers))
unfolding register
register-lookup now info s j =
    ground (arith, lookup-insert info.worker_id j (worker_of now info) s.workers)

-- An abort of a run in flight, and of no other, cancels the run's token and is sent to each of its
-- workers; once the run is taken off the list an abort is refused and changes nothing.
pub abort_run-register_run :
    (run_id : String) (handle : RunHandle) (s : CoordinatorState)
    → (abort_run run_id (register_run run_id handle s) ≡ (
      record (register_run run_id handle s) { cancelled = handle.cancel ∷ s.cancelled },
      (true, fan_out_aborts run_id handle.worker_addrs),
    ))
      × (is_run_active run_id (deregister_run run_id (register_run run_id handle s)) ≡ false)
      × (abort_run run_id (deregister_run run_id (register_run run_id handle s))
          ≡ (deregister_run run_id (register_run run_id handle s), (false, [])))
unfolding abort_run register_run deregister_run is_run_active
abort_run-register_run run_id handle s =
    let there = lookup-insert run_id run_id handle s.runs in
    let gone = lookup-remove run_id run_id (insert run_id handle s.runs) in
    ground (arith, there, gone, str_eq_iff run_id run_id)
