-- ===== src/Registration/Fleet.antt =====
-- What the registry holds of a worker node, which sends registrations and no heartbeats
-- (engine/src/bin/worker_node.rs against engine/src/coordinator/mod.rs).
use correctness_bench.Common.{
  ℕ, ◌+◌, ◌-◌, ◌≡◌, refl, ◌∙◌, Bool, true, not, ◌||◌, Option, none, some, List, [], ◌∷◌, String,
  arith, ltb, if◌then◌else◌, any, lookup, lookup-insert, str_eq_iff, Unique, insert-Unique, keep,
  insert,
}
use correctness_bench.Coordinator.{
  Worker, CoordinatorState, heartbeat_dead_after, is_dead, reap_dead_workers, worker_of, register,
}
use correctness_bench.Coordinator.Liveness.{reap_dead_workers-lookup, reap-Unique}
use correctness_bench.Registration.{answered, info_of, dial_and_register, reregister, reregister_at}
use correctness_bench.Registration.Backoff.{is_complete}

-- the reaper's scans at these moments
unfoldable pub scan_all : List ℕ → CoordinatorState → CoordinatorState
scan_all [] s = s
scan_all (now ∷ scans) s = scan_all scans (reap_dead_workers now heartbeat_dead_after s).0

keep-keep :
    (p q : Worker → Bool) (o : Option Worker)
    → keep (λ w. not (q w)) (keep (λ w. not (p w)) o) ≡ keep (λ w. not (p w || q w)) o
keep-keep p q none = refl
keep-keep p q (some w) = ground arith

-- Scans leave an entry that none of them finds dead.
scan_all-lookup :
    (id : String) (scans : List ℕ) (s : CoordinatorState)
    → Unique s.workers
    → lookup id (scan_all scans s).workers
      ≡ keep
          (λ w. not (any (λ now. is_dead now heartbeat_dead_after w) scans))
          (lookup id s.workers)
unfolding scan_all
scan_all-lookup id [] s u = ground arith
scan_all-lookup id (now ∷ scans) s u =
    let one = reap_dead_workers-lookup now heartbeat_dead_after id s u in
    let s' = (reap_dead_workers now heartbeat_dead_after s).0 in
    scan_all-lookup id scans s' (reap-Unique now heartbeat_dead_after s u)
    ∙ rw one (
        keep-keep (is_dead now heartbeat_dead_after)
          (λ w. any (λ n. is_dead n heartbeat_dead_after w) scans) (lookup id s.workers))

spared : (b : Bool) (w : Worker) → keep (λ v. not b) (some w) ≡ (if b then none else some w)
spared b w = ground arith

pub reregister_entry :
    (worker_id address : String) (max_rps t : ℕ) (s : CoordinatorState)
    → is_complete worker_id address ≡ true
    → let info = info_of worker_id address max_rps in
      reregister (answered t) info s
      ≡ (record s { workers = insert worker_id (worker_of t info) s.workers })
unfolding reregister dial_and_register info_of register
reregister_entry worker_id address max_rps t s ok = ground (arith, ok)

-- Whatever the coordinator knew before, as after a restart: the node's `n`-th re-registration, if it is
-- answered, puts the node into the registry, and there it stays until the first scan more than three
-- seconds after. Any such scan takes it out, up to the next re-registration seven seconds later.
pub reregister-scan_all :
    (worker_id address : String) (max_rps start n : ℕ) (scans : List ℕ) (s : CoordinatorState)
    → Unique s.workers
    → is_complete worker_id address ≡ true
    → let info = info_of worker_id address max_rps in
      let t = reregister_at start n in
      (lookup worker_id (scan_all scans (reregister (answered t) info s)).workers
        ≡ (if any (λ now. ltb 3_000_000 (now - t)) scans then none else some (worker_of t info)))
      × (reregister_at start (n + 1) ≡ t + 3_000_000 + 7_000_000)
unfolding reregister_at is_dead worker_of
reregister-scan_all worker_id address max_rps start n scans s u ok =
    let info = info_of worker_id address max_rps in
    let t = reregister_at start n in
    let w = worker_of t info in
    let here : lookup worker_id (insert worker_id w s.workers) ≡ some w =
      ground
        (arith, lookup-insert worker_id worker_id w s.workers, str_eq_iff worker_id worker_id) in
    let s' = record s { workers = insert worker_id w s.workers } in
    let after = scan_all-lookup worker_id scans s' (insert-Unique worker_id w s.workers u) in
    (
      rw (reregister_entry worker_id address max_rps t s ok) (after ∙ rw here (spared _ w)),
      omega arith,
    )
