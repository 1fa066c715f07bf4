-- ===== src/Coordinator/History/Runs.antt =====
-- The runs in flight and the cancelled tokens after any history (coordinator/mod.rs).
use correctness_bench.Common.{
  ℕ, ◌≡◌, refl, ◌∙◌, Bool, true, false, not, ◌&&◌, ◌||◌, ◌==◌, Option, none, some, List, [], ◌∷◌,
  String, arith, str_eq, str_eq_iff, lookup, lookup-insert, lookup-remove, any,
}
use correctness_bench.Proto.{WorkerInfo}
use correctness_bench.Coordinator.{
  RunHandle, CoordinatorState, reap_dead_workers, register_run, deregister_run, abort_run, register,
  heartbeat, fan_out_aborts,
}
use correctness_bench.Coordinator.History.{
  Event, registers, heartbeats, scans, starts, ends, aborts, step, replay,
}

abbrev pub holds : ℕ → Option RunHandle → Bool
holds token none = false
holds token (some handle) = handle.cancel == token

-- The run `run_id`, and no other, is in flight with this token.
abbrev pub Owns : ℕ → String → CoordinatorState → Type 0
Owns token run_id s = (j : String) → holds token (lookup j s.runs) ≡ str_eq run_id j

-- a call that neither starts nor ends this run
abbrev pub spares : String → Event → Bool
spares run_id (starts j handle) = not (str_eq run_id j)
spares run_id (ends j) = not (str_eq run_id j)
spares run_id (registers now info) = true
spares run_id (heartbeats now id) = true
spares run_id (scans now) = true
spares run_id (aborts j) = true

-- a call that starts no run with this token
abbrev pub other_token : ℕ → Event → Bool
other_token token (starts j handle) = not (handle.cancel == token)
other_token token (ends j) = true
other_token token (registers now info) = true
other_token token (heartbeats now id) = true
other_token token (scans now) = true
other_token token (aborts j) = true

abbrev pub leave : ℕ → String → List Event → Bool
leave token run_id [] = true
leave token run_id (e ∷ es) = spares run_id e && other_token token e && leave token run_id es

abbrev pub is_abort : String → Event → Bool
is_abort run_id (aborts j) = str_eq run_id j
is_abort run_id (starts j handle) = false
is_abort run_id (ends j) = false
is_abort run_id (registers now info) = false
is_abort run_id (heartbeats now id) = false
is_abort run_id (scans now) = false

abbrev pub cancelled_by : ℕ → CoordinatorState → Bool
cancelled_by token s = any (λ t. t == token) s.cancelled

register-runs :
    (now : ℕ) (info : WorkerInfo) (s : CoordinatorState)
    → ((register now info s).0.runs ≡ s.runs) × ((register now info s).0.cancelled ≡ s.cancelled)
unfolding register
register-runs now info s = ground arith

heartbeat-runs :
    (now : ℕ) (id : String) (s : CoordinatorState)
    → ((heartbeat now id s).runs ≡ s.runs) × ((heartbeat now id s).cancelled ≡ s.cancelled)
unfolding heartbeat
heartbeat-runs now id s = ground arith

abort_run-runs :
    (token : ℕ) (run_id j : String) (s : CoordinatorState)
    → Owns token run_id s
    → ((abort_run j s).0.runs ≡ s.runs)
      × (cancelled_by token (abort_run j s).0 ≡ (str_eq run_id j || cancelled_by token s))
unfolding abort_run
abort_run-runs token run_id j s o = ground (arith, o j)

-- What one call does to the runs and to a token that a run owns.
step-Owns :
    (token : ℕ) (run_id : String) (e : Event) (s : CoordinatorState)
    → (spares run_id e && other_token token e) ≡ true
    → Owns token run_id s
    → Owns token run_id (step e s)
      × (cancelled_by token (step e s) ≡ (is_abort run_id e || cancelled_by token s))
unfolding step register_run deregister_run reap_dead_workers
step-Owns token run_id (registers now info) s l o =
    let same = register-runs now info s in ((λ j. ground (arith, same, o j)), ground (arith, same))
step-Owns token run_id (heartbeats now id) s l o =
    let same = heartbeat-runs now id s in ((λ j. ground (arith, same, o j)), ground (arith, same))
step-Owns token run_id (scans now) s l o = (o, refl)
step-Owns token run_id (starts k handle) s l o = (
  (λ j. ground (
    arith,
    lookup-insert k j handle s.runs,
    o j,
    str_eq_iff run_id j,
    str_eq_iff k j,
    str_eq_iff run_id k,
  )),
  refl,
)
step-Owns token run_id (ends k) s l o = (
  (λ j. ground (
    arith,
    lookup-remove k j s.runs,
    o j,
    str_eq_iff run_id j,
    str_eq_iff k j,
    str_eq_iff run_id k,
  )),
  refl,
)
step-Owns token run_id (aborts k) s l o =
    let same = abort_run-runs token run_id k s o in ((λ j. rw same.0 (o j)), same.1)

-- While no call ends or restarts a run or reuses its token, the run stays in flight, and its token is
-- cancelled just when it was already, or when an abort of that run comes.
pub replay-cancelled_by :
    (token : ℕ) (run_id : String) (es : List Event) (s : CoordinatorState)
    → leave token run_id es ≡ true
    → Owns token run_id s
    → Owns token run_id (replay es s)
      × (cancelled_by token (replay es s) ≡ (any (is_abort run_id) es || cancelled_by token s))
unfolding replay
replay-cancelled_by token run_id [] s l o = (o, refl)
replay-cancelled_by token run_id (e ∷ es) s l o =
    let now = step-Owns token run_id e s (ground arith) o in
    let rest = replay-cancelled_by token run_id es (step e s) (ground arith) now.0 in
    (rest.0, ground (arith, rest.1, now.1))

step-lookup :
    (run_id : String) (e : Event) (s : CoordinatorState)
    → spares run_id e ≡ true
    → lookup run_id (step e s).runs ≡ lookup run_id s.runs
unfolding step register_run deregister_run reap_dead_workers abort_run
step-lookup run_id (registers now info) s l = ground (arith, register-runs now info s)
step-lookup run_id (heartbeats now id) s l = ground (arith, heartbeat-runs now id s)
step-lookup run_id (scans now) s l = refl
step-lookup run_id (starts k handle) s l =
    ground (arith, lookup-insert k run_id handle s.runs, str_eq_iff k run_id, str_eq_iff run_id k)
step-lookup run_id (ends k) s l =
    ground (arith, lookup-remove k run_id s.runs, str_eq_iff k run_id, str_eq_iff run_id k)
step-lookup run_id (aborts k) s l = ground arith

abbrev pub spare : String → List Event → Bool
spare run_id [] = true
spare run_id (e ∷ es) = spares run_id e && spare run_id es

pub replay-lookup :
    (run_id : String) (es : List Event) (s : CoordinatorState)
    → spare run_id es ≡ true
    → lookup run_id (replay es s).runs ≡ lookup run_id s.runs
unfolding replay
replay-lookup run_id [] s l = refl
replay-lookup run_id (e ∷ es) s l =
    replay-lookup run_id es (step e s) (ground arith) ∙ step-lookup run_id e s (ground arith)

-- Whatever other calls come between, as long as none starts or ends this run: an abort answers true
-- and is sent to each of the run's workers. Once the run's end has been noted, in any state, an
-- abort of its identifier is refused, reaches no worker and changes nothing.
pub abort_run-replay :
    (run_id : String) (handle : RunHandle) (es : List Event) (s t : CoordinatorState)
    → spare run_id es ≡ true
    → ((abort_run run_id (replay es (register_run run_id handle s))).1
        ≡ (true, fan_out_aborts run_id handle.worker_addrs))
      × (abort_run run_id (deregister_run run_id t) ≡ (deregister_run run_id t, (false, [])))
unfolding abort_run register_run deregister_run
abort_run-replay run_id handle es s t l =
    let here = replay-lookup run_id es (register_run run_id handle s) l in
    let put = lookup-insert run_id run_id handle s.runs in
    let gone = lookup-remove run_id run_id t.runs in
    (
      ground (arith, here, put, str_eq_iff run_id run_id),
      ground (arith, gone, str_eq_iff run_id run_id),
    )
