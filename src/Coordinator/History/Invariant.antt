-- ===== src/Coordinator/History/Invariant.antt =====
-- What holds of the coordinator's registry in every state that calls can lead to (coordinator/mod.rs).
use correctness_bench.Common.{
  ℕ, ◌-◌, ◌≤◌, ◌≡◌, refl, ◌∙◌, Bool, true, not, ◌&&◌, Option, none, some, List, [], ◌∷◌, ◌++◌,
  String, arith, str_eq, str_eq_iff, ltb, leb, lookup, keep, max,
}
use correctness_bench.Coordinator.{Worker, worker_of, contract_version, new}
use correctness_bench.Coordinator.History.{
  Event, registers, heartbeats, scans, starts, ends, aborts, replay,
}
use correctness_bench.Coordinator.History.Refines.{
  see, see_all, replay-see_all, replay-Unique, replay-append,
}

-- what a call reads on the clock before it takes the lock; `start`, if it reads nothing
abbrev pub moment : ℕ → Event → ℕ
moment start (registers now info) = now
moment start (heartbeats now id) = now
moment start (scans now) = now
moment start (starts run_id handle) = start
moment start (ends run_id) = start
moment start (aborts run_id) = start

-- No call reads a time before `start`; beyond that the readings come in any order.
abbrev pub Since : ℕ → List Event → Type 0
Since start [] = Unit
Since start (e ∷ es) = (start ≤ moment start e) × Since start es

-- the latest of the readings, and of `last`
abbrev pub latest : ℕ → ℕ → List Event → ℕ
latest start last [] = last
latest start last (e ∷ es) = latest start (max last (moment start e)) es

-- An entry stands under its own identifier, is acceptable, and has its times between two moments.
abbrev pub fits : ℕ → ℕ → String → Option Worker → Bool
fits start now j none = true
fits start now j (some w) =
    str_eq w.worker_id j
    && str_eq w.contract_version contract_version
    && not (str_eq w.worker_id "")
    && not (str_eq w.address "")
    && leb start w.registered_at
    && leb w.registered_at now
    && leb start w.last_heartbeat
    && leb w.last_heartbeat now

fits-see :
    (start last : ℕ) (j : String) (e : Event) (known : Option Worker)
    → start ≤ moment start e
    → start ≤ last
    → fits start last j known ≡ true
    → fits start (max last (moment start e)) j (see j e known) ≡ true
unfolding worker_of
fits-see start last j (registers now info) none t s f = ground (arith, str_eq_iff info.worker_id j)
fits-see start last j (registers now info) (some w) t s f =
    ground (arith, str_eq_iff info.worker_id j)
fits-see start last j (heartbeats now id) none t s f = refl
fits-see start last j (heartbeats now id) (some w) t s f = ground arith
fits-see start last j (scans now) none t s f = refl
fits-see start last j (scans now) (some w) t s f = ground arith
fits-see start last j (starts run_id handle) none t s f = refl
fits-see start last j (starts run_id handle) (some w) t s f = ground arith
fits-see start last j (ends run_id) none t s f = refl
fits-see start last j (ends run_id) (some w) t s f = ground arith
fits-see start last j (aborts run_id) none t s f = refl
fits-see start last j (aborts run_id) (some w) t s f = ground arith

fits-see_all :
    (start last : ℕ) (j : String) (es : List Event) (known : Option Worker)
    → Since start es
    → start ≤ last
    → fits start last j known ≡ true
    → fits start (latest start last es) j (see_all j es known) ≡ true
fits-see_all start last j [] known c s f = f
fits-see_all start last j (e ∷ es) known (t, c) s f =
    fits-see_all start (max last (moment start e)) j es (see j e known) c (omega arith)
      (fits-see start last j e known t s f)

keep-recent :
    (now : ℕ) (known : Option Worker)
    → keep (λ w. not (ltb 3_000_000 (now - w.last_heartbeat))) known
      ≡ keep (λ w. leb (now - w.last_heartbeat) 3_000_000) known
keep-recent now none = refl
keep-recent now (some w) = ground arith

-- From the empty registry, after any calls and scans, whose readings of the clock may be in another
-- order than their locks but are not before `start`: an entry stands under its own identifier, has the
-- coordinator's contract version, an identifier and an address, and its registration and its last
-- heartbeat are neither before `start` nor after the latest of the readings. After a further scan, no
-- entry's last heartbeat is more than three seconds before that scan.
pub replay-fits :
    (start now : ℕ) (j : String) (es : List Event)
    → Since start es
    → (fits start (latest start start es) j (lookup j (replay es new).workers) ≡ true)
      × (lookup j (replay (es ++ (scans now ∷ [])) new).workers
          ≡ keep (λ w. leb (now - w.last_heartbeat) 3_000_000) (lookup j (replay es new).workers))
unfolding new lookup
replay-fits start now j es c =
    let seen = replay-see_all j es new tt in
    let after = replay es new in
    (
      rw seen (fits-see_all start start j es none c (omega arith) refl),
      rw (replay-append es (scans now ∷ []) new) (
          replay-see_all j (scans now ∷ []) after (replay-Unique es new tt)
          ∙ keep-recent now (lookup j after.workers)),
    )
