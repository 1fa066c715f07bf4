-- ===== src/Coordinator/History/Attentive.antt =====
-- How long a registered worker stays in the registry, by its heartbeats (coordinator/mod.rs).
use correctness_bench.Common.{
  ℕ, ◌-◌, ◌≡◌, refl, ◌∙◌, Bool, false, ◌&&◌, ◌||◌, none, some, List, [], ◌∷◌, String, arith, str_eq,
  if◌then◌else◌, ltb, lookup, Unique,
}
use correctness_bench.Coordinator.{Worker, CoordinatorState}
use correctness_bench.Coordinator.Liveness.{acceptable}
use correctness_bench.Coordinator.History.{
  Event, registers, heartbeats, scans, starts, ends, aborts, replay,
}
use correctness_bench.Coordinator.History.Refines.{see, see_all, replay-see_all}

-- an accepted registration under this identifier
abbrev pub registers_as : String → Event → Bool
registers_as j (registers now info) = acceptable info && str_eq info.worker_id j
registers_as j (heartbeats now id) = false
registers_as j (scans now) = false
registers_as j (starts run_id handle) = false
registers_as j (ends run_id) = false
registers_as j (aborts run_id) = false

-- the moment of the last heartbeat, if one at `beat` came before
abbrev pub next_beat : String → Event → ℕ → ℕ
next_beat j (heartbeats now id) beat = if str_eq id j then now else beat
next_beat j (registers now info) beat = beat
next_beat j (scans now) beat = beat
next_beat j (starts run_id handle) beat = beat
next_beat j (ends run_id) beat = beat
next_beat j (aborts run_id) beat = beat

abbrev pub last_beat : String → List Event → ℕ → ℕ
last_beat j [] beat = beat
last_beat j (e ∷ es) beat = last_beat j es (next_beat j e beat)

-- a scan more than three seconds after the last heartbeat
abbrev pub finds_silent : Event → ℕ → Bool
finds_silent (scans now) beat = ltb 3_000_000 (now - beat)
finds_silent (registers now info) beat = false
finds_silent (heartbeats now id) beat = false
finds_silent (starts run_id handle) beat = false
finds_silent (ends run_id) beat = false
finds_silent (aborts run_id) beat = false

-- whether some scan comes more than three seconds after the heartbeat that was then the last
abbrev pub falls_silent : String → List Event → ℕ → Bool
falls_silent j [] beat = false
falls_silent j (e ∷ es) beat = finds_silent e beat || falls_silent j es (next_beat j e beat)

abbrev pub any_registers_as : String → List Event → Bool
any_registers_as j [] = false
any_registers_as j (e ∷ es) = registers_as j e || any_registers_as j es

see-absent : (j : String) (e : Event) → registers_as j e ≡ false → see j e none ≡ none
see-absent j (registers now info) h = rw h refl
see-absent j (heartbeats now id) h = refl
see-absent j (scans now) h = refl
see-absent j (starts run_id handle) h = refl
see-absent j (ends run_id) h = refl
see-absent j (aborts run_id) h = refl

see_all-absent :
    (j : String) (es : List Event) → any_registers_as j es ≡ false → see_all j es none ≡ none
see_all-absent j [] h = refl
see_all-absent j (e ∷ es) h =
    rw (see-absent j e (ground arith)) (see_all-absent j es (ground arith))

see-present :
    (j : String) (e : Event) (w : Worker)
    → registers_as j e ≡ false
    → see j e (some w) ≡ (
        if finds_silent e w.last_heartbeat
        then none
        else some (record w { last_heartbeat = next_beat j e w.last_heartbeat }))
see-present j (registers now info) w h = rw h refl
see-present j (heartbeats now id) w h = ground arith
see-present j (scans now) w h = ground arith
see-present j (starts run_id handle) w h = refl
see-present j (ends run_id) w h = refl
see-present j (aborts run_id) w h = refl

see_all-present :
    (j : String) (es : List Event) (w : Worker)
    → any_registers_as j es ≡ false
    → see_all j es (some w) ≡ (
        if falls_silent j es w.last_heartbeat
        then none
        else some (record w { last_heartbeat = last_beat j es w.last_heartbeat }))
see_all-present j [] w h = refl
see_all-present j (e ∷ es) w h =
    let beat = next_beat j e w.last_heartbeat in
    rw (see-present j e w (ground arith)) (
      ground (
        arith,
        see_all-absent j es (ground arith),
        see_all-present j es (record w { last_heartbeat = beat }) (ground arith),
      ))

-- A worker of a registry without duplicate identifiers that does not register again, whatever else
-- the coordinator is asked: it is in the registry, with its last heartbeat, unless a scan came more
-- than three seconds after the heartbeat that was then its last. From then on it is not, whatever
-- heartbeats it still sends.
pub replay-last_beat :
    (j : String) (es : List Event) (w : Worker) (s : CoordinatorState)
    → Unique s.workers
    → lookup j s.workers ≡ some w
    → any_registers_as j es ≡ false
    → lookup j (replay es s).workers ≡ (
        if falls_silent j es w.last_heartbeat
        then none
        else some (record w { last_heartbeat = last_beat j es w.last_heartbeat }))
replay-last_beat j es w s u here quiet =
    replay-see_all j es s u ∙ rw here (see_all-present j es w quiet)
