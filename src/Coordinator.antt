-- ===== src/Coordinator.antt =====
-- engine/src/coordinator/mod.rs: the registry of workers, the runs in flight, and the two calls that a
-- worker makes. A moment and a duration are in microseconds, a cancellation token is a number.
pub mod Liveness
pub mod History
pub mod Process
pub mod Dispatch
pub mod Aggregate
pub mod Admin
use correctness_bench.Common.{
  ℕ, ◌-◌, Bool, true, false, Option, none, some, List, [], ◌∷◌, map, String, str_eq, ltb, not, ◌&&◌,
  ◌||◌, if◌then◌else◌, lookup, insert, remove, codes, starts_with,
}
use correctness_bench.Proto.{WorkerInfo}

pub record Worker : Type 0 where
  pub worker_id : String
  pub address : String
  pub contract_version : String
  pub max_rps : ℕ
  pub registered_at : ℕ
  pub last_heartbeat : ℕ

abbrev pub contract_version : String
contract_version = "1.0.0"

abbrev pub reaper_scan_interval : ℕ
reaper_scan_interval = 1_000_000

abbrev pub heartbeat_dead_after : ℕ
heartbeat_dead_after = 3_000_000

pub record RunHandle : Type 0 where
  pub worker_addrs : List String
  pub cancel : ℕ

-- the state, with the tokens cancelled so far
pub record CoordinatorState : Type 0 where
  pub workers : List (String × Worker)
  pub runs : List (String × RunHandle)
  pub cancelled : List ℕ

-- `CoordinatorState::new`
unfoldable pub new : CoordinatorState
new = record { workers = []; runs = []; cancelled = [] }

unfoldable pub list_workers : CoordinatorState → List Worker
list_workers s = map (λ (id, w). w) s.workers

-- `now.duration_since(w.last_heartbeat) > dead_after`
unfoldable pub is_dead : ℕ → ℕ → Worker → Bool
is_dead now dead_after w = ltb dead_after (now - w.last_heartbeat)

unfoldable pub dead : ℕ → ℕ → List (String × Worker) → List String
dead now dead_after [] = []
dead now dead_after ((id, w) ∷ m) =
    if is_dead now dead_after w then id ∷ dead now dead_after m else dead now dead_after m

unfoldable pub remove_all : List String → List (String × Worker) → List (String × Worker)
remove_all [] m = m
remove_all (id ∷ ids) m = remove_all ids (remove id m)

unfoldable pub reap_dead_workers : ℕ → ℕ → CoordinatorState → CoordinatorState × List String
unfolding dead remove_all
reap_dead_workers now dead_after s =
    let ids = dead now dead_after s.workers in
    (record s { workers = remove_all ids s.workers }, ids)

unfoldable pub register_run : String → RunHandle → CoordinatorState → CoordinatorState
register_run run_id handle s = record s { runs = insert run_id handle s.runs }

unfoldable pub deregister_run : String → CoordinatorState → CoordinatorState
deregister_run run_id s = record s { runs = remove run_id s.runs }

unfoldable pub is_run_active : String → CoordinatorState → Bool
is_run_active run_id s = elim (lookup run_id s.runs) [ none ↦ false | some handle ↦ true ]

-- where a worker is dialled: whether `http://` is put before the address, and the address
unfoldable pub worker_url : String → Bool × String
worker_url addr = (
  not (starts_with (codes "http://") (codes addr) || starts_with (codes "https://") (codes addr)),
  addr,
)

-- the `AbortRequest` that goes to one worker
pub record AbortCall : Type 0 where
  pub url : Bool × String
  pub run_id : String

unfoldable pub fan_out_aborts : String → List String → List AbortCall
fan_out_aborts run_id addrs = map (λ a. record { url = worker_url a; run_id = run_id }) addrs

-- `abort_run`: the state, the answer, and the calls that it makes
unfoldable pub abort_run : String → CoordinatorState → CoordinatorState × (Bool × List AbortCall)
abort_run run_id s = elim (lookup run_id s.runs) [
  | none ↦ (s, (false, []))
  | some handle ↦ (
    record s { cancelled = handle.cancel ∷ s.cancelled },
    (true, fan_out_aborts run_id handle.worker_addrs),
  )
]

-- the `reason` of a refused registration
pub data Refusal : Type 0 where
  contract_version_mismatch : String → Refusal
  worker_id_and_address_required : Refusal

-- `accepted` and `reason`; an accepted one has the empty reason
pub record RegisterAck : Type 0 where
  pub accepted : Bool
  pub reason : Option Refusal

-- the entry that a registration makes
unfoldable pub worker_of : ℕ → WorkerInfo → Worker
worker_of now info = record {
  worker_id = info.worker_id;
  address = info.address;
  contract_version = info.contract_version;
  max_rps = info.max_rps;
  registered_at = now;
  last_heartbeat = now;
}

unfoldable pub register : ℕ → WorkerInfo → CoordinatorState → CoordinatorState × RegisterAck
unfolding worker_of
register now info s =
    if not (str_eq info.contract_version contract_version)
    then (
      s,
      record {
        accepted = false;
        reason = some (Refusal.contract_version_mismatch info.contract_version);
      },
    )
    else if str_eq info.worker_id "" || str_eq info.address ""
    then (s, record { accepted = false; reason = some Refusal.worker_id_and_address_required })
    else (
      record s { workers = insert info.worker_id (worker_of now info) s.workers },
      record { accepted = true; reason = none },
    )

-- one message of the stream of `heartbeat`, which is always acknowledged
unfoldable pub heartbeat : ℕ → String → CoordinatorState → CoordinatorState
heartbeat now worker_id s = elim (lookup worker_id s.workers) [
  | none ↦ s
  | some w ↦ record s { workers = insert worker_id (record w { last_heartbeat = now }) s.workers }
]
