-- ===== src/Registration.antt =====
-- engine/src/bin/worker_node.rs: how a worker node announces itself to the coordinator, at its start and
-- every ten seconds after. What becomes of each call is an input; a moment is in microseconds. The text
-- of an address, which the standard library prints, is a parameter.
pub mod Backoff
pub mod Fleet
pub mod Alone
use correctness_bench.Common.{
  ℕ, zero, suc, ◌+◌, ◌-◌, ◌*◌, min, Bool, true, false, ◌⊎◌, inl, inr, Option, none, some, List, [],
  ◌∷◌, String, ltb, if◌then◌else◌,
}
use correctness_bench.Proto.{WorkerInfo}
use correctness_bench.Coordinator.{
  CoordinatorState, Refusal, RegisterAck, contract_version, register,
}

-- `--listen`, as `SocketAddr` shows it: whether its address is unspecified, its port, and its text
pub record Listen : Type 0 where
  pub is_unspecified : Bool
  pub port : ℕ
  pub text : String

-- the address that the coordinator dials back; `host_port` prints "{}:{}"
unfoldable pub address_of : (String → ℕ → String) → Listen → Option String → Option String → String
address_of host_port listen hostname (some address) = address
address_of host_port listen hostname none =
    let host : String = elim hostname [ none ↦ "127.0.0.1" | some h ↦ h ] in
    if listen.is_unspecified then host_port host listen.port else listen.text

-- What becomes of a call: it does not reach the coordinator, it does at some moment, or it does and the
-- answer is lost.
pub data Attempt : Type 0 where
  unreachable : Attempt
  answered : ℕ → Attempt
  unanswered : ℕ → Attempt

-- the message that a node sends
unfoldable pub info_of : String → String → ℕ → WorkerInfo
info_of worker_id address max_rps = record {
  worker_id = worker_id;
  address = address;
  contract_version = contract_version;
  max_rps = max_rps;
}

-- `dial_and_register`, with what the coordinator does
unfoldable pub dial_and_register :
    Attempt → WorkerInfo → CoordinatorState → CoordinatorState × Option RegisterAck
dial_and_register unreachable info s = (s, none)
dial_and_register (answered now) info s = let (s', ack) = register now info s in (s', some ack)
dial_and_register (unanswered now) info s = let (s', ack) = register now info s in (s', none)

abbrev pub max_attempts : ℕ
max_attempts = 30

abbrev pub first_delay_ms : ℕ
first_delay_ms = 200

abbrev pub longest_delay_ms : ℕ
longest_delay_ms = 5000

-- how `register_with_coordinator` returns
pub data Outcome : Type 0 where
  registered : Outcome
  rejected : Option Refusal → Outcome
  gave_up : ℕ → Outcome

-- The loop of `register_with_coordinator`, with what becomes of the `n`-th call: the coordinator's
-- state, the sleeps, and the result. It is on fuel.
unfoldable pub attempts :
    ℕ
    → (ℕ → Attempt)
    → WorkerInfo
    → ℕ
    → ℕ
    → CoordinatorState
    → CoordinatorState × (List ℕ × Option Outcome)
unfolding dial_and_register
attempts zero calls info attempt delay s = (s, ([], none))
attempts (suc fuel) calls info attempt delay s =
    let attempt' = attempt + 1 in
    let (s', answer) = dial_and_register (calls attempt') info s in
    let (end, (sleeps, outcome)) =
      attempts fuel calls info attempt' (min (delay * 2) longest_delay_ms) s' in
    elim answer [
      | none ↦
          if ltb attempt' max_attempts
          then (end, (delay ∷ sleeps, outcome))
          else (s', ([], some (gave_up attempt')))
      | some ack ↦
          if ack.accepted
          then (s', ([], some registered))
          else (s', ([], some (rejected ack.reason)))
    ]

unfoldable pub register_with_coordinator :
    (ℕ → Attempt) → WorkerInfo → CoordinatorState → CoordinatorState × (List ℕ × Option Outcome)
unfolding attempts
register_with_coordinator calls info s = attempts max_attempts calls info 0 first_delay_ms s

abbrev pub reregister_interval : ℕ
reregister_interval = 10_000_000

-- when the loop of `spawn_reregister_loop` calls for the `n`-th time, from 0, if it starts at `start`
unfoldable pub reregister_at : ℕ → ℕ → ℕ
reregister_at start n = start + (n + 1) * reregister_interval

-- One round of that loop: whatever the call returns, the loop goes on.
unfoldable pub reregister : Attempt → WorkerInfo → CoordinatorState → CoordinatorState
unfolding dial_and_register
reregister call info s = (dial_and_register call info s).0

-- A node whose registration failed does not serve.
abbrev pub serves : Option Outcome → Bool
serves (some registered) = true
serves (some (rejected r)) = false
serves (some (gave_up n)) = false
serves none = false

-- `main`: whether the node goes on to serve
unfoldable pub main : (ℕ → Attempt) → WorkerInfo → CoordinatorState → CoordinatorState × Bool
unfolding register_with_coordinator
main calls info s =
    let (s', (sleeps, outcome)) = register_with_coordinator calls info s in (s', serves outcome)
