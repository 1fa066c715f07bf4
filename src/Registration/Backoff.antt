-- ===== src/Registration/Backoff.antt =====
-- How long a worker node tries to register, and how that ends (`register_with_coordinator`,
-- engine/src/bin/worker_node.rs).
use native.Mathlib.Nat.{mul_comm, pow-suc}
use correctness_bench.Common.{
  ℕ, zero, suc, ◌+◌, ◌*◌, ◌^◌, ◌≤◌, ◌<◌, ◌≡◌, refl, ap, ◌∙◌, min, Bool, true, false, not, ◌||◌,
  Option, none, some, List, [], ◌∷◌, String, arith, ltb, ltb→lt, if◌then◌else◌, Bool-cases, inl,
  inr, if_cases, option_cases, length, str_eq, str_eq_iff, lookup, lookup-insert,
}
use correctness_bench.Proto.{WorkerInfo}
use correctness_bench.Coordinator.{
  Worker, CoordinatorState, Refusal, RegisterAck, register, worker_of,
}
use correctness_bench.Registration.{
  Attempt, unreachable, answered, unanswered, Outcome, registered, rejected, gave_up, info_of,
  dial_and_register, attempts, register_with_coordinator, serves, main,
}

-- the sleep after the `i`-th failure, from 0: twice the one before, up to five seconds
abbrev pub delay_of : ℕ → ℕ
delay_of i = min (200 * 2 ^ i) 5000

-- `n` sleeps in a row
abbrev pub waits : ℕ → ℕ → List ℕ
waits i zero = []
waits i (suc n) = delay_of i ∷ waits (i + 1) n

abbrev pub total : List ℕ → ℕ
total [] = 0
total (t ∷ ts) = t + total ts

delay_of_next : (i : ℕ) → min (delay_of i * 2) 5000 ≡ delay_of (i + 1)
delay_of_next i =
    let next : i + 1 ≡ suc i = omega arith in
    let two : 2 ^ (i + 1) ≡ 2 * 2 ^ i = rw next (pow-suc 2 i ∙ mul_comm _ _) in omega (arith, two)

-- It ends, with at most `n` sleeps, which take no longer than those after the `i`-th failure.
abbrev Ends : ℕ → ℕ → List ℕ × Option Outcome → Type 0
Ends i n (sleeps, outcome) =
    ((o : Outcome) × (outcome ≡ some o)) × (length sleeps ≤ n) × (total sleeps ≤ total (waits i n))

Ends-now : (i n : ℕ) (o : Outcome) → Ends i n ([], some o)
Ends-now i n o = ((o, refl), omega arith, omega arith)

-- one round, by what the rounds after it do
round-Ends :
    (fuel : ℕ) (calls : ℕ → Attempt) (info : WorkerInfo) (i : ℕ) (s : CoordinatorState)
    → (i + 1 < 30
        → let s' = (dial_and_register (calls (i + 1)) info s).0 in
          let r = (attempts fuel calls info (i + 1) (min (delay_of i * 2) 5000) s').1 in
          Ends i fuel (delay_of i ∷ r.0, r.1))
    → Ends i fuel (attempts (suc fuel) calls info i (delay_of i) s).1
unfolding attempts
round-Ends fuel calls info i s sleeps =
    let End = λ (r : CoordinatorState × (List ℕ × Option Outcome)). Ends i fuel r.1 in
    option_cases End (dial_and_register (calls (i + 1)) info s).1 _ _
      (λ _.
        if_cases End (ltb (i + 1) 30) _ _ (λ more. sleeps (ltb→lt (i + 1) 30 more))
          (λ _. Ends-now i fuel (gave_up (i + 1))))
      (λ ack _.
        if_cases End ack.accepted _ _ (λ _. Ends-now i fuel registered)
          (λ _. Ends-now i fuel (rejected ack.reason)))

attempts-Ends :
    (fuel : ℕ) (calls : ℕ → Attempt) (info : WorkerInfo) (i : ℕ) (s : CoordinatorState)
    → i + suc fuel ≡ 30
    → Ends i fuel (attempts (suc fuel) calls info i (delay_of i) s).1
attempts-Ends zero calls info i s e = round-Ends zero calls info i s (λ more. absurd (omega arith))
attempts-Ends (suc fuel) calls info i s e =
    let s' = (dial_and_register (calls (i + 1)) info s).0 in
    let (ends, short, quick) = attempts-Ends fuel calls info (i + 1) s' (omega arith) in
    round-Ends (suc fuel) calls info i s
      (λ more. rw (delay_of_next i) (ends, omega (arith, short), omega (arith, quick)))

-- Whatever becomes of its calls, a node ends its first registration within thirty attempts: the fuel is
-- enough for a result, and the node slept at most 29 times, for at most 126.2 seconds together.
pub register_with_coordinator_total :
    (calls : ℕ → Attempt) (info : WorkerInfo) (s : CoordinatorState)
    → let (sleeps, outcome) = (register_with_coordinator calls info s).1 in
      ((o : Outcome) × (outcome ≡ some o)) × (length sleeps ≤ 29) × (total sleeps ≤ 126_200)
unfolding register_with_coordinator
register_with_coordinator_total calls info s = attempts-Ends 29 calls info 0 s refl

abbrev pub is_answered : Attempt → Bool
is_answered (answered t) = true
is_answered _ = false

-- whether a node has what the coordinator asks of it
abbrev pub is_complete : String → String → Bool
is_complete worker_id address = not (str_eq worker_id "" || str_eq address "")

-- what the first answer makes of the node
abbrev pub outcome_of : String → String → Outcome
outcome_of worker_id address =
    if is_complete worker_id address
    then registered
    else rejected (some Refusal.worker_id_and_address_required)

round_answered :
    (fuel : ℕ) (calls : ℕ → Attempt) (info : WorkerInfo) (i d : ℕ) (s s' : CoordinatorState)
    (ack : RegisterAck)
    → dial_and_register (calls (i + 1)) info s ≡ (s', some ack)
    → attempts (suc fuel) calls info i d s
      ≡ (s', ([], some (if ack.accepted then registered else rejected ack.reason)))
unfolding attempts
round_answered fuel calls info i d s s' ack e = rw (attempts, e) (ground arith)

round_failed :
    (fuel : ℕ) (calls : ℕ → Attempt) (info : WorkerInfo) (i d : ℕ) (s : CoordinatorState)
    → (dial_and_register (calls (i + 1)) info s).1 ≡ none
    → ltb (i + 1) 30 ≡ true
    → let r =
        attempts fuel calls info
          (i + 1)
          (min (d * 2) 5000)
          (dial_and_register (calls (i + 1)) info s).0 in
      attempts (suc fuel) calls info i d s ≡ (r.0, (d ∷ r.1.0, r.1.1))
unfolding attempts
round_failed fuel calls info i d s e more = rw (attempts, e, more) refl

dial_failed :
    (call : Attempt) (info : WorkerInfo) (s : CoordinatorState)
    → is_answered call ≡ false
    → (dial_and_register call info s).1 ≡ none
unfolding dial_and_register
dial_failed unreachable info s e = refl
dial_failed (unanswered t) info s e = refl
dial_failed (answered t) info s e = absurd (ground (arith, e))

-- A node that lacks an identifier or an address changes nothing, whatever becomes of its call.
dial_incomplete :
    (call : Attempt) (worker_id address : String) (max_rps : ℕ) (s : CoordinatorState)
    → is_complete worker_id address ≡ false
    → (dial_and_register call (info_of worker_id address max_rps) s).0 ≡ s
unfolding dial_and_register info_of register
dial_incomplete unreachable worker_id address max_rps s e = refl
dial_incomplete (answered t) worker_id address max_rps s e = ground (arith, e)
dial_incomplete (unanswered t) worker_id address max_rps s e = ground (arith, e)

module _ (worker_id address : String) (max_rps : ℕ) where
  -- the entry of the node after it was answered at `t`, if it was `old` before
  abbrev pub entry_after : ℕ → Option Worker → Option Worker
  entry_after t old =
      if is_complete worker_id address
      then some (worker_of t (info_of worker_id address max_rps))
      else old

  -- The call that is answered decides, after as many sleeps as calls failed before it.
  abbrev Decided :
      ℕ → ℕ → ℕ → CoordinatorState → CoordinatorState × (List ℕ × Option Outcome) → Type 0
  Decided i k t s r =
      (r.1 ≡ (waits i k, some (outcome_of worker_id address)))
      × (lookup worker_id r.0.workers ≡ entry_after t (lookup worker_id s.workers))

  answered-Decided :
      (fuel : ℕ) (calls : ℕ → Attempt) (i t : ℕ) (s : CoordinatorState)
      → calls (i + 1) ≡ answered t
      → Decided i 0 t s
          (attempts (suc fuel) calls (info_of worker_id address max_rps) i (delay_of i) s)
  unfolding dial_and_register info_of register
  answered-Decided fuel calls i t s e =
      let info = info_of worker_id address max_rps in
      let (s', ack) = register t info s in
      let dialled : dial_and_register (calls (i + 1)) info s ≡ (s', some ack) = rw e refl in
      let entry = lookup-insert worker_id worker_id (worker_of t info) s.workers in
      rw (round_answered fuel calls info i (delay_of i) s s' ack dialled)
        (ground arith, ground (arith, entry, str_eq_iff worker_id worker_id))

  -- The calls that fail leave what the answer decides.
  entry_after-dial :
      (call : Attempt) (t : ℕ) (s : CoordinatorState)
      → let s' = (dial_and_register call (info_of worker_id address max_rps) s).0 in
        entry_after t (lookup worker_id s'.workers) ≡ entry_after t (lookup worker_id s.workers)
  entry_after-dial call t s = elim (Bool-cases (is_complete worker_id address)) [
    | inl complete ↦ rw complete refl
    | inr incomplete ↦ rw (dial_incomplete call worker_id address max_rps s incomplete) refl
  ]

  attempts-Decided :
      (k n m : ℕ) (calls : ℕ → Attempt) (i t : ℕ) (s : CoordinatorState)
      → k ≤ n
      → m ≡ i + k + 1
      → m ≤ 30
      → ((j : ℕ) → 0 < j → j < m → is_answered (calls j) ≡ false)
      → calls m ≡ answered t
      → Decided i k t s
          (attempts (suc n) calls (info_of worker_id address max_rps) i (delay_of i) s)
  attempts-Decided zero n m calls i t s fits at room before e =
      let here : calls (i + 1) ≡ answered t = ap calls (omega (arith, at)) ∙ e in
      answered-Decided n calls i t s here
  attempts-Decided (suc k) zero m calls i t s fits at room before e = absurd (omega arith)
  attempts-Decided (suc k) (suc n) m calls i t s fits at room before e =
      let info = info_of worker_id address max_rps in
      let failed =
        dial_failed (calls (i + 1)) info s (before (i + 1) (omega arith) (omega arith)) in
      let s' = (dial_and_register (calls (i + 1)) info s).0 in
      let (ends, entry) =
        attempts-Decided k n m calls (i + 1) t s' (omega arith) (omega arith) room before e in
      rw (round_failed (suc n) calls info i (delay_of i) s failed (ground arith), delay_of_next i)
        (ground (arith, ends), entry ∙ entry_after-dial (calls (i + 1)) t s)

  serves-outcome_of : serves (some (outcome_of worker_id address)) ≡ is_complete worker_id address
  serves-outcome_of = elim (Bool-cases (is_complete worker_id address)) [
    | inl complete ↦ rw complete refl
    | inr incomplete ↦ rw incomplete refl
  ]

  -- If the first `k` calls of a node fail and the next one is answered, among the thirty that it makes, it
  -- sleeps `k` times, for 200 ms first, twice as long each time, and never for more than five seconds. It is
  -- then registered, as of the moment of that answer, and goes on to serve, if it has an identifier and an
  -- address; otherwise it is rejected, does not serve, and its entry is what it was before.
  pub register_with_coordinator_answered :
      (k t : ℕ) (calls : ℕ → Attempt) (s : CoordinatorState)
      → k < 30
      → ((j : ℕ) → 0 < j → j < suc k → is_answered (calls j) ≡ false)
      → calls (suc k) ≡ answered t
      → let info = info_of worker_id address max_rps in
        let r = register_with_coordinator calls info s in
        (r.1 ≡ (waits 0 k, some (outcome_of worker_id address)))
        × (lookup worker_id r.0.workers ≡ entry_after t (lookup worker_id s.workers))
        × ((main calls info s).1 ≡ is_complete worker_id address)
  unfolding register_with_coordinator main
  register_with_coordinator_answered k t calls s room before e =
      let (ends, entry) =
        attempts-Decided k 29 (suc k) calls 0 t s (omega arith) (omega arith) (omega arith) before
          e in
      (ends, entry, ap (λ r. serves r.1) ends ∙ serves-outcome_of)
