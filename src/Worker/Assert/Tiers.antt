-- ===== src/Worker/Assert/Tiers.antt =====
-- Which verdict a response gets (worker.rs, `InlineAssert::classify`).
use mathlib.Core.Bool.{false≢true}
use mathlib.Core.List.{Memᴰ}
use mathlib.Core.Option.{some-injective}
use correctness_bench.Common.{
  ℕ, ◌≤◌, ◌<◌, ◌≡◌, ◌≢◌, ◌↔◌, ◌++◌, inl, inr, refl, ap, Bool, true, false, Option, none, some, List,
  [], ◌∷◌, Bytes, arith, any, ◌==◌, Bool-cases, ltb, starts_with, strip_prefix, strip_prefix_inv,
  strip_prefix-append, Option-cases,
}
use correctness_bench.Worker.Assert.{
  Verdict, pass, fail_status, fail_latency, fail_size, fail_content_type, rate_limited,
  InlineAssert, classify, status_ok, type_ok, trips,
}

-- An accepted status: one of the list, or any 2xx where the list is empty.
abbrev pub IsExpected : List ℕ → ℕ → Type 0
IsExpected [] status = (200 ≤ status) × (status < 300)
IsExpected (s ∷ ss) status = Memᴰ status (s ∷ ss)

-- A bound that is set holds.
abbrev pub Bounded : (ℕ → Type 0) → Option ℕ → Type 0
Bounded P none = Unit
Bounded P (some bound) = P bound

-- A prefix that is asked for begins the header, which is there.
abbrev pub TypeFits : Option Bytes → Option Bytes → Type 0
TypeFits none got = Unit
TypeFits (some want) got = (rest : Bytes) × (got ≡ some (want ++ rest))

module _ (a : InlineAssert) (status corrected_us content_length : ℕ) (ct : Option Bytes) where
  -- The response was no 429 and had an accepted status.
  abbrev pub Answered : Type 0
  Answered = (status ≢ 429) × IsExpected a.expected_status status

  abbrev pub Fast : Type 0
  Fast = Bounded (λ b. corrected_us ≤ b) a.max_latency_us

  abbrev pub Sized : Type 0
  Sized =
      Bounded (λ b. b ≤ content_length) a.min_body_bytes
      × Bounded (λ b. content_length ≤ b) a.max_body_bytes

  abbrev pub Typed : Type 0
  Typed = TypeFits a.content_type_lc_prefix ct

  -- What each verdict says of the response: the first tier that it fails, or that it meets them all.
  abbrev pub Explains : Verdict → Type 0
  Explains pass = Answered × Fast × Sized × Typed
  Explains fail_status = (status ≢ 429) × ¬ IsExpected a.expected_status status
  Explains fail_latency = Answered × ¬ Fast
  Explains fail_size = Answered × Fast × ¬ Sized
  Explains fail_content_type = Answered × Fast × Sized × ¬ Typed
  Explains rate_limited = status ≡ 429

any→Memᴰ : (ss : List ℕ) (status : ℕ) → any (λ s. s == status) ss ≡ true → Memᴰ status ss
any→Memᴰ [] status h = absurd (false≢true h)
any→Memᴰ (s ∷ ss) status h = elim (Bool-cases (s == status)) [
  | inl e ↦ Memᴰ.head (ground arith)
  | inr e ↦ Memᴰ.tail (any→Memᴰ ss status (rw e at h))
]

Memᴰ→any : {status : ℕ} {ss : List ℕ} → Memᴰ status ss → any (λ s. s == status) ss ≡ true
Memᴰ→any (Memᴰ.head e) = ground arith
Memᴰ→any (Memᴰ.tail m) = ground (arith, Memᴰ→any m)

status_ok_iff :
    (expected : List ℕ) (status : ℕ)
    → (status_ok expected status ≡ true) ↔ IsExpected expected status
status_ok_iff [] status = (λ h. ground arith, λ h. ground arith)
status_ok_iff (s ∷ ss) status = (any→Memᴰ (s ∷ ss) status, Memᴰ→any)

starts_with→append :
    (want got : Bytes)
    → starts_with want got ≡ true
    → (rest : Bytes) × (some got ≡ some (want ++ rest))
starts_with→append want got h = elim (Option-cases (strip_prefix want got)) [
  | inl e ↦ ground arith
  | inr (rest, e) ↦ (rest, ap some (strip_prefix_inv want got rest e))
]

type_ok_iff : (want got : Option Bytes) → (type_ok want got ≡ true) ↔ TypeFits want got
type_ok_iff none got = (λ h. tt, λ h. refl)
type_ok_iff (some want) none = (λ h. absurd (false≢true h), λ h. ground arith)
type_ok_iff (some want) (some got) = (
  starts_with→append want got,
  λ (rest, e). ground (arith, some-injective _ _ e, strip_prefix-append want rest),
)

Bounded-iff :
    (test : ℕ → Bool) (P : ℕ → Type 0) (o : Option ℕ)
    → ((b : ℕ) → (test b ≡ false) ↔ P b)
    → (trips test o ≡ false) ↔ Bounded P o
Bounded-iff test P none each = (λ h. tt, λ h. refl)
Bounded-iff test P (some b) each = each b

module _ (a : InlineAssert) (status corrected_us content_length : ℕ) (ct : Option Bytes) where
  latency_iff :
      (trips (λ b. ltb b corrected_us) a.max_latency_us ≡ false)
      ↔ Fast a status corrected_us content_length ct
  latency_iff =
      Bounded-iff (λ b. ltb b corrected_us) (λ b. corrected_us ≤ b) a.max_latency_us
        (λ b. ground arith)

  least_iff :
      (trips (λ b. ltb content_length b) a.min_body_bytes ≡ false)
      ↔ Bounded (λ b. b ≤ content_length) a.min_body_bytes
  least_iff =
      Bounded-iff (λ b. ltb content_length b) (λ b. b ≤ content_length) a.min_body_bytes
        (λ b. ground arith)

  most_iff :
      (trips (λ b. ltb b content_length) a.max_body_bytes ≡ false)
      ↔ Bounded (λ b. content_length ≤ b) a.max_body_bytes
  most_iff =
      Bounded-iff (λ b. ltb b content_length) (λ b. content_length ≤ b) a.max_body_bytes
        (λ b. ground arith)

  -- The verdict on a response is `v` exactly when `v` is what the first failing tier says, in the
  -- order rate limit, status, latency, size and content type; a response that meets them all passes.
  pub classify_iff :
      (v : Verdict)
      → (classify a status corrected_us content_length ct ≡ v)
        ↔ Explains a status corrected_us content_length ct v
  unfolding classify
  classify_iff v =
      let ok = status_ok_iff a.expected_status status in
      let fast = latency_iff in
      let least = least_iff in
      let most = most_iff in
      let typed = type_ok_iff a.content_type_lc_prefix ct in (λ h. ground arith, λ h. ground arith)
