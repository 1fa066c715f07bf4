-- ===== src/Mock/Race.antt =====
-- `RpsMeter::record` by threads that meet in one bucket (mock/src/lib.rs): each load, each
-- compare-and-exchange, each addition and each store is one step, and the steps interleave freely.
pub mod Finish
use correctness_bench.Common.{
  ℕ, zero, suc, ◌+◌, ◌-◌, ◌≤◌, ◌<◌, ◌≡◌, ◌≢◌, refl, ◌⊎◌, inl, inr, if_cases, Bool, true, false, not,
  List, [], ◌∷◌, arith, ◌==◌, if◌then◌else◌, length, replicate, u64_mod, u64_add,
}
use correctness_bench.Mock.{Bucket}

-- Where a thread stands in the loop: before the load, with the slot that it loaded, after it claimed
-- the bucket and before it stores the count, or returned.
pub data Pc : Type 0 where
  load claimed done : Pc
  loaded : ℕ → Pc

-- the next step of a thread of slot `s`
unfoldable pub act : ℕ → Bucket → Pc → Bucket × Pc
act s b load = (b, loaded b.slot)
act s b (loaded cur) =
    if cur == s
    then (record b { count = u64_add b.count 1 }, done)
    else if b.slot == cur
    then (record b { slot = s }, claimed)
    else (b, load)
act s b claimed = (record b { count = 1 }, done)
act s b done = (b, done)

-- The `i`-th thread takes a step.
unfoldable pub act_at : ℕ → ℕ → Bucket → List Pc → Bucket × List Pc
unfolding act
act_at s i b [] = (b, [])
act_at s zero b (p ∷ ps) = let (b', p') = act s b p in (b', p' ∷ ps)
act_at s (suc i) b (p ∷ ps) = let (b', ps') = act_at s i b ps in (b', p ∷ ps')

-- the steps of a schedule, which names a thread per step
unfoldable pub act_all : ℕ → List ℕ → Bucket → List Pc → Bucket × List Pc
unfolding act_at
act_all s [] b ps = (b, ps)
act_all s (i ∷ is) b ps = let (b', ps') = act_at s i b ps in act_all s is b' ps'

abbrev pub tally : (Pc → ℕ) → List Pc → ℕ
tally w [] = 0
tally w (p ∷ ps) = w p + tally w ps

abbrev pub is_done : Pc → ℕ
is_done done = 1
is_done _ = 0

abbrev pub is_claimed : Pc → ℕ
is_claimed claimed = 1
is_claimed _ = 0

-- A thread loaded another slot than this one.
abbrev pub has_other : ℕ → Pc → ℕ
has_other s (loaded cur) = if cur == s then 0 else 1
has_other s _ = 0

-- While the bucket is stale nobody has claimed it or returned; once it is claimed one thread is about to
-- store the count; after that, the count is at least one and at most the number of those that returned.
abbrev pub Sound : ℕ → Bucket → List Pc → Type 0
Sound s b ps =
    ((b.slot ≢ s)
      × (tally is_claimed ps ≡ 0)
      × (tally is_done ps ≡ 0)
      × (tally (has_other b.slot) ps ≡ 0))
    ⊎ (((b.slot ≡ s) × (tally is_claimed ps ≡ 1))
        ⊎ ((b.slot ≡ s) × (tally is_claimed ps ≡ 0) × (1 ≤ b.count) × (b.count ≤ tally is_done ps)))

-- A step changes what one thread adds to a tally.
act_at-tally :
    (s i : ℕ) (b : Bucket) (ps : List Pc)
    → (act_at s i b ps ≡ (b, ps))
      ⊎ ((p : Pc) × ((act_at s i b ps).0 ≡ (act s b p).0)
          × ((w : Pc → ℕ)
              → (tally w (act_at s i b ps).1 + w p ≡ tally w ps + w (act s b p).1)
                × (w p ≤ tally w ps)))
unfolding act_at
act_at-tally s i b [] = inl refl
act_at-tally s zero b (p ∷ ps) = inr (p, refl, λ w. (omega arith, omega arith))
act_at-tally s (suc i) b (p ∷ ps) = elim (act_at-tally s i b ps) [
  | inl e ↦ inl (rw e refl)
  | inr (q, e, h) ↦ inr (q, e, λ w. (omega (arith, h w), omega (arith, h w)))
]

pub length-act_at : (s i : ℕ) (b : Bucket) (ps : List Pc) → length (act_at s i b ps).1 ≡ length ps
unfolding act_at
length-act_at s i b [] = refl
length-act_at s zero b (p ∷ ps) = refl
length-act_at s (suc i) b (p ∷ ps) = ground (arith, length-act_at s i b ps)

pub tally-length : (ps : List Pc) → tally is_done ps + tally is_claimed ps ≤ length ps
tally-length [] = omega arith
tally-length (load ∷ ps) = omega (arith, tally-length ps)
tally-length (claimed ∷ ps) = omega (arith, tally-length ps)
tally-length (done ∷ ps) = omega (arith, tally-length ps)
tally-length (loaded c ∷ ps) = omega (arith, tally-length ps)

act-Sound :
    (s : ℕ) (b : Bucket) (ps qs : List Pc) (p : Pc)
    → ((w : Pc → ℕ) → (tally w qs + w p ≡ tally w ps + w (act s b p).1) × (w p ≤ tally w ps))
    → length ps + 1 < u64_mod
    → Sound s b ps
    → Sound s (act s b p).0 qs
unfolding act
act-Sound s b ps qs load h room (inl (stale, no_claim, no_done, same)) = inl (
  stale,
  omega (arith, h is_claimed, no_claim),
  omega (arith, h is_done, no_done),
  ground (arith, h (has_other b.slot), same),
)
act-Sound s b ps qs claimed h room (inl (stale, no_claim, no_done, same)) =
    absurd (omega (arith, h is_claimed, no_claim))
act-Sound s b ps qs done h room (inl (stale, no_claim, no_done, same)) =
    absurd (omega (arith, h is_done, no_done))
act-Sound s b ps qs (loaded c) h room (inl (stale, no_claim, no_done, same)) =
    let old = (h (has_other b.slot)).1 in
    inr (
      inl (
        ground (arith, stale, same, old),
        ground (arith, stale, same, old, h is_claimed, no_claim),
      ))
act-Sound s b ps qs load h room (inr (inl (here, one))) =
    inr (inl (here, omega (arith, h is_claimed, one)))
act-Sound s b ps qs done h room (inr (inl (here, one))) =
    inr (inl (here, omega (arith, h is_claimed, one)))
act-Sound s b ps qs claimed h room (inr (inl (here, one))) =
    inr (inr (here, omega (arith, h is_claimed, one), omega arith, omega (arith, h is_done)))
act-Sound s b ps qs (loaded c) h room (inr (inl (here, one))) =
    inr (inl (ground (arith, here), ground (arith, here, h is_claimed, one)))
act-Sound s b ps qs load h room (inr (inr (here, none, some, most))) =
    inr (inr (here, omega (arith, h is_claimed, none), some, omega (arith, h is_done, most)))
act-Sound s b ps qs done h room (inr (inr (here, none, some, most))) =
    inr (inr (here, omega (arith, h is_claimed, none), some, omega (arith, h is_done, most)))
act-Sound s b ps qs claimed h room (inr (inr (here, none, some, most))) =
    absurd (omega (arith, h is_claimed, none))
act-Sound s b ps qs (loaded c) h room (inr (inr (here, none, some, most))) =
    let fits = tally-length ps in
    inr (
      inr (
        ground (arith, here),
        ground (arith, here, h is_claimed, none),
        ground (arith, here, some, most, fits),
        ground (arith, here, most, fits, h is_done),
      ))

pub act_at-Sound :
    (s i : ℕ) (b : Bucket) (ps : List Pc)
    → length ps + 1 < u64_mod
    → Sound s b ps
    → Sound s (act_at s i b ps).0 (act_at s i b ps).1
act_at-Sound s i b ps room ok = elim (act_at-tally s i b ps) [
  | inl e ↦ rw e ok
  | inr (p, e, h) ↦ rw e (act-Sound s b ps (act_at s i b ps).1 p h room ok)
]

pub act_all-Sound :
    (s : ℕ) (is : List ℕ) (b : Bucket) (ps : List Pc)
    → length ps + 1 < u64_mod
    → Sound s b ps
    → Sound s (act_all s is b ps).0 (act_all s is b ps).1
unfolding act_all
act_all-Sound s [] b ps room ok = ok
act_all-Sound s (i ∷ is) b ps room ok =
    act_all-Sound s is (act_at s i b ps).0 (act_at s i b ps).1
      (omega (arith, length-act_at s i b ps)) (act_at-Sound s i b ps room ok)
