-- ===== src/Mock/Race/Finish.antt =====
-- Every thread returns, and what the bucket then holds (`RpsMeter::record`, mock/src/lib.rs).
use correctness_bench.Common.{
  ℕ, zero, suc, ◌+◌, ◌-◌, ◌≤◌, ◌<◌, ◌≡◌, ◌≢◌, refl, ◌⊎◌, inl, inr, List, [], ◌∷◌, arith, ◌==◌, ltb,
  if◌then◌else◌, length, replicate, u64_mod,
}
use correctness_bench.Mock.{Bucket}
use correctness_bench.Mock.Race.{
  Pc, load, claimed, done, loaded, act, act_at, act_all, tally, is_done, is_claimed, has_other,
  Sound, length-act_at, tally-length, act_at-Sound, act_all-Sound,
}

-- the steps that a thread still needs
abbrev rank : ℕ → Bucket → Pc → ℕ
rank s b load = if b.slot == s then 2 else 4
rank s b (loaded c) = if c == s then 1 else 3
rank s b claimed = 1
rank s b done = 0

-- the thread of an index, or one that returned
abbrev pc_at : ℕ → List Pc → Pc
pc_at j [] = done
pc_at zero (p ∷ ps) = p
pc_at (suc j) (p ∷ ps) = pc_at j ps

-- how often a schedule names a thread
abbrev pub turns : ℕ → List ℕ → ℕ
turns j [] = 0
turns j (i ∷ is) = (if i == j then 1 else 0) + turns j is

-- A stale bucket has the slot that every thread loaded.
abbrev Fresh : ℕ → Bucket → List Pc → Type 0
Fresh s b ps = (b.slot ≡ s) ⊎ (tally (has_other b.slot) ps ≡ 0)

Sound-Fresh : (s : ℕ) (b : Bucket) (ps : List Pc) → Sound s b ps → Fresh s b ps
Sound-Fresh s b ps (inl (stale, none, no_done, same)) = inr same
Sound-Fresh s b ps (inr (inl (here, one))) = inl here
Sound-Fresh s b ps (inr (inr (here, none, some, most))) = inl here

act-rank :
    (s : ℕ) (b : Bucket) (p : Pc) (ps : List Pc)
    → Fresh s b (p ∷ ps)
    → rank s (act s b p).0 (act s b p).1 ≤ rank s b p - 1
unfolding act
act-rank s b load ps (inl here) = ground (arith, here)
act-rank s b load ps (inr same) = ground arith
act-rank s b claimed ps fresh = omega arith
act-rank s b done ps fresh = omega arith
act-rank s b (loaded c) ps (inl here) = ground (arith, here)
act-rank s b (loaded c) ps (inr same) = ground (arith, same)

act-rank_other : (s : ℕ) (b : Bucket) (p q : Pc) → rank s (act s b p).0 q ≤ rank s b q
unfolding act
act-rank_other s b p claimed = omega arith
act-rank_other s b p done = omega arith
act-rank_other s b p (loaded c) = ground arith
act-rank_other s b load load = ground arith
act-rank_other s b claimed load = ground arith
act-rank_other s b done load = ground arith
act-rank_other s b (loaded c) load = ground arith

act_at-rank_other :
    (s i : ℕ) (b : Bucket) (ps : List Pc) (q : Pc) → rank s (act_at s i b ps).0 q ≤ rank s b q
unfolding act_at
act_at-rank_other s i b [] q = omega arith
act_at-rank_other s zero b (p ∷ ps) q = act-rank_other s b p q
act_at-rank_other s (suc i) b (p ∷ ps) q = act_at-rank_other s i b ps q

Fresh-tail : (s : ℕ) (b : Bucket) (p : Pc) (ps : List Pc) → Fresh s b (p ∷ ps) → Fresh s b ps
Fresh-tail s b p ps (inl here) = inl here
Fresh-tail s b p ps (inr same) = inr (omega (arith, same))

-- A step of a thread brings it nearer to its end, and takes no other one back.
act_at-rank :
    (s i j : ℕ) (b : Bucket) (ps : List Pc)
    → Fresh s b ps
    → rank s (act_at s i b ps).0 (pc_at j (act_at s i b ps).1)
      ≤ rank s b (pc_at j ps) - (if i == j then 1 else 0)
unfolding act_at
act_at-rank s i j b [] fresh = omega arith
act_at-rank s zero zero b (p ∷ ps) fresh = act-rank s b p ps fresh
act_at-rank s zero (suc j) b (p ∷ ps) fresh = ground (arith, act-rank_other s b p (pc_at j ps))
act_at-rank s (suc i) zero b (p ∷ ps) fresh = ground (arith, act_at-rank_other s i b ps p)
act_at-rank s (suc i) (suc j) b (p ∷ ps) fresh =
    ground (arith, act_at-rank s i j b ps (Fresh-tail s b p ps fresh))

act_all-rank :
    (s j : ℕ) (is : List ℕ) (b : Bucket) (ps : List Pc)
    → length ps + 1 < u64_mod
    → Sound s b ps
    → rank s (act_all s is b ps).0 (pc_at j (act_all s is b ps).1)
      ≤ rank s b (pc_at j ps) - turns j is
unfolding act_all
act_all-rank s j [] b ps room ok = omega arith
act_all-rank s j (i ∷ is) b ps room ok =
    let first = act_at-rank s i j b ps (Sound-Fresh s b ps ok) in
    let rest =
      act_all-rank s j is (act_at s i b ps).0 (act_at s i b ps).1
        (omega (arith, length-act_at s i b ps)) (act_at-Sound s i b ps room ok) in
    ground (arith, first, rest)

replicate-rank :
    (s j n : ℕ) (b : Bucket) → rank s b (pc_at j (replicate n load)) ≤ (if ltb j n then 4 else 0)
replicate-rank s j zero b = omega arith
replicate-rank s zero (suc n) b = ground arith
replicate-rank s (suc j) (suc n) b = ground (arith, replicate-rank s j n b)

all_done :
    (s : ℕ) (b : Bucket) (ps : List Pc)
    → ((j : ℕ) → rank s b (pc_at j ps) ≡ 0)
    → tally is_done ps ≡ length ps
all_done s b [] h = refl
all_done s b (done ∷ ps) h = ground (arith, all_done s b ps (λ j. h (suc j)))
all_done s b (claimed ∷ ps) h = absurd (omega (arith, h 0))
all_done s b (load ∷ ps) h = absurd (ground (arith, h 0))
all_done s b (loaded c ∷ ps) h = absurd (ground (arith, h 0))

length-act_all :
    (s : ℕ) (is : List ℕ) (b : Bucket) (ps : List Pc) → length (act_all s is b ps).1 ≡ length ps
unfolding act_all
length-act_all s [] b ps = refl
length-act_all s (i ∷ is) b ps =
    ground
      (arith, length-act_all s is (act_at s i b ps).0 (act_at s i b ps).1, length-act_at s i b ps)

tally-replicate : (w : Pc → ℕ) (n : ℕ) → w load ≡ 0 → tally w (replicate n load) ≡ 0
tally-replicate w zero e = refl
tally-replicate w (suc n) e = omega (arith, e, tally-replicate w n e)

Sound-done :
    (s : ℕ) (b : Bucket) (ps : List Pc)
    → Sound s b ps
    → 0 < length ps
    → tally is_done ps ≡ length ps
    → (b.slot ≡ s) × (1 ≤ b.count) × (b.count ≤ length ps)
Sound-done s b ps (inl (stale, none, no_done, same)) some all = absurd (omega (arith, no_done))
Sound-done s b ps (inr (inl (here, one))) some all = absurd (omega (arith, one, tally-length ps))
Sound-done s b ps (inr (inr (here, none, least, most))) some all = (here, least, omega arith)

length-replicate : (n : ℕ) → length (replicate n load) ≡ n
length-replicate zero = refl
length-replicate (suc n) = ground (arith, length-replicate n)

-- Let at least one thread record a request in a bucket that still has an older slot, and let their steps
-- interleave in any way that gives each thread four of them. Then each has returned, the bucket has the
-- new slot, and it counts at least one request and at most one for each thread.
pub act_all_recorded :
    (s n : ℕ) (b : Bucket) (is : List ℕ)
    → b.slot ≢ s
    → 0 < n
    → n + 1 < u64_mod
    → ((j : ℕ) → j < n → 4 ≤ turns j is)
    → let r = act_all s is b (replicate n load) in
      (tally is_done r.1 ≡ n) × (r.0.slot ≡ s) × (1 ≤ r.0.count) × (r.0.count ≤ n)
act_all_recorded s n b is stale some room fair =
    let len = length-replicate n in
    let r = act_all s is b (replicate n load) in
    let start : Sound s b (replicate n load) = inl (
      stale,
      tally-replicate is_claimed n refl,
      tally-replicate is_done n refl,
      tally-replicate (has_other b.slot) n refl,
    ) in
    let fits : length (replicate n load) + 1 < u64_mod = omega (arith, len) in
    let sound = act_all-Sound s is b (replicate n load) fits start in
    let size = length-act_all s is b (replicate n load) in
    let end = all_done s r.0 r.1 (λ j. ground (
      arith,
      act_all-rank s j is b (replicate n load) fits start,
      replicate-rank s j n b,
      fair j,
    )) in
    let (here, least, most) = Sound-done s r.0 r.1 sound (omega (arith, size, len)) end in
    (omega (arith, end, size, len), here, least, omega (arith, most, size, len))
