-- ===== src/Mock/Meter.antt =====
-- What the ring of ten buckets counts, while no two threads touch a bucket at once (mock/src/lib.rs).
pub mod Counted
use correctness_bench.Common.{
  ℕ, zero, suc, ◌+◌, ◌-◌, ◌/◌, ◌%◌, ◌≤◌, ◌<◌, ◌≡◌, refl, ◌⊎◌, inl, inr, Bool, ◌&&◌, List, [], ◌∷◌,
  arith, ltb, leb, ◌==◌, if◌then◌else◌, if_cases, false, length, u64_mod, u64_add,
}
use correctness_bench.Mock.{
  Bucket, unused, RpsMeter, new, touch, touch_at, record_at, is_recent, sum_recent,
  current_requests,
}

-- the meter after requests at these moments, the newest first
unfoldable pub meter_after : List ℕ → RpsMeter
unfolding new record_at
meter_after [] = new
meter_after (t ∷ ts) = record_at t (meter_after ts)

-- No moment is later than `now`, and none later than the one that follows it.
abbrev pub Falling : ℕ → List ℕ → Type 0
Falling now [] = Unit
Falling now (t ∷ ts) = (t ≤ now) × Falling t ts

abbrev pub count : (ℕ → Bool) → List ℕ → ℕ
count p [] = 0
count p (t ∷ ts) = (if p t then 1 else 0) + count p ts

-- whether a moment is in the slot of `now` or in one of the nine before it
abbrev pub in_window : ℕ → ℕ → Bool
in_window now t = leb (now / 100 - 9) (t / 100) && leb (t / 100) (now / 100)

-- the number of requests in the window
abbrev pub recent : ℕ → List ℕ → ℕ
recent now [] = 0
recent now (t ∷ ts) = (if in_window now t then 1 else 0) + recent now ts

abbrev pub bucket_after : ℕ → List ℕ → Bucket
bucket_after i [] = unused
bucket_after i (t ∷ ts) =
    let b = bucket_after i ts in if (t / 100) % 10 == i then touch (t / 100) b else b

-- `n` buckets from the `i`-th on
abbrev pub row : ℕ → ℕ → List ℕ → RpsMeter
row i zero ts = []
row i (suc n) ts = bucket_after i ts ∷ row (suc i) n ts

row_other : (i n t : ℕ) (ts : List ℕ) → (t / 100) % 10 < i → row i n (t ∷ ts) ≡ row i n ts
row_other i zero t ts h = refl
row_other i (suc n) t ts h = ground (arith, row_other (suc i) n t ts (omega arith))

touch_at-row :
    (j i n t : ℕ) (ts : List ℕ)
    → i + j ≡ (t / 100) % 10
    → touch_at j (t / 100) (row i n ts) ≡ row i n (t ∷ ts)
unfolding touch_at
touch_at-row j i zero t ts e = refl
touch_at-row zero i (suc n) t ts e = ground (arith, row_other (suc i) n t ts (omega arith))
touch_at-row (suc j) i (suc n) t ts e = ground (arith, touch_at-row j (suc i) n t ts (omega arith))

pub meter_after-row : (ts : List ℕ) → meter_after ts ≡ row 0 10 ts
unfolding meter_after new record_at
meter_after-row [] = refl
meter_after-row (t ∷ ts) =
    rw (meter_after-row ts) (touch_at-row ((t / 100) % 10) 0 10 t ts (omega arith))

abbrev pub residue : ℕ → ℕ → Bool
residue i t = (t / 100) % 10 == i

abbrev above : ℕ → ℕ → ℕ → Bool
above i s t = residue i t && ltb s (t / 100)

abbrev in_slot : ℕ → ℕ → Bool
in_slot s t = t / 100 == s

-- Either no request belongs to the bucket, or the bucket counts those of the last slot that does.
abbrev Tracks : ℕ → ℕ → List ℕ → Bucket → Type 0
Tracks now i ts b =
    ((b ≡ unused) × (count (residue i) ts ≡ 0))
    ⊎ ((b.slot % 10 ≡ i)
        × (b.slot ≤ now / 100)
        × (b.count ≡ count (in_slot b.slot) ts)
        × (count (above i b.slot) ts ≡ 0))

-- Later slots of a bucket leave no request in a slot after the last.
count-in_slot-none :
    (i s b : ℕ) (ts : List ℕ)
    → count (above i b) ts ≡ 0
    → s % 10 ≡ i
    → b < s
    → count (in_slot s) ts ≡ 0
count-in_slot-none i s b [] e r l = refl
count-in_slot-none i s b (t ∷ ts) e r l = ground (arith, count-in_slot-none i s b ts)

count-in_slot-fresh :
    (i s : ℕ) (ts : List ℕ) → count (residue i) ts ≡ 0 → s % 10 ≡ i → count (in_slot s) ts ≡ 0
count-in_slot-fresh i s [] e r = refl
count-in_slot-fresh i s (t ∷ ts) e r = ground (arith, count-in_slot-fresh i s ts)

count-above-newest :
    (i s t : ℕ) (ts : List ℕ) → Falling t ts → t / 100 ≤ s → count (above i s) ts ≡ 0
count-above-newest i s t [] f l = refl
count-above-newest i s t (u ∷ ts) (le, f) l =
    ground (arith, count-above-newest i s u ts f (omega arith))

count-length : (p : ℕ → Bool) (ts : List ℕ) → count p ts ≤ length ts
count-length p [] = omega arith
count-length p (t ∷ ts) = ground (arith, count-length p ts)

touch-Tracks :
    (now i t : ℕ) (ts : List ℕ) (b : Bucket)
    → t ≤ now
    → t < u64_mod
    → Falling t ts
    → length ts + 1 < u64_mod
    → (t / 100) % 10 ≡ i
    → Tracks t i ts b
    → Tracks now i (t ∷ ts) (touch (t / 100) b)
unfolding touch
touch-Tracks now i t ts b le small f room e (inl (u, none_yet)) =
    let fresh = count-in_slot-fresh i (t / 100) ts none_yet e in
    let top = count-above-newest i (t / 100) t ts f (omega arith) in
    inr (
      ground (arith, u, fresh),
      ground (arith, u),
      ground (arith, u, fresh),
      ground (arith, u, top),
    )
touch-Tracks now i t ts b le small f room e (inr (r, below, c, last)) =
    let later = count-in_slot-none i (t / 100) b.slot ts last in
    let top = count-above-newest i (t / 100) t ts f (omega arith) in
    let most = count-length (in_slot b.slot) ts in
    inr (ground arith, ground arith, ground (arith, later, most), ground (arith, top))

skip-Tracks :
    (now i t : ℕ) (ts : List ℕ) (b : Bucket)
    → t ≤ now
    → residue i t ≡ false
    → Tracks t i ts b
    → Tracks now i (t ∷ ts) b
skip-Tracks now i t ts b le e (inl (u, none_yet)) = inl (u, ground (arith, e, none_yet))
skip-Tracks now i t ts b le e (inr (r, below, c, last)) =
    inr (r, omega arith, ground (arith, e, c), ground (arith, e, last))

pub bucket_after-Tracks :
    (now i : ℕ) (ts : List ℕ)
    → Falling now ts
    → now < u64_mod
    → length ts < u64_mod
    → Tracks now i ts (bucket_after i ts)
bucket_after-Tracks now i [] f small room = inl (refl, refl)
bucket_after-Tracks now i (t ∷ ts) (le, f) small room =
    let old = bucket_after-Tracks t i ts f (omega arith) (omega arith) in
    if_cases (Tracks now i (t ∷ ts)) (residue i t) (touch (t / 100) (bucket_after i ts))
      (bucket_after i ts)
      (λ e.
        touch-Tracks now i t ts (bucket_after i ts) le (omega arith) f (omega arith)
          (ground (arith, e)) old)
      (λ e. skip-Tracks now i t ts (bucket_after i ts) le e old)

Falling-weaken : (a b : ℕ) (ts : List ℕ) → a ≤ b → Falling a ts → Falling b ts
Falling-weaken a b [] le f = tt
Falling-weaken a b (t ∷ ts) le (h, f) = (omega arith, f)

pub window_count :
    (now i s : ℕ) (ts : List ℕ)
    → Falling now ts
    → s % 10 ≡ i
    → s ≤ now / 100
    → count (above i s) ts ≡ 0
    → count (λ t. in_window now t && residue i t) ts
      ≡ (if leb (now / 100 - 9) s then count (in_slot s) ts else 0)
window_count now i s [] f r le e = ground arith
window_count now i s (t ∷ ts) (h, f) r le e =
    ground (arith, window_count now i s ts (Falling-weaken t now ts h f))

pub count-both-none :
    (now i : ℕ) (ts : List ℕ)
    → count (residue i) ts ≡ 0
    → count (λ t. in_window now t && residue i t) ts ≡ 0
count-both-none now i [] e = refl
count-both-none now i (t ∷ ts) e = ground (arith, count-both-none now i ts)
