-- ===== src/Mock/Meter/Counted.antt =====
-- The meter's sum is the number of requests in the window (`RpsMeter::current_rps`, mock/src/lib.rs).
use correctness_bench.Common.{
  ℕ, zero, suc, ◌+◌, ◌/◌, ◌%◌, ◌≤◌, ◌<◌, ◌≡◌, refl, inl, inr, ◌&&◌, List, [], ◌∷◌, arith, ltb, leb,
  if◌then◌else◌, length, u64_mod, u64_add,
}
use correctness_bench.Mock.{Bucket, is_recent, sum_recent, current_requests}
use correctness_bench.Mock.Meter.{
  meter_after, Falling, count, in_window, recent, bucket_after, row, meter_after-row, residue,
  bucket_after-Tracks, window_count, count-both-none,
}

-- what a bucket adds to the sum
abbrev share_of : ℕ → Bucket → ℕ
share_of now b = if is_recent (now / 100) b then b.count else 0

share_of-bucket_after :
    (now i : ℕ) (ts : List ℕ)
    → Falling now ts
    → now < u64_mod
    → length ts < u64_mod
    → share_of now (bucket_after i ts) ≡ count (λ t. in_window now t && residue i t) ts
share_of-bucket_after now i ts f small room = elim (bucket_after-Tracks now i ts f small room) [
  | inl (u, e) ↦ rw (u, count-both-none now i ts e) refl
  | inr (r, le, c, last) ↦
      ground (arith, c, window_count now i (bucket_after i ts).slot ts f r le last)
]

-- those of `n` residues from the `i`-th on
abbrev across : ℕ → ℕ → ℕ → List ℕ → ℕ
across now i zero ts = 0
across now i (suc n) ts = count (λ t. in_window now t && residue i t) ts + across now (suc i) n ts

across_step :
    (now i n t : ℕ) (ts : List ℕ)
    → across now i n (t ∷ ts)
      ≡ (if in_window now t && leb i ((t / 100) % 10) && ltb ((t / 100) % 10) (i + n) then 1 else 0)
        + across now i n ts
across_step now i zero t ts = ground arith
across_step now i (suc n) t ts = ground (arith, across_step now (suc i) n t ts)

across-recent : (now : ℕ) (ts : List ℕ) → across now 0 10 ts ≡ recent now ts
across-recent now [] = refl
across-recent now (t ∷ ts) = rw (across_step now 0 10 t ts, across-recent now ts) (ground arith)

sum_recent-row :
    (now sum i n : ℕ) (ts : List ℕ)
    → Falling now ts
    → now < u64_mod
    → length ts < u64_mod
    → sum + across now i n ts < u64_mod
    → sum_recent (now / 100) sum (row i n ts) ≡ sum + across now i n ts
unfolding sum_recent
sum_recent-row now sum i zero ts f small room fits = omega arith
sum_recent-row now sum i (suc n) ts f small room fits =
    let share = share_of-bucket_after now i ts f small room in
    let here = count (λ t. in_window now t && residue i t) ts in
    let step : (if is_recent (now / 100) (bucket_after i ts)
          then u64_add sum (bucket_after i ts).count
          else sum)
        ≡ sum + here =
      ground (arith, share) in
    rw (row, sum_recent, step)
      (omega (arith, sum_recent-row now (sum + here) (suc i) n ts f small room (omega arith)))

recent-length : (now : ℕ) (ts : List ℕ) → recent now ts ≤ length ts
recent-length now [] = omega arith
recent-length now (t ∷ ts) = ground (arith, recent-length now ts)

-- If no request is later than the ones after it, and none later than `now`, the meter reports exactly the
-- requests whose hundred milliseconds are those of `now` or one of the nine before: those of the last
-- second, give or take a slot. The clock and the number of requests stay below 2^64.
pub current_requests-recent :
    (now : ℕ) (ts : List ℕ)
    → Falling now ts
    → now < u64_mod
    → length ts < u64_mod
    → current_requests now (meter_after ts) ≡ recent now ts
unfolding current_requests
current_requests-recent now ts f small room =
    let total = across-recent now ts in
    let least = recent-length now ts in
    rw (meter_after-row ts, sum_recent-row now 0 0 10 ts f small room (omega arith))
      (omega (arith, total))
