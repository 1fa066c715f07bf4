-- ===== src/Worker/Ticks/Deltas.antt =====
-- What the per-second counts add up to (worker.rs).
use correctness_bench.Common.{ℕ, suc, ◌+◌, ◌-◌, ◌≤◌, ◌≡◌, List, [], ◌∷◌, arith}
use correctness_bench.Float.{Float}
use correctness_bench.Hist.Library.{Hdr}
use correctness_bench.Worker.Connection.{Shared}
use correctness_bench.Worker.Ticks.{
  ThisTick, Tick, Bucket, seen, nothing_seen, delta, emit, emit_from, ticks,
}

-- The counts of a tick or of a bucket, by name.
pub data Column : Type 0 where
  total pass fail_status fail_latency fail_size fail_content_type rate_limited : Column

abbrev pub entry : Column → ThisTick → ℕ
entry total t = t.total
entry pass t = t.pass
entry fail_status t = t.fail_status
entry fail_latency t = t.fail_latency
entry fail_size t = t.fail_size
entry fail_content_type t = t.fail_content_type
entry rate_limited t = t.rate_limited

module _ {F : Type 0} where
  abbrev pub bucket_entry : Column → Bucket F → ℕ
  bucket_entry total b = b.total
  bucket_entry pass b = b.pass
  bucket_entry fail_status b = b.fail_status
  bucket_entry fail_latency b = b.fail_latency
  bucket_entry fail_size b = b.fail_size
  bucket_entry fail_content_type b = b.fail_content_type
  bucket_entry rate_limited b = b.rate_limited

  abbrev pub sum_buckets : Column → List (Bucket F) → ℕ
  sum_buckets k [] = 0
  sum_buckets k (b ∷ bs) = bucket_entry k b + sum_buckets k bs

  -- the buckets of all ticks together
  abbrev pub sum_ticks : Column → List (Tick F) → ℕ
  sum_ticks k [] = 0
  sum_ticks k (t ∷ ts) = sum_buckets k t.buckets + sum_ticks k ts

  -- No counter falls from one second to the next.
  abbrev pub Rising : {H : Type 0} → Column → ThisTick → List (Shared F H) → Type 0
  Rising k prev [] = Unit
  Rising k prev (sh ∷ rest) =
      (entry k prev ≤ entry k (seen sh.counters)) × Rising k (seen sh.counters) rest

  -- the counts at the last tick
  abbrev pub last_seen : {H : Type 0} → ThisTick → List (Shared F H) → ThisTick
  last_seen prev [] = prev
  last_seen prev (sh ∷ rest) = last_seen (seen sh.counters) rest

entry-delta :
    (k : Column) (prev now : ThisTick) → entry k (delta prev now) ≡ entry k now - entry k prev
unfolding delta
entry-delta k prev now = ground arith

module _ {F H : Type 0} ⦃f : Float F⦄ ⦃h : Hdr H⦄ where
  emit-entry :
      (k : Column) (s : ℕ) (prev : ThisTick) (sh : Shared F H)
      → sum_buckets k (emit s prev sh).0.buckets ≡ entry k (delta prev (seen sh.counters))
  unfolding emit
  emit-entry k s prev sh = ground arith

  emit_from_sums :
      (k : Column) (s : ℕ) (prev : ThisTick) (shs : List (Shared F H))
      → Rising k prev shs
      → sum_ticks k (emit_from s prev shs) + entry k prev ≡ entry k (last_seen prev shs)
  unfolding emit_from
  emit_from_sums k s prev [] r = omega arith
  emit_from_sums k s prev (sh ∷ rest) (up, r) = omega (
    arith,
    emit-entry k s prev sh,
    entry-delta k prev (seen sh.counters),
    emit_from_sums k (suc s) (seen sh.counters) rest r,
  )

  -- If a counter never falls, the per-second counts of all ticks add up to the counter as the last
  -- tick saw it, for each of the seven counts: no response is counted in two ticks or in none, up to
  -- the last tick.
  pub ticks_sums :
      (k : Column) (shs : List (Shared F H))
      → Rising k nothing_seen shs
      → sum_ticks k (ticks shs) ≡ entry k (last_seen nothing_seen shs)
  unfolding ticks
  ticks_sums k shs r =
      let none_yet = nothing k in omega (arith, emit_from_sums k 1 nothing_seen shs r)
    where
      nothing : (k : Column) → entry k nothing_seen ≡ 0
      nothing k = ground arith
