-- ===== src/Coordinator/Aggregate/Merging.antt =====
-- The histograms of a tick of the fleet (coordinator/dispatch.rs).
use correctness_bench.Common.{
  ℕ, ◌+◌, ◌≤◌, ◌<◌, ◌≡◌, u64_mod, refl, ap, true, false, ◌⊎◌, Option, none, some, List, [], ◌∷◌,
  map, Bytes, arith,
}
use correctness_bench.Float.{Float}
use correctness_bench.Hist.{max_us, min_us, sig_figs, new_corrected_target, deserialize_v2}
use correctness_bench.Hist.Library.{Hdr, IsHdr}
use correctness_bench.Hist.Recording.{deserialize_v2-serialize_v2}
use correctness_bench.Proto.{Partial}
use correctness_bench.Coordinator.Aggregate.{
  Cumulative, Merged, Gathered, merge_bytes, bytes_of, gather_start, gather_partial, gather,
  tick_of, aggregate_tick,
}

module _ {H : Type 0} ⦃h : Hdr H⦄ where
  abbrev len_of : Option H → ℕ
  len_of none = 0
  len_of (some g) = h.len g

  abbrev HistFits : Option H → Type 0
  HistFits none = Unit
  HistFits (some g) = h.limit g ≤ max_us

module _ (H : Type 0) ⦃h : Hdr H⦄ where
  -- how many samples a payload holds: none, if it does not parse
  abbrev pub payload_len : Bytes → ℕ
  payload_len bytes = len_of (deserialize_v2 {H = H} bytes)

  -- A payload that parses has at most the engine's range.
  abbrev pub Fits : Bytes → Type 0
  Fits bytes = HistFits (deserialize_v2 {H = H} bytes)

  abbrev pub AllFit : List Bytes → Type 0
  AllFit [] = Unit
  AllFit (b ∷ bs) = Fits b × AllFit bs

  abbrev pub sum_len : List Bytes → ℕ
  sum_len [] = 0
  sum_len (b ∷ bs) = payload_len b + sum_len bs

module _ {H : Type 0} ⦃h : Hdr H⦄ where
  abbrev merge_all : List Bytes → Merged H → Merged H
  merge_all [] m = m
  merge_all (b ∷ bs) m = merge_all bs (merge_bytes b m)

module _ {H : Type 0} ⦃h : Hdr H⦄ (laws : IsHdr H) where
  -- The target has the engine's range and `n` samples, and is marked if it has any.
  record HasMerged (n : ℕ) (m : Merged H) : Type 0 where
    range : max_us ≤ h.limit m.hist
    holds : h.len m.hist ≡ n
    marked : (m.some_merged ≡ true) ⊎ (n ≡ 0)

  merge_bytes-HasMerged :
      (n : ℕ) (b : Bytes) (m : Merged H)
      → HasMerged n m
      → Fits H b
      → n + payload_len H b < u64_mod
      → HasMerged (n + payload_len H b) (merge_bytes b m)
  unfolding merge_bytes
  merge_bytes-HasMerged n b m i fit = merged (deserialize_v2 b) fit
    where
      merged :
          (o : Option H)
          → HistFits o
          → n + len_of o < u64_mod
          → HasMerged (n + len_of o) (elim o [
            | none ↦ m
            | some g ↦ elim (h.add m.hist g) [
              | none ↦ m
              | some r ↦ record { hist = r; some_merged = true }
            ]
          ])
      merged none fit room = ground arith
      merged (some g) fit room =
          let (r, e) = laws.add_fits m.hist g (omega arith) in
          ground
            (arith, e, laws.len-add m.hist g e (omega (arith, i.holds)), laws.limit-add m.hist g e)

  merge_all-HasMerged :
      (n : ℕ) (bs : List Bytes) (m : Merged H)
      → HasMerged n m
      → AllFit H bs
      → n + sum_len H bs < u64_mod
      → HasMerged (n + sum_len H bs) (merge_all bs m)
  merge_all-HasMerged n [] m i fit room = ground arith
  merge_all-HasMerged n (b ∷ bs) m i (fit, rest) room =
      let next =
        merge_all-HasMerged (n + payload_len H b) bs (merge_bytes b m)
          (merge_bytes-HasMerged n b m i fit (omega (arith, room))) rest (omega (arith, room)) in
      ground (arith, next)

  start-HasMerged : HasMerged 0 (record { hist = new_corrected_target; some_merged = false })
  unfolding new_corrected_target
  start-HasMerged =
      let r = laws.limit-new min_us max_us sig_figs in
      let l = laws.len-new min_us max_us sig_figs in ground arith

  bytes_of-HasMerged : (n : ℕ) (m : Merged H) → HasMerged n m → payload_len H (bytes_of m) ≡ n
  unfolding bytes_of
  bytes_of-HasMerged n m i = ground (arith, deserialize_v2-serialize_v2 laws m.hist)

module _ {F H : Type 0} ⦃f : Float F⦄ ⦃h : Hdr H⦄ where
  gather-merge_all :
      (ps : List (Partial F)) (g : Gathered F H)
      → ((gather ps g).merged ≡ merge_all (map (λ p. p.corrected_hist) ps) g.merged)
        × ((gather ps g).merged_uncorrected
            ≡ merge_all (map (λ p. p.uncorrected_hist) ps) g.merged_uncorrected)
  unfolding gather gather_partial
  gather-merge_all [] g = (refl, refl)
  gather-merge_all (p ∷ ps) g = gather-merge_all ps (gather_partial p g)

module _ {F H : Type 0} ⦃f : Float F⦄ ⦃h : Hdr H⦄ (laws : IsHdr H) where
  -- Where every payload either does not parse or has at most the engine's range, and the payloads hold
  -- fewer than 2 ^ 64 samples together, the merged corrected histogram of a tick holds as many samples as
  -- the corrected histograms of all its partials together, and the uncorrected one as many as the
  -- uncorrected ones.
  pub aggregate_tick-payload_len :
      (n : ℕ) (ps : List (Partial F)) (cum : Cumulative)
      → AllFit H (map (λ p. p.corrected_hist) ps)
      → AllFit H (map (λ p. p.uncorrected_hist) ps)
      → sum_len H (map (λ p. p.corrected_hist) ps) < u64_mod
      → sum_len H (map (λ p. p.uncorrected_hist) ps) < u64_mod
      → let t = (aggregate_tick H n ps cum).0 in
        (payload_len H t.merged_hist_v2 ≡ sum_len H (map (λ p. p.corrected_hist) ps))
        × (payload_len H t.merged_uncorrected_hist_v2
            ≡ sum_len H (map (λ p. p.uncorrected_hist) ps))
  unfolding aggregate_tick tick_of gather_start
  aggregate_tick-payload_len n ps cum c u few_c few_u =
      let start : Gathered F H = gather_start in
      let (same_c, same_u) = gather-merge_all ps start in
      let all_c =
        merge_all-HasMerged laws 0 (map (λ p. p.corrected_hist) ps) start.merged
          (start-HasMerged laws) c (omega (arith, few_c)) in
      let all_u =
        merge_all-HasMerged laws 0 (map (λ p. p.uncorrected_hist) ps) start.merged_uncorrected
          (start-HasMerged laws) u (omega (arith, few_u)) in
      (
        omega
            (arith, ap (λ m. payload_len H (bytes_of m)) same_c, bytes_of-HasMerged laws _ _ all_c),
        omega
            (arith, ap (λ m. payload_len H (bytes_of m)) same_u, bytes_of-HasMerged laws _ _ all_u),
      )
