-- ===== src/Hist/Recording.antt =====
-- What recording and shipping a pair of histograms keeps (hist.rs).
use correctness_bench.Common.{ℕ, ◌+◌, ◌≤◌, ◌<◌, ◌≡◌, u64_mod, none, some, [], arith}
use correctness_bench.Hist.{
  Histos, min_us, max_us, sig_figs, clamp, new, record_both, serialize_v2, deserialize_v2,
}
use correctness_bench.Hist.Library.{Hdr, IsHdr}

module _ {H : Type 0} ⦃h : Hdr H⦄ (laws : IsHdr H) where
  -- Both histograms take the engine's range and hold `n` samples.
  pub record Holds (n : ℕ) (s : Histos H) : Type 0 where
    pub corrected_range : max_us ≤ h.limit s.corrected
    pub uncorrected_range : max_us ≤ h.limit s.uncorrected
    pub corrected_len : h.len s.corrected ≡ n
    pub uncorrected_len : h.len s.uncorrected ≡ n

  pub new-Holds : Holds 0 new
  unfolding new
  new-Holds =
      let r = laws.limit-new min_us max_us sig_figs in
      let l = laws.len-new min_us max_us sig_figs in ground arith

  -- Any two latencies, whatever their size, add exactly one sample to each histogram of a pair that
  -- takes the engine's range and holds equally many samples, below 2 ^ 64: none is dropped as out of range.
  pub record_both-Holds :
      {n : ℕ} (s : Histos H) (c u : ℕ)
      → Holds n s
      → n + 1 < u64_mod
      → Holds (n + 1) (record_both s c u)
  unfolding record_both
  record_both-Holds s c u p room = ground (
    arith,
    laws.limit-record s.corrected (clamp c min_us max_us),
    laws.limit-record s.uncorrected (clamp u min_us max_us),
    laws.len-record s.corrected (clamp c min_us max_us),
    laws.len-record s.uncorrected (clamp u min_us max_us),
  )

  -- What is shipped is read back unchanged, and an empty payload is no histogram.
  pub deserialize_v2-serialize_v2 :
      (g : H) → (deserialize_v2 (serialize_v2 g) ≡ some g) × (deserialize_v2 {H = H} [] ≡ none)
  unfolding deserialize_v2 serialize_v2
  deserialize_v2-serialize_v2 g =
      let (b, bs, e) = laws.serialize-cons g in ground (arith, e, laws.deserialize-serialize g)
