-- ===== src/Hist.antt =====
-- engine/src/hist.rs: the pair of corrected and uncorrected latency histograms. The histogram itself
-- is the `hdrhistogram` crate, a parameter.
pub mod Library
pub mod Listed
pub mod Recording
use correctness_bench.Common.{
  ℕ, Bool, Option, none, some, List, [], ◌∷◌, is_empty, if◌then◌else◌, ltb, min, max,
}
use correctness_bench.Float.{Float}
use Library.{Hdr}

abbrev pub min_us : ℕ
min_us = 1

abbrev pub max_us : ℕ
max_us = 60_000_000

abbrev pub sig_figs : ℕ
sig_figs = 3

-- `u64::clamp`
abbrev pub clamp : ℕ → ℕ → ℕ → ℕ
clamp x lo hi = if ltb x lo then lo else if ltb hi x then hi else x

pub record Histos (H : Type 0) : Type 0 where
  pub corrected : H
  pub uncorrected : H

pub record Summary : Type 0 where
  pub count : ℕ
  pub p50_us : ℕ
  pub p95_us : ℕ
  pub p99_us : ℕ
  pub p999_us : ℕ
  pub max_us : ℕ

module _ {H : Type 0} ⦃h : Hdr H⦄ where
  unfoldable pub new_corrected_target : H
  new_corrected_target = h.new_with_bounds min_us max_us sig_figs

  unfoldable pub serialize_v2 : H → List ℕ
  serialize_v2 g = h.serialize g

  unfoldable pub deserialize_v2 : List ℕ → Option H
  deserialize_v2 bytes = if is_empty bytes then none else h.deserialize bytes

  -- `Histos::new`
  unfoldable pub new : Histos H
  new = record {
    corrected = h.new_with_bounds min_us max_us sig_figs;
    uncorrected = h.new_with_bounds min_us max_us sig_figs;
  }

  -- `Histos::record`: the result of the crate's `record` is ignored
  unfoldable pub record_both : Histos H → ℕ → ℕ → Histos H
  record_both s corrected_us uncorrected_us = record {
    corrected = h.record_value s.corrected (clamp corrected_us min_us max_us);
    uncorrected = h.record_value s.uncorrected (clamp uncorrected_us min_us max_us);
  }

  -- `Summary::from`, at the quantiles 0.5, 0.95, 0.99 and 0.999
  unfoldable pub summary : H → Summary
  summary g = record {
    count = h.len g;
    p50_us = h.value_at_quantile g 500;
    p95_us = h.value_at_quantile g 950;
    p99_us = h.value_at_quantile g 990;
    p999_us = h.value_at_quantile g 999;
    max_us = h.max g;
  }

  -- `Histos::merge`: `none` is the panic of `unwrap`
  unfoldable pub merge : Histos H → Histos H → Option (Histos H)
  merge s t = elim (h.add s.corrected t.corrected) [
    | none ↦ none
    | some c ↦ elim (h.add s.uncorrected t.uncorrected) [
      | none ↦ none
      | some u ↦ some (record { corrected = c; uncorrected = u })
    ]
  ]
