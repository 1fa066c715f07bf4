-- ===== src/Worker/Assert.antt =====
-- `Verdict` and `InlineAssert` of engine/src/worker.rs: the inline assertions on one response.
pub mod Tiers
use correctness_bench.Common.{
  ℕ, Bool, true, false, not, ◌&&◌, Option, none, some, List, Bytes, ltb, leb, ◌==◌, any, is_empty,
  if◌then◌else◌, starts_with, to_ascii_lowercase,
}
use mathlib.Core.Option
use correctness_bench.Worker.Spec.{RunSpec}

pub data Verdict : Type 0 where
  pass fail_status fail_latency fail_size fail_content_type rate_limited : Verdict

pub record InlineAssert : Type 0 where
  pub expected_status : List ℕ
  pub max_latency_us : Option ℕ
  pub min_body_bytes : Option ℕ
  pub max_body_bytes : Option ℕ
  pub content_type_lc_prefix : Option Bytes
  pub sample_every_n : ℕ
  pub max_sampled_body_bytes : ℕ

unfoldable pub from_spec : {F U : Type 0} → RunSpec F U → InlineAssert
from_spec spec = record {
  expected_status = spec.expected_status;
  max_latency_us = spec.max_latency_us;
  min_body_bytes = spec.min_body_bytes;
  max_body_bytes = spec.max_body_bytes;
  content_type_lc_prefix = Option.map to_ascii_lowercase spec.content_type;
  sample_every_n = spec.sample_every_n;
  max_sampled_body_bytes = spec.max_sampled_body_bytes;
}

-- `if let Some(bound) = … { if test { return … } }`: whether the tier returns
abbrev pub trips : (ℕ → Bool) → Option ℕ → Bool
trips test none = false
trips test (some bound) = test bound

-- whether the Content-Type tier lets the response through
abbrev pub type_ok : Option Bytes → Option Bytes → Bool
type_ok none got = true
type_ok (some want) none = false
type_ok (some want) (some got) = starts_with want got

abbrev pub status_ok : List ℕ → ℕ → Bool
status_ok expected status =
    if is_empty expected then leb 200 status && ltb status 300 else any (λ s. s == status) expected

unfoldable pub classify : InlineAssert → ℕ → ℕ → ℕ → Option Bytes → Verdict
classify a status corrected_us content_length content_type_lc =
    if status == 429
    then rate_limited
    else if not (status_ok a.expected_status status)
    then fail_status
    else if trips (λ bound. ltb bound corrected_us) a.max_latency_us
    then fail_latency
    else if trips (λ bound. ltb content_length bound) a.min_body_bytes
    then fail_size
    else if trips (λ bound. ltb bound content_length) a.max_body_bytes
    then fail_size
    else if not (type_ok a.content_type_lc_prefix content_type_lc)
    then fail_content_type
    else pass
