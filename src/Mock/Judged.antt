-- ===== src/Mock/Judged.antt =====
-- What the worker's inline assertions make of the mock's failures (mock/src/lib.rs and worker.rs).
use correctness_bench.Common.{
  if◌then◌else◌, Bool-cases, inl, inr, ℕ, ◌+◌, ◌*◌, ◌<◌, ◌≤◌, ◌≡◌, refl, Bool, true, false, none,
  some, [], arith, codes, length, u64_mod,
}
use correctness_bench.Float.{Float}
use correctness_bench.Worker.Assert.{
  Verdict, pass, fail_status, fail_latency, fail_size, rate_limited, InlineAssert, classify,
}
use correctness_bench.Mock.{
  truncate_body, healthy_body, Mode, healthy, fast500, truncate, wrong_value, slow_ok, ratelimit,
  Params, Decision, is_injected, inject, decide,
}

-- any 2xx, a bound on the latency, a least body size, and JSON
abbrev pub json_rules : ℕ → ℕ → InlineAssert
json_rules max_latency_us min_body_bytes = record {
  expected_status = [];
  max_latency_us = some max_latency_us;
  min_body_bytes = some min_body_bytes;
  max_body_bytes = none;
  content_type_lc_prefix = some (codes "application/json");
  sample_every_n = 0;
  max_sampled_body_bytes = 0;
}

-- the tier that a mode is meant to trip
abbrev pub tier_of : Mode → Verdict
tier_of healthy = pass
tier_of fast500 = fail_status
tier_of truncate = fail_size
tier_of wrong_value = pass
tier_of slow_ok = fail_latency
tier_of ratelimit = rate_limited

-- the verdict on the mock's response, if it takes `corrected_us`
abbrev pub verdict_on : ℕ → ℕ → ℕ → Decision → Verdict
verdict_on max_latency_us min_body_bytes corrected_us d =
    classify (json_rules max_latency_us min_body_bytes) d.status corrected_us
      (length (codes d.body)) (some (codes "application/json"))

inject-tier_of :
    (m : Mode) (above : Bool) (base max_latency_us min_body_bytes extra : ℕ)
    → base + 500 < u64_mod
    → length (codes truncate_body) < min_body_bytes
    → min_body_bytes ≤ length (codes healthy_body)
    → base * 1000 + extra ≤ max_latency_us
    → max_latency_us < base * 1000 + 500_000
    → verdict_on max_latency_us min_body_bytes
        ((inject m above base).latency_ms * 1000 + extra)
        (inject m above base)
      ≡ tier_of m
unfolding inject classify
inject-tier_of healthy above base mx mn extra small short long quick slow = ground arith
inject-tier_of fast500 above base mx mn extra small short long quick slow = ground arith
inject-tier_of truncate above base mx mn extra small short long quick slow = ground arith
inject-tier_of wrong_value above base mx mn extra small short long quick slow = ground arith
inject-tier_of slow_ok above base mx mn extra small short long quick slow = ground arith
inject-tier_of ratelimit above base mx mn extra small short long quick slow = ground arith

module _ {F : Type 0} ⦃f : Float F⦄ where
  pub decide_injected :
      (p : Params F) (rps : F) (seq : ℕ)
      → is_injected p rps seq ≡ true
      → decide p rps seq ≡ inject p.mode (f.lt p.cliff_rps rps) p.base_latency_ms
  unfolding decide
  decide_injected p rps seq e = rw e refl

  pub decide_spared :
      (p : Params F) (rps : F) (seq : ℕ)
      → is_injected p rps seq ≡ false
      → decide p rps seq
        ≡ (record (inject healthy (f.lt p.cliff_rps rps) p.base_latency_ms) { injected = false })
  unfolding decide inject
  decide_spared p rps seq e = rw e refl

  -- A worker that asks for JSON of any 2xx status, for a body longer than the truncated one and no
  -- longer than the healthy one, and for a latency between what the network adds and the penalty of a
  -- slow response, gives each response of the mock, which takes its own latency and `extra`
  -- microseconds, the verdict that the mode stands for: a 500 fails by status, a truncated body by
  -- size, a slow one by latency, a 429 is rate limited, and a wrong value passes, as a response without
  -- a failure does.
  pub decide-tier_of :
      (p : Params F) (rps : F) (seq max_latency_us min_body_bytes extra : ℕ)
      → p.base_latency_ms + 500 < u64_mod
      → length (codes truncate_body) < min_body_bytes
      → min_body_bytes ≤ length (codes healthy_body)
      → p.base_latency_ms * 1000 + extra ≤ max_latency_us
      → max_latency_us < p.base_latency_ms * 1000 + 500_000
      → let d = decide p rps seq in
        verdict_on max_latency_us min_body_bytes (d.latency_ms * 1000 + extra) d
        ≡ (if is_injected p rps seq then tier_of p.mode else pass)
  unfolding inject
  decide-tier_of p rps seq mx mn extra small short long quick slow =
      let above = f.lt p.cliff_rps rps in
      let base = p.base_latency_ms in
      elim (Bool-cases (is_injected p rps seq)) [
        | inl e ↦
            rw (decide_injected p rps seq e, e)
              (inject-tier_of p.mode above base mx mn extra small short long quick slow)
        | inr e ↦
            rw (decide_spared p rps seq e, e)
              (inject-tier_of healthy above base mx mn extra small short long quick slow)
      ]
