-- ===== src/Worker/Turn/Balance.antt =====
-- Every response has exactly one verdict in the counts of a connection (worker.rs).
use correctness_bench.Common.{ℕ, ◌+◌, ◌%◌, ◌≡◌, Option, arith, u64_mod, u64_add}
use correctness_bench.Float.{Float}
use correctness_bench.Hist.Library.{Hdr}
use correctness_bench.Sched.{intended_send_time}
use correctness_bench.Worker.Spec.{RlAction, RlConfig}
use correctness_bench.Worker.Assert.{Verdict, rate_limited, classify}
use correctness_bench.Worker.Counters.{ConnResult, LiveCounters}
use correctness_bench.Worker.Connection.{
  ParsedResponse, Shared, Conn, Config, Turn, latencies, record_onset, rate_limit_policy,
  sample_response, count_verdict,
}
use correctness_bench.Worker.Turn.{complete, on_response, checked}
use correctness_bench.Worker.Turn.Cases.{paced, checked_cases}

-- all verdicts that were counted
abbrev pub verdicts : ConnResult → ℕ
verdicts r =
    r.pass + r.fail_status + r.fail_latency + r.fail_size + r.fail_content_type + r.rate_limited

-- Each completed response is a pass, one of the failures, or a 429.
abbrev pub IsBalanced : ConnResult → Type 0
IsBalanced r = r.completed % u64_mod ≡ verdicts r % u64_mod

module _ {F : Type 0} ⦃f : Float F⦄ where
  policy_verdicts :
      (a : RlAction) (rl : RlConfig F) (ra : Option ℕ) (conn : Conn F) (c : LiveCounters)
      → let r = (rate_limit_policy a rl ra conn c).0.res in
        (verdicts r ≡ verdicts conn.res) × (r.completed ≡ conn.res.completed)
  unfolding rate_limit_policy
  policy_verdicts a rl ra conn c = ground arith

  count_verdict-verdicts :
      (v : Verdict) (rl : RlConfig F) (intended : ℕ) (ra : Option ℕ) (conn : Conn F)
      (c : LiveCounters)
      → let r = (count_verdict v rl intended ra conn c).0.res in
        (verdicts r % u64_mod ≡ (verdicts conn.res + 1) % u64_mod)
        × (r.completed ≡ conn.res.completed)
  unfolding count_verdict
  count_verdict-verdicts rate_limited rl intended ra conn c =
      let r = conn.res in
      let r' = record r { rate_limited = u64_add r.rate_limited 1 } in
      let c' = record c { rate_limited = u64_add c.rate_limited 1 } in
      omega (
        arith,
        policy_verdicts rl.action rl ra (record conn { res = r' }) (record_onset rl intended c'),
      )
  count_verdict-verdicts v rl intended ra conn c = omega arith

module _ {F H : Type 0} ⦃f : Float F⦄ ⦃h : Hdr H⦄ where
  on_response-IsBalanced :
      (cfg : Config F) (intended : ℕ) (t : Turn) (parsed : ParsedResponse) (sh : Shared F H)
      (conn : Conn F)
      → IsBalanced conn.res
      → IsBalanced (on_response cfg intended t parsed sh conn).1.res
  unfolding on_response complete
  on_response-IsBalanced cfg intended t parsed sh conn b =
      let lat = latencies intended t in
      let a = complete lat sh conn in
      let s = sample_response cfg.rules parsed t.buf lat.0 a.0 in
      let v = classify cfg.rules parsed.status lat.0 parsed.content_length parsed.content_type_lc in
      let counted = count_verdict-verdicts v cfg.rl intended parsed.retry_after_ms a.1 s.counters in
      omega arith

  -- A turn that passed the abort check keeps the books of its connection: completed responses are the passes, the failures of
  -- every tier and the 429s together.
  pub checked-IsBalanced :
      (cfg : Config F) (t : Turn) (sh : Shared F H) (conn : Conn F)
      → IsBalanced conn.res
      → IsBalanced (checked cfg t sh conn).1.res
  checked-IsBalanced cfg t sh conn b =
      checked_cases (λ sh' conn' flow. IsBalanced conn'.res) cfg t sh conn b b b b b
        (λ w parsed e.
          on_response-IsBalanced cfg (intended_send_time conn.sched) t parsed sh (paced t conn) b)
