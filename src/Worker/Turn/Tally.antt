-- ===== src/Worker/Turn/Tally.antt =====
-- What the counters of a connection and of the worker count (worker.rs).
use correctness_bench.Common.{ℕ, ◌+◌, ◌%◌, ◌<◌, ◌≡◌, Option, Bytes, arith, u64_mod, u64_add}
use correctness_bench.Float.{Float}
use correctness_bench.Hist.Library.{Hdr}
use correctness_bench.Sched.{intended_send_time}
use correctness_bench.Worker.Spec.{RlAction, RlConfig}
use correctness_bench.Worker.Assert.{Verdict, rate_limited, InlineAssert, classify}
use correctness_bench.Worker.Counters.{ConnResult, LiveCounters}
use correctness_bench.Worker.Connection.{
  ParsedResponse, Shared, Conn, Config, Turn, latencies, record_onset, rate_limit_policy,
  sample_response, count_verdict,
}
use correctness_bench.Worker.Turn.{complete, on_response, checked}
use correctness_bench.Worker.Turn.Cases.{paced, checked_cases}

-- What is counted, once by each connection and once by the worker.
pub data Tier : Type 0 where
  completed passed bad_status slow bad_size bad_type limited backed_off : Tier

abbrev pub own : Tier → ConnResult → ℕ
own completed r = r.completed
own passed r = r.pass
own bad_status r = r.fail_status
own slow r = r.fail_latency
own bad_size r = r.fail_size
own bad_type r = r.fail_content_type
own limited r = r.rate_limited
own backed_off r = r.backoff_us_total

abbrev pub live : Tier → LiveCounters → ℕ
live completed c = c.completed
live passed c = c.pass
live bad_status c = c.fail_status
live slow c = c.fail_latency
live bad_size c = c.fail_size
live bad_type c = c.fail_content_type
live limited c = c.rate_limited
live backed_off c = c.backoff_us_total

-- The two counters of a tier move by the same amount, and that of the worker stays a `u64`.
pub record Together (tier : Tier) (c : LiveCounters) (r : ConnResult) (c' : LiveCounters)
    (r' : ConnResult) : Type 0 where
  pub same : (live tier c' + own tier r) % u64_mod ≡ (live tier c + own tier r') % u64_mod
  pub fits : live tier c < u64_mod → live tier c' < u64_mod

Together-trans :
    (tier : Tier) (c c' c'' : LiveCounters) (r r' r'' : ConnResult)
    → Together tier c r c' r'
    → Together tier c' r' c'' r''
    → Together tier c r c'' r''
Together-trans tier c c' c'' r r' r'' p q = record {
  same = omega (arith, p.same, q.same);
  fits = λ k. q.fits (p.fits k);
}

module _ {F : Type 0} ⦃f : Float F⦄ where
  policy-Together :
      (a : RlAction) (rl : RlConfig F) (ra : Option ℕ) (conn : Conn F) (c : LiveCounters)
      (tier : Tier)
      → let s = rate_limit_policy a rl ra conn c in Together tier c conn.res s.1 s.0.res
  unfolding rate_limit_policy
  policy-Together a rl ra conn c tier = ground arith

  onset-Together :
      (rl : RlConfig F) (intended : ℕ) (r : ConnResult) (c : LiveCounters) (tier : Tier)
      → Together tier c r (record_onset rl intended c) r
  unfolding record_onset
  onset-Together rl intended r c tier = ground arith

  count_verdict-Together :
      (v : Verdict) (rl : RlConfig F) (intended : ℕ) (ra : Option ℕ) (conn : Conn F)
      (c : LiveCounters) (tier : Tier)
      → let s = count_verdict v rl intended ra conn c in Together tier c conn.res s.1 s.0.res
  unfolding count_verdict
  count_verdict-Together rate_limited rl intended ra conn c tier =
      let r = conn.res in
      let r' = record r { rate_limited = u64_add r.rate_limited 1 } in
      let c' = record c { rate_limited = u64_add c.rate_limited 1 } in
      let bump : Together tier c r c' r' = ground arith in
      let s =
        rate_limit_policy rl.action rl ra (record conn { res = r' })
          (record_onset rl intended c') in
      Together-trans tier c c' s.1 r r' s.0.res bump (
        Together-trans tier c' (record_onset rl intended c') s.1 r' r' s.0.res
          (onset-Together rl intended r' c' tier)
          (policy-Together rl.action rl ra (record conn { res = r' }) (record_onset rl intended c')
            tier))
  count_verdict-Together v rl intended ra conn c tier = ground arith

module _ {F H : Type 0} ⦃f : Float F⦄ ⦃h : Hdr H⦄ where
  sample_live :
      (rules : InlineAssert) (parsed : ParsedResponse) (buf : Bytes) (lat : ℕ) (sh : Shared F H)
      (tier : Tier)
      → live tier (sample_response rules parsed buf lat sh).counters ≡ live tier sh.counters
  unfolding sample_response
  sample_live rules parsed buf lat sh tier = ground arith

  complete-Together :
      (lat : ℕ × ℕ) (sh : Shared F H) (conn : Conn F) (tier : Tier)
      → let s = complete lat sh conn in Together tier sh.counters conn.res s.0.counters s.1.res
  unfolding complete
  complete-Together lat sh conn tier = ground arith

  on_response-Together :
      (cfg : Config F) (intended : ℕ) (t : Turn) (parsed : ParsedResponse) (sh : Shared F H)
      (conn : Conn F) (tier : Tier)
      → let s = on_response cfg intended t parsed sh conn in
        Together tier sh.counters conn.res s.0.counters s.1.res
  unfolding on_response
  on_response-Together cfg intended t parsed sh conn tier =
      let lat = latencies intended t in
      let a = complete lat sh conn in
      let b = sample_response cfg.rules parsed t.buf lat.0 a.0 in
      let v = classify cfg.rules parsed.status lat.0 parsed.content_length parsed.content_type_lc in
      let d = count_verdict v cfg.rl intended parsed.retry_after_ms a.1 b.counters in
      let sampled = sample_live cfg.rules parsed t.buf lat.0 a.0 tier in
      let first = complete-Together lat sh conn tier in
      let last =
        count_verdict-Together v cfg.rl intended parsed.retry_after_ms a.1 b.counters tier in
      record {
        same = omega (arith, sampled, first.same, last.same);
        fits = λ k. last.fits (rw sampled (first.fits k));
      }

  -- In every turn that passed the abort check, however it ends, each counter of the worker moves by what the connection adds to
  -- its own count of the same tier (modulo 2 ^ 64), and stays a 64-bit number.
  pub checked-Together :
      (cfg : Config F) (t : Turn) (sh : Shared F H) (conn : Conn F) (tier : Tier)
      → let s = checked cfg t sh conn in Together tier sh.counters conn.res s.0.counters s.1.res
  checked-Together cfg t sh conn tier =
      checked_cases (λ sh' conn' flow. Together tier sh.counters conn.res sh'.counters conn'.res)
        cfg t sh conn (ground arith) (ground arith) (ground arith) (ground arith) (ground arith)
        (λ w parsed e.
          on_response-Together cfg (intended_send_time conn.sched) t parsed sh (paced t conn) tier)
