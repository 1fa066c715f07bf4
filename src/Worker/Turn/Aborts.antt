-- ===== src/Worker/Turn/Aborts.antt =====
-- The abort flag over a turn (worker.rs).
use correctness_bench.Common.{ℕ, ◌≡◌, true, Option, Bytes, arith}
use correctness_bench.Float.{Float}
use correctness_bench.Hist.Library.{Hdr}
use correctness_bench.Sched.{intended_send_time}
use correctness_bench.Worker.Spec.{RlAction, RlConfig}
use correctness_bench.Worker.Assert.{Verdict, InlineAssert, classify}
use correctness_bench.Worker.Counters.{LiveCounters}
use correctness_bench.Worker.Connection.{
  ParsedResponse, Shared, Conn, Config, Turn, latencies, record_onset, back_off, rate_limit_policy,
  sample_response, count_verdict,
}
use correctness_bench.Worker.Turn.{complete, on_response, checked}
use correctness_bench.Worker.Turn.Cases.{paced, checked_cases}

module _ {F : Type 0} ⦃f : Float F⦄ where
  policy_abort :
      (action : RlAction) (rl : RlConfig F) (ra : Option ℕ) (conn : Conn F) (c : LiveCounters)
      → c.abort ≡ true
      → (rate_limit_policy action rl ra conn c).1.abort ≡ true
  unfolding rate_limit_policy back_off
  policy_abort action rl ra conn c up = ground arith

  count_verdict_abort :
      (v : Verdict) (rl : RlConfig F) (intended : ℕ) (ra : Option ℕ) (conn : Conn F)
      (c : LiveCounters)
      → c.abort ≡ true
      → (count_verdict v rl intended ra conn c).1.abort ≡ true
  unfolding count_verdict record_onset
  count_verdict_abort Verdict.rate_limited rl intended ra conn c up =
      let r = conn.res in
      policy_abort rl.action rl ra (record conn { res = record r { rate_limited = _ } })
        (record_onset rl intended (record c { rate_limited = _ })) (ground arith)
  count_verdict_abort v rl intended ra conn c up = ground arith

module _ {F H : Type 0} ⦃f : Float F⦄ ⦃h : Hdr H⦄ where
  sample_abort :
      (rules : InlineAssert) (parsed : ParsedResponse) (buf : Bytes) (lat : ℕ) (sh : Shared F H)
      → sh.counters.abort ≡ true
      → (sample_response rules parsed buf lat sh).counters.abort ≡ true
  unfolding sample_response
  sample_abort rules parsed buf lat sh up = ground arith

  on_response_abort :
      (cfg : Config F) (intended : ℕ) (t : Turn) (parsed : ParsedResponse) (sh : Shared F H)
      (conn : Conn F)
      → sh.counters.abort ≡ true
      → (on_response cfg intended t parsed sh conn).0.counters.abort ≡ true
  unfolding on_response complete
  on_response_abort cfg intended t parsed sh conn up =
      let lat = latencies intended t in
      let a = complete lat sh conn in
      let b = sample_response cfg.rules parsed t.buf lat.0 a.0 in
      let v = classify cfg.rules parsed.status lat.0 parsed.content_length parsed.content_type_lc in
      count_verdict_abort v cfg.rl intended parsed.retry_after_ms a.1 b.counters
        (sample_abort cfg.rules parsed t.buf lat.0 a.0 up)

  -- A flag that is up stays up over a turn, whatever becomes of the turn.
  pub checked_abort :
      (cfg : Config F) (t : Turn) (sh : Shared F H) (conn : Conn F)
      → sh.counters.abort ≡ true
      → (checked cfg t sh conn).0.counters.abort ≡ true
  checked_abort cfg t sh conn up =
      checked_cases (λ sh' conn' flow. sh'.counters.abort ≡ true) cfg t sh conn up up up up up
        (λ w parsed e.
          on_response_abort cfg (intended_send_time conn.sched) t parsed sh (paced t conn) up)
