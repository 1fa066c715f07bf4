-- ===== src/Worker/Turn/Limits.antt =====
-- What a 429 does and does not do (worker.rs).
use correctness_bench.Common.{
  ℕ, ◌+◌, ◌*◌, ◌≤◌, ◌<◌, ◌≡◌, ◌∙◌, Bool, true, false, ◌||◌, Option, some, Bytes, arith, min,
  u64_mod, u64_add,
}
use correctness_bench.Float.{Float, IsIeee, ◌≼◌}
use correctness_bench.Hist.Library.{Hdr}
use correctness_bench.Sched.{intended_send_time, defer_origin}
use correctness_bench.Worker.Spec.{RlAction, RlConfig, offered_rps_at}
use correctness_bench.Worker.Assert.{Verdict, rate_limited, InlineAssert, classify}
use correctness_bench.Worker.Assert.Tiers.{classify_iff}
use correctness_bench.Worker.Counters.{ConnResult, LiveCounters, load_first_429_rps}
use correctness_bench.Worker.Connection.{
  ParsedResponse, Shared, Conn, Config, Turn, stop, latencies, record_onset, back_off,
  rate_limit_policy, sample_response, count_verdict,
}
use correctness_bench.Worker.Turn.{complete, on_response, turn}
use correctness_bench.Worker.Turn.Cases.{paced, turn_cases}

module _ {F : Type 0} ⦃f : Float F⦄ where
  -- Backing off for a 429 with `Retry-After: ra` shifts the schedule by just the time that it adds to
  -- the backoff total, which is at most the cap; without wrap-around the two stay equal.
  pub back_off_shift :
      (rl : RlConfig F) (ra : ℕ) (conn : Conn F) (c : LiveCounters)
      → conn.sched.thread_start_us + rl.max_backoff_ms * 1000 < u64_mod
      → conn.res.backoff_us_total + rl.max_backoff_ms * 1000 < u64_mod
      → let conn' = (back_off rl ra conn c).0 in
        (conn'.sched.thread_start_us + conn.res.backoff_us_total
          ≡ conn.sched.thread_start_us + conn'.res.backoff_us_total)
        × (conn'.res.backoff_us_total ≤ conn.res.backoff_us_total + rl.max_backoff_ms * 1000)
        × (conn'.res.backoff_us_total ≡ conn.res.backoff_us_total + min ra rl.max_backoff_ms * 1000)
  unfolding back_off defer_origin
  back_off_shift rl ra conn c h k = ground arith

-- The correctness counts of a connection are as before, and one more 429 is counted.
pub record OnlyLimited (r r' : ConnResult) : Type 0 where
  pub pass_same : r'.pass ≡ r.pass
  pub status_same : r'.fail_status ≡ r.fail_status
  pub latency_same : r'.fail_latency ≡ r.fail_latency
  pub size_same : r'.fail_size ≡ r.fail_size
  pub type_same : r'.fail_content_type ≡ r.fail_content_type
  pub one_more : r'.rate_limited ≡ u64_add r.rate_limited 1
  pub responded : r'.completed ≡ u64_add r.completed 1

-- What the onset guard promises between two states of the counters.
pub record OnsetKept (c c' : LiveCounters) : Type 0 where
  pub seen_stays : c.first_429_seen ≡ true → c'.first_429_seen ≡ true
  pub bits_stay : c.first_429_seen ≡ true → c'.first_429_rps_bits ≡ c.first_429_rps_bits
  pub abort_stays : c.abort ≡ true → c'.abort ≡ true

abbrev pub is_abort : RlAction → Bool
is_abort RlAction.abort = true
is_abort _ = false

module _ {F : Type 0} ⦃f : Float F⦄ where
  policy_limited :
      (a : RlAction) (rl : RlConfig F) (ra : Option ℕ) (conn : Conn F) (c : LiveCounters)
      → let s = rate_limit_policy a rl ra conn c in
        (s.0.res.pass ≡ conn.res.pass)
        × (s.0.res.fail_status ≡ conn.res.fail_status)
        × (s.0.res.fail_latency ≡ conn.res.fail_latency)
        × (s.0.res.fail_size ≡ conn.res.fail_size)
        × (s.0.res.fail_content_type ≡ conn.res.fail_content_type)
        × (s.0.res.rate_limited ≡ conn.res.rate_limited)
        × (s.0.res.completed ≡ conn.res.completed)
        × (s.1.first_429_seen ≡ c.first_429_seen)
        × (s.1.first_429_rps_bits ≡ c.first_429_rps_bits)
        × (s.1.abort ≡ is_abort a || c.abort)
  unfolding rate_limit_policy
  policy_limited a rl ra conn c = ground arith

  count_verdict-OnsetKept :
      (v : Verdict) (rl : RlConfig F) (intended : ℕ) (ra : Option ℕ) (conn : Conn F)
      (c : LiveCounters)
      → OnsetKept c (count_verdict v rl intended ra conn c).1
  unfolding count_verdict
  count_verdict-OnsetKept rate_limited rl intended ra conn c =
      let r' = record conn.res { rate_limited = u64_add conn.res.rate_limited 1 } in
      let c' = record c { rate_limited = u64_add c.rate_limited 1 } in
      let kept =
        policy_limited rl.action rl ra (record conn { res = r' }) (record_onset rl intended c') in
      ground arith
  count_verdict-OnsetKept v rl intended ra conn c = ground arith

  -- The first 429 of a run that records the onset makes the onset readable: it is the rate offered at
  -- the slot of that request.
  pub onset_recorded :
      (laws : IsIeee F) (rl : RlConfig F) (intended : ℕ) (c : LiveCounters)
      → rl.record_onset ≡ true
      → c.first_429_seen ≡ false
      → offered_rps_at rl intended ≼ offered_rps_at rl intended
      → load_first_429_rps (record_onset rl intended c) ≡ some (offered_rps_at rl intended)
  unfolding load_first_429_rps record_onset
  onset_recorded laws rl intended c on first num =
      let x = offered_rps_at rl intended in
      ground (arith, laws.to_bits_ne x num, laws.from_bits-to_bits x)

module _ {F H : Type 0} ⦃f : Float F⦄ ⦃h : Hdr H⦄ where
  sample-OnsetKept :
      (rules : InlineAssert) (parsed : ParsedResponse) (buf : Bytes) (lat : ℕ) (sh : Shared F H)
      → let c' = (sample_response rules parsed buf lat sh).counters in
        OnsetKept sh.counters c' × OnsetKept c' sh.counters
  unfolding sample_response
  sample-OnsetKept rules parsed buf lat sh = ground arith

  on_response-OnsetKept :
      (cfg : Config F) (intended : ℕ) (t : Turn) (parsed : ParsedResponse) (sh : Shared F H)
      (conn : Conn F)
      → OnsetKept sh.counters (on_response cfg intended t parsed sh conn).0.counters
  unfolding on_response complete
  on_response-OnsetKept cfg intended t parsed sh conn =
      let lat = latencies intended t in
      let a = complete lat sh conn in
      let s = sample_response cfg.rules parsed t.buf lat.0 a.0 in
      let v = classify cfg.rules parsed.status lat.0 parsed.content_length parsed.content_type_lc in
      let p = (sample-OnsetKept cfg.rules parsed t.buf lat.0 a.0).0 in
      let q = count_verdict-OnsetKept v cfg.rl intended parsed.retry_after_ms a.1 s.counters in
      record {
        seen_stays = λ e. q.seen_stays (p.seen_stays e);
        bits_stay = λ e. q.bits_stay (p.seen_stays e) ∙ p.bits_stay e;
        abort_stays = λ e. q.abort_stays (p.abort_stays e);
      }

  turn-OnsetKept :
      (cfg : Config F) (t : Turn) (sh : Shared F H) (conn : Conn F)
      → OnsetKept sh.counters (turn cfg t sh conn).0.counters
  turn-OnsetKept cfg t sh conn =
      turn_cases (λ sh' conn' flow. OnsetKept sh.counters sh'.counters) cfg t sh conn (ground arith)
        (ground arith) (ground arith) (ground arith) (ground arith)
        (λ w parsed up e.
          on_response-OnsetKept cfg (intended_send_time conn.sched) t parsed sh (paced t conn))

  -- The onset is written once: after the first 429 no turn of any connection changes it.
  pub turn_onset_once :
      (cfg : Config F) (t : Turn) (sh : Shared F H) (conn : Conn F)
      → sh.counters.first_429_seen ≡ true
      → let c = (turn cfg t sh conn).0.counters in
        (c.first_429_seen ≡ true) × (load_first_429_rps {F = F} c ≡ load_first_429_rps sh.counters)
  unfolding load_first_429_rps
  turn_onset_once cfg t sh conn seen =
      let kept = turn-OnsetKept cfg t sh conn in (kept.seen_stays seen, rw (kept.bits_stay seen))

  -- Once the abort flag is up, a turn does nothing and ends its task.
  pub turn_abort :
      (cfg : Config F) (t : Turn) (sh : Shared F H) (conn : Conn F)
      → sh.counters.abort ≡ true
      → turn cfg t sh conn ≡ (sh, conn, stop)
  unfolding turn
  turn_abort cfg t sh conn up = simp up

  sample_abort :
      (rules : InlineAssert) (parsed : ParsedResponse) (buf : Bytes) (lat : ℕ) (sh : Shared F H)
      → (sample_response rules parsed buf lat sh).counters.abort ≡ sh.counters.abort
  unfolding sample_response
  sample_abort rules parsed buf lat sh = ground arith

  -- A response with status 429, whatever the assertions say of it and whatever the policy, changes no
  -- count of passes or failures of its connection: it is counted as completed and as rate limited.
  -- The abort flag is up afterwards if it was before or the policy is to abort, and only then.
  pub on_response_429 :
      (cfg : Config F) (intended : ℕ) (t : Turn) (parsed : ParsedResponse) (sh : Shared F H)
      (conn : Conn F)
      → parsed.status ≡ 429
      → let s = on_response cfg intended t parsed sh conn in
        OnlyLimited conn.res s.1.res
        × (s.0.counters.abort ≡ is_abort cfg.rl.action || sh.counters.abort)
  unfolding on_response complete count_verdict record_onset
  on_response_429 cfg intended t parsed sh conn is_429 =
      let lat = latencies intended t in
      let a = complete lat sh conn in
      let b = sample_response cfg.rules parsed t.buf lat.0 a.0 in
      let e =
        (classify_iff cfg.rules parsed.status lat.0 parsed.content_length parsed.content_type_lc
            rate_limited).1
          is_429 in
      let r' = record a.1.res { rate_limited = u64_add a.1.res.rate_limited 1 } in
      let c' = record b.counters { rate_limited = u64_add b.counters.rate_limited 1 } in
      let kept =
        policy_limited cfg.rl.action cfg.rl parsed.retry_after_ms (record a.1 { res = r' })
          (record_onset cfg.rl intended c') in
      let same = sample_abort cfg.rules parsed t.buf lat.0 a.0 in ground (arith, e)
