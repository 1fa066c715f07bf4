-- ===== src/Worker/Connection.antt =====
-- `connection_task` of engine/src/worker.rs: one turn of its loop. Every clock reading that the turn
-- takes is an input, an `Instant` being its distance from `worker_start` in nanoseconds, and so are the
-- outcomes of the write and of `read_one_response`. The turn's updates of the shared state are one
-- step; turns of different connections interleave (Worker/Run).
use correctness_bench.Common.{
  ℕ, ◌+◌, ◌*◌, ◌/◌, ◌%◌, Bool, true, not, ◌&&◌, Option, none, some, List, [], ◌∷◌, ◌++◌, Bytes, ltb,
  ◌==◌, min, max, length, if◌then◌else◌, u64_add, saturating_mul, saturating_sub, take, drop,
}
use correctness_bench.Float.{Float, whole}
use correctness_bench.Sched.{ConnSched, defer_origin}
use correctness_bench.Hist.{Histos}
use correctness_bench.Worker.Spec.{RlAction, RlConfig, offered_rps_at}
use correctness_bench.Worker.Assert.{Verdict, InlineAssert}
use correctness_bench.Worker.Counters.{ConnResult, LiveCounters}

pub record SampledResponse (F : Type 0) : Type 0 where
  pub rps_at_send : F
  pub status : ℕ
  pub corrected_lat_us : ℕ
  pub body : Bytes
  pub body_truncated : Bool

pub record ParsedResponse : Type 0 where
  pub msg_len : ℕ
  pub status : ℕ
  pub content_length : ℕ
  pub content_type_lc : Option Bytes
  pub retry_after_ms : Option ℕ

pub data ReadResult : Type 0 where
  ok : ParsedResponse → ReadResult
  timeout : ReadResult
  err : ReadResult

-- What all connection tasks share.
pub record Shared (F H : Type 0) : Type 0 where
  pub counters : LiveCounters
  pub histos : Histos H
  pub samples : List (SampledResponse F)

-- What one task owns; `buf` is the filled part of its read buffer.
pub record Conn (F : Type 0) : Type 0 where
  pub sched : ConnSched F
  pub res : ConnResult
  pub buf : Bytes

pub record Config (F : Type 0) : Type 0 where
  pub rules : InlineAssert
  pub rl : RlConfig F
  pub deadline_ns : ℕ

-- The outside world during one turn: `now_ns`, the readings of the spin loop, the reading of the
-- second deadline check, those of `elapsed` at the send and at the receipt, and the two outcomes. `buf`
-- is the filled buffer after the read.
pub record Turn : Type 0 where
  pub now_ns : ℕ
  pub spins : List ℕ
  pub check_ns : ℕ
  pub send_ns : ℕ
  pub written : Bool
  pub read : ReadResult
  pub buf : Bytes
  pub recv_ns : ℕ

-- `starved`: the spin loop is still turning when the readings end.
pub data Flow : Type 0 where
  again stop starved : Flow

-- `while Instant::now() < target`
unfoldable pub spin_until : ℕ → List ℕ → Option ℕ
spin_until target [] = none
spin_until target (t ∷ ts) = if ltb t target then spin_until target ts else some t

-- The wait before a send; with no wait the loop is not entered.
unfoldable pub wait_for : ℕ → ℕ → List ℕ → Option ℕ
unfolding spin_until
wait_for now_ns wait_us spins =
    if ltb 0 wait_us then spin_until (now_ns + wait_us * 1000) spins else some now_ns

-- Corrected and uncorrected latency of a response.
unfoldable pub latencies : ℕ → Turn → ℕ × ℕ
latencies intended_us t =
    let recv_us = t.recv_ns / 1000 in
    (max (saturating_sub recv_us intended_us) 1, max (saturating_sub recv_us (t.send_ns / 1000)) 1)

module _ {F : Type 0} ⦃f : Float F⦄ where
  -- The body is kept as its bytes, before `String::from_utf8_lossy`.
  unfoldable pub sample_of : InlineAssert → ParsedResponse → Bytes → ℕ → SampledResponse F
  sample_of rules parsed buf corrected =
      let body =
        drop (saturating_sub parsed.msg_len parsed.content_length) (take parsed.msg_len buf) in
      let cap = rules.max_sampled_body_bytes in
      let cut = ltb 0 cap && ltb cap (length body) in
      record {
        rps_at_send = whole 0;
        status = parsed.status;
        corrected_lat_us = corrected;
        body = if cut then take cap body else body;
        body_truncated = cut;
      }

  -- Every N-th response of the worker is sampled.
  unfoldable pub sample_response :
      {H : Type 0} → InlineAssert → ParsedResponse → Bytes → ℕ → Shared F H → Shared F H
  unfolding sample_of
  sample_response rules parsed buf corrected sh =
      let c = sh.counters in
      let seq = u64_add c.sample_seq 1 in
      if ltb 0 rules.sample_every_n
      then record sh {
        counters = record c { sample_seq = seq };
        samples =
            if seq % rules.sample_every_n == 0
            then sh.samples ++ (sample_of rules parsed buf corrected ∷ [])
            else sh.samples;
      }
      else sh

  -- The onset: the compare-and-swap lets only the first observer write.
  unfoldable pub record_onset : RlConfig F → ℕ → LiveCounters → LiveCounters
  record_onset rl intended_us c =
      if rl.record_onset && not c.first_429_seen
      then record c {
        first_429_seen = true;
        first_429_rps_bits = f.to_bits (offered_rps_at rl intended_us);
      }
      else c

  -- The backoff of `RlAction::Backoff` in microseconds, for a 429 that carries `Retry-After`.
  unfoldable pub backoff_us : RlConfig F → ℕ → ℕ
  backoff_us rl ra_ms = saturating_mul (min ra_ms rl.max_backoff_ms) 1000

  unfoldable pub back_off : RlConfig F → ℕ → Conn F → LiveCounters → Conn F × LiveCounters
  unfolding backoff_us
  back_off rl ra_ms conn c =
      let us = backoff_us rl ra_ms in
      let c' = record c { last_retry_after_ms = ra_ms } in
      let r = conn.res in
      if ltb 0 (min ra_ms rl.max_backoff_ms)
      then (
        record conn {
          res = record r { backoff_us_total = u64_add r.backoff_us_total us };
          sched = defer_origin conn.sched us;
        },
        record c' { backoff_us_total = u64_add c'.backoff_us_total us },
      )
      else (conn, c')

  -- the `match rl.action`
  unfoldable pub rate_limit_policy :
      RlAction → RlConfig F → Option ℕ → Conn F → LiveCounters → Conn F × LiveCounters
  unfolding back_off
  rate_limit_policy RlAction.continue rl ra conn c = (conn, c)
  rate_limit_policy RlAction.abort rl ra conn c = (conn, record c { abort = true })
  rate_limit_policy RlAction.backoff rl none conn c = (conn, c)
  rate_limit_policy RlAction.backoff rl (some ra_ms) conn c = back_off rl ra_ms conn c

  -- the `match verdict`
  unfoldable pub count_verdict :
      Verdict → RlConfig F → ℕ → Option ℕ → Conn F → LiveCounters → Conn F × LiveCounters
  unfolding rate_limit_policy record_onset
  count_verdict Verdict.pass rl intended_us ra conn c =
      let r = conn.res in
      (
        record conn { res = record r { pass = u64_add r.pass 1 } },
        record c { pass = u64_add c.pass 1 },
      )
  count_verdict Verdict.fail_status rl intended_us ra conn c =
      let r = conn.res in
      (
        record conn { res = record r { fail_status = u64_add r.fail_status 1 } },
        record c { fail_status = u64_add c.fail_status 1 },
      )
  count_verdict Verdict.fail_latency rl intended_us ra conn c =
      let r = conn.res in
      (
        record conn { res = record r { fail_latency = u64_add r.fail_latency 1 } },
        record c { fail_latency = u64_add c.fail_latency 1 },
      )
  count_verdict Verdict.fail_size rl intended_us ra conn c =
      let r = conn.res in
      (
        record conn { res = record r { fail_size = u64_add r.fail_size 1 } },
        record c { fail_size = u64_add c.fail_size 1 },
      )
  count_verdict Verdict.fail_content_type rl intended_us ra conn c =
      let r = conn.res in
      (
        record conn { res = record r { fail_content_type = u64_add r.fail_content_type 1 } },
        record c { fail_content_type = u64_add c.fail_content_type 1 },
      )
  count_verdict Verdict.rate_limited rl intended_us ra conn c =
      let r = conn.res in
      rate_limit_policy rl.action rl ra
        (record conn { res = record r { rate_limited = u64_add r.rate_limited 1 } })
        (record_onset rl intended_us (record c { rate_limited = u64_add c.rate_limited 1 }))
