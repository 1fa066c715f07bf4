-- ===== src/Worker/Turn.antt =====
-- The loop body of `connection_task` (engine/src/worker.rs), from the abort check to `advance`.
pub mod Cases
pub mod Omission
pub mod Tally
pub mod Balance
pub mod Limits
pub mod Rises
pub mod Aborts
use correctness_bench.Common.{
  ℕ, ◌+◌, ◌/◌, Bool, Option, none, some, List, [], ◌∷◌, leb, if◌then◌else◌, u64_add, drop,
}
use correctness_bench.Float.{Float}
use correctness_bench.Sched.{ConnSched, usec_to_next_send, intended_send_time, advance}
use correctness_bench.Hist.{Histos, record_both}
use correctness_bench.Hist.Library.{Hdr}
use correctness_bench.Worker.Assert.{classify}
use correctness_bench.Worker.Counters.{ConnResult, LiveCounters}
use correctness_bench.Worker.Connection.{
  ParsedResponse, ReadResult, Shared, Conn, Config, Turn, Flow, again, stop, starved, wait_for,
  latencies, sample_response, count_verdict,
}

module _ {F H : Type 0} ⦃f : Float F⦄ ⦃h : Hdr H⦄ where
  -- `res.completed += 1` and `counters.completed.fetch_add(1)`, after both samples are recorded
  unfoldable pub complete : ℕ × ℕ → Shared F H → Conn F → Shared F H × Conn F
  complete (corrected, uncorrected) sh conn =
      let c = sh.counters in
      let r = conn.res in
      (
        record sh {
          histos = record_both sh.histos corrected uncorrected;
          counters = record c { completed = u64_add c.completed 1 };
        },
        record conn { res = record r { completed = u64_add r.completed 1 } },
      )

  -- The code from the receipt of a response to the end of the turn.
  unfoldable pub on_response :
      Config F → ℕ → Turn → ParsedResponse → Shared F H → Conn F → Shared F H × Conn F
  unfolding complete
  on_response cfg intended_us t parsed sh conn =
      let lat = latencies intended_us t in
      let (sh₁, conn₁) = complete lat sh conn in
      let sh₂ = sample_response cfg.rules parsed t.buf lat.0 sh₁ in
      let verdict =
        classify cfg.rules parsed.status lat.0 parsed.content_length parsed.content_type_lc in
      let (conn₂, c) =
        count_verdict verdict cfg.rl intended_us parsed.retry_after_ms conn₁ sh₂.counters in
      (
        record sh₂ { counters = c },
        record conn₂ { buf = drop parsed.msg_len t.buf; sched = advance conn₂.sched },
      )

  unfoldable pub on_read :
      ReadResult → Config F → ℕ → Turn → Shared F H → Conn F → Shared F H × Conn F × Flow
  unfolding on_response
  on_read (ReadResult.ok parsed) cfg intended_us t sh conn =
      let (sh', conn') = on_response cfg intended_us t parsed sh conn in (sh', conn', again)
  on_read ReadResult.timeout cfg intended_us t sh conn =
      let r = conn.res in
      (sh, record conn { res = record r { timeouts = u64_add r.timeouts 1 } }, stop)
  on_read ReadResult.err cfg intended_us t sh conn =
      let r = conn.res in
      (sh, record conn { res = record r { conn_errors = u64_add r.conn_errors 1 } }, stop)

  -- The code from the second deadline check to the read.
  unfoldable pub send : Config F → Turn → Shared F H → Conn F → Shared F H × Conn F × Flow
  unfolding on_read
  send cfg t sh conn =
      let r = conn.res in
      if leb cfg.deadline_ns t.check_ns
      then (sh, conn, stop)
      else if t.written
      then on_read t.read cfg (intended_send_time conn.sched) t sh conn
      else (sh, record conn { res = record r { conn_errors = u64_add r.conn_errors 1 } }, stop)

  -- The code after the abort check; `break` is `stop`.
  unfoldable pub checked : Config F → Turn → Shared F H → Conn F → Shared F H × Conn F × Flow
  unfolding send
  checked cfg t sh conn =
      let (sched, wait_us) = usec_to_next_send conn.sched (t.now_ns / 1000) in
      let paced = record conn { sched = sched } in
      if leb cfg.deadline_ns t.now_ns
      then (sh, conn, stop)
      else elim (wait_for t.now_ns wait_us t.spins) [
        | none ↦ (sh, paced, starved)
        | some woke ↦ send cfg t sh paced
      ]

  -- One turn that nothing interrupts.
  unfoldable pub turn : Config F → Turn → Shared F H → Conn F → Shared F H × Conn F × Flow
  unfolding checked
  turn cfg t sh conn =
      let rest = checked cfg t sh conn in if sh.counters.abort then (sh, conn, stop) else rest
