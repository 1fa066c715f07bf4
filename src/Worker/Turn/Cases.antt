-- ===== src/Worker/Turn/Cases.antt =====
-- How a turn of `connection_task` can end (worker.rs): the case rules for the proofs about turns.
use correctness_bench.Common.{ℕ, ◌/◌, ◌≡◌, false, some, if_cases, option_cases, u64_add, leb}
use correctness_bench.Float.{Float}
use correctness_bench.Hist.Library.{Hdr}
use correctness_bench.Sched.{usec_to_next_send, intended_send_time}
use correctness_bench.Sched.Origin.{intended-usec_to_next_send}
use correctness_bench.Worker.Connection.{
  ParsedResponse, ReadResult, Shared, Conn, Config, Turn, Flow, again, stop, starved, wait_for,
}
use correctness_bench.Worker.Turn.{on_response, on_read, send, checked, turn}

module _ {F : Type 0} ⦃f : Float F⦄ where
  -- the connection once its schedule has been asked for the wait
  abbrev pub paced : Turn → Conn F → Conn F
  paced t conn = record conn { sched = (usec_to_next_send conn.sched (t.now_ns / 1000)).0 }

  abbrev pub wait_of : Turn → Conn F → ℕ
  wait_of t conn = (usec_to_next_send conn.sched (t.now_ns / 1000)).1

  abbrev pub failed_connection : Conn F → Conn F
  failed_connection conn =
      let r = conn.res in record conn { res = record r { conn_errors = u64_add r.conn_errors 1 } }

  abbrev pub timed_out : Conn F → Conn F
  timed_out conn =
      let r = conn.res in record conn { res = record r { timeouts = u64_add r.timeouts 1 } }

module _ {F H : Type 0} ⦃f : Float F⦄ ⦃h : Hdr H⦄ where
  module _ {ℓ} (P : Shared F H → Conn F → Flow → Type ℓ) (cfg : Config F) (t : Turn) where
    on_read_cases :
        (read : ReadResult) (intended : ℕ) (sh : Shared F H) (conn : Conn F)
        → P sh (failed_connection conn) stop
        → P sh (timed_out conn) stop
        → ((parsed : ParsedResponse)
            → let r = on_response cfg intended t parsed sh conn in P r.0 r.1 again)
        → let r = on_read read cfg intended t sh conn in P r.0 r.1 r.2
    unfolding on_read
    on_read_cases (ReadResult.ok parsed) intended sh conn broken late answered = answered parsed
    on_read_cases ReadResult.timeout intended sh conn broken late answered = late
    on_read_cases ReadResult.err intended sh conn broken late answered = broken

    send_cases :
        (sh : Shared F H) (conn : Conn F)
        → P sh conn stop
        → P sh (failed_connection conn) stop
        → P sh (timed_out conn) stop
        → ((parsed : ParsedResponse)
            → let r = on_response cfg (intended_send_time conn.sched) t parsed sh conn in
              P r.0 r.1 again)
        → let r = send cfg t sh conn in P r.0 r.1 r.2
    unfolding send
    send_cases sh conn over broken late answered =
        let Q : Shared F H × Conn F × Flow → Type ℓ = λ r. P r.0 r.1 r.2 in
        if_cases Q (leb cfg.deadline_ns t.check_ns) _ _ (λ _. over)
          (λ _.
            if_cases Q t.written _ _
              (λ _.
                on_read_cases t.read (intended_send_time conn.sched) sh conn broken late answered)
              (λ _. broken))

    -- Whatever holds after each of its endings holds after a turn that has passed the abort check. A
    -- response is handled only if the wait was over.
    pub checked_cases :
        (sh : Shared F H) (conn : Conn F)
        → P sh conn stop
        → P sh (paced t conn) starved
        → P sh (paced t conn) stop
        → P sh (failed_connection (paced t conn)) stop
        → P sh (timed_out (paced t conn)) stop
        → ((woke : ℕ) (parsed : ParsedResponse)
            → wait_for t.now_ns (wait_of t conn) t.spins ≡ some woke
            → let r = on_response cfg (intended_send_time conn.sched) t parsed sh (paced t conn) in
              P r.0 r.1 again)
        → let r = checked cfg t sh conn in P r.0 r.1 r.2
    unfolding checked
    checked_cases sh conn idle spinning over broken late answered =
        let Q : Shared F H × Conn F × Flow → Type ℓ = λ r. P r.0 r.1 r.2 in
        let kept = intended-usec_to_next_send conn.sched (t.now_ns / 1000) in
        if_cases Q (leb cfg.deadline_ns t.now_ns) _ _ (λ _. idle)
          (λ _.
            option_cases Q (wait_for t.now_ns (wait_of t conn) t.spins) _ _ (λ _. spinning)
              (λ woke e.
                send_cases sh (paced t conn) over broken late
                  (λ parsed. rw kept (answered woke parsed e))))

    -- Whatever holds after each of its endings holds after a turn. A response is handled only if the
    -- abort flag was down and the wait was over.
    pub turn_cases :
        (sh : Shared F H) (conn : Conn F)
        → P sh conn stop
        → P sh (paced t conn) starved
        → P sh (paced t conn) stop
        → P sh (failed_connection (paced t conn)) stop
        → P sh (timed_out (paced t conn)) stop
        → ((woke : ℕ) (parsed : ParsedResponse)
            → sh.counters.abort ≡ false
            → wait_for t.now_ns (wait_of t conn) t.spins ≡ some woke
            → let r = on_response cfg (intended_send_time conn.sched) t parsed sh (paced t conn) in
              P r.0 r.1 again)
        → let r = turn cfg t sh conn in P r.0 r.1 r.2
    unfolding turn
    turn_cases sh conn idle spinning over broken late answered =
        let Q : Shared F H × Conn F × Flow → Type ℓ = λ r. P r.0 r.1 r.2 in
        if_cases Q sh.counters.abort _ _ (λ _. idle)
          (λ up.
            checked_cases sh conn idle spinning over broken late
              (λ woke parsed e. answered woke parsed up e))
