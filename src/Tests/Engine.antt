-- ===== src/Tests/Engine.antt =====
-- The schedule, the connections, the reader and the ticks of a worker on concrete inputs.
use correctness_bench.Common.{
  ℕ, ◌+◌, ◌*◌, get_elem?, ◌-◌, ◌/◌, ◌≤◌, ◌<◌, ◌≡◌, ◌↔◌, refl, true, false, ◌||◌, none, some, List,
  [], ◌∷◌, ◌++◌, map, arith, max, Bytes, zero, suc, length, codes, parse_u64, replicate, u64_add,
}
use correctness_bench.Float.Fixed.{Fixed, fixed_float}
use correctness_bench.Hist.{record_both}
use correctness_bench.Hist.Listed.{Listed, listed_hdr}
use correctness_bench.Sched.{
  new, slot, catch_up_next, usec_to_next_send, intended_send_time, advance, defer_origin,
}
use correctness_bench.Sched.Origin.{advance_by, intended-defer_origin}
use correctness_bench.Sched.Pacing.{Op, respond, schedule_at, run, PacesFrom, catch_up_pacing}
use correctness_bench.Worker.Assert.{Verdict, classify}
use correctness_bench.Worker.Assert.Tiers.{Explains, classify_iff}
use correctness_bench.Worker.Connection.{
  Shared, wait_for, latencies, count_verdict, sample_response,
}
use correctness_bench.Worker.Turn.{on_response, checked, turn}
use correctness_bench.Worker.Turn.Omission.{turn_omission}
use correctness_bench.Worker.Turn.Limits.{OnlyLimited, is_abort, on_response_429}
use correctness_bench.Worker.Run.{
  World, enters, turns, cancelled, Happening, happen, config_of, start, happen_all, report,
}
use correctness_bench.Worker.Run.Cancel.{level, in_flight, happen_all-cancelled}
use correctness_bench.Worker.Ticks.{seen}
use correctness_bench.Worker.Ticks.Deltas.{Column}
use mathlib.Core.Option
use correctness_bench.Worker.Run.Halt.{acts, steps_taken, rank, happen_all-rank}
use correctness_bench.Worker.Run.Books.{result, IsHonest, report-IsHonest}
use correctness_bench.Worker.Reader.{
  Head, HttpParser, Event, SocketRead, ParseOutcome, read_one_response, attempt, see_headers,
}
use correctness_bench.Worker.Reader.Framing.{
  Answers, FitsBuffer, received, LiesIn, read_one_response_total, read_one_response_ok,
  attempt_wraps,
}
use correctness_bench.Tests.Data.{
  rules, rl, cfg, conn, counters, shared, limited_response, a_turn, spec,
}
use correctness_bench.Worker.Connection.{ParsedResponse}

abbrev history : List Op
history = respond ∷ schedule_at 4000 ∷ respond ∷ []

second_slot : intended_send_time {F = Fixed} (run (new 0 1000) history) ≡ 2000
unfolding run new intended_send_time slot advance usec_to_next_send catch_up_next
second_slot = refl

catch_up_pacing_example : PacesFrom {F = Fixed} 1000 9000 (run (new 0 1000) history)
catch_up_pacing_example =
    catch_up_pacing 0 1000 history 9000 (omega arith) (omega (arith, second_slot))

intended-defer_origin_example :
    intended_send_time (advance_by 2 (defer_origin conn.sched 500))
    ≡ u64_add (intended_send_time (advance_by 2 conn.sched)) 500
intended-defer_origin_example = intended-defer_origin 2 conn.sched 500 (omega arith)

turn_omission_example :
    let lat = latencies (intended_send_time conn.sched) a_turn in
    ((turn cfg a_turn shared conn).0.histos ≡ record_both shared.histos lat.0 lat.1)
    × (lat.0 ≡ max (3_000_000 / 1000 - intended_send_time conn.sched) 1)
    × (lat.1 ≤ lat.0)
unfolding turn wait_for usec_to_next_send intended_send_time slot
turn_omission_example =
    turn_omission cfg a_turn shared conn 1_000_100 refl
      (record { spun = omega arith; checked = omega arith; sent = omega arith }) refl

classify_iff_example :
    (classify rules 200 2000 2 (some (116 ∷ [])) ≡ Verdict.fail_content_type)
    ↔ Explains rules 200 2000 2 (some (116 ∷ [])) Verdict.fail_content_type
classify_iff_example = classify_iff rules 200 2000 2 (some (116 ∷ [])) Verdict.fail_content_type

-- the second connection's turn is under way when the run is cancelled
abbrev interleaved : List Happening
interleaved =
    enters 0 ∷ enters 1 ∷ turns 0 a_turn ∷ cancelled ∷ turns 1 a_turn ∷ enters 0 ∷ enters 1 ∷ []

report-IsHonest_example :
    let w : World Fixed Listed =
      happen_all (config_of spec) (start spec (true ∷ true ∷ [])) interleaved in
    IsHonest w.shared.counters (report spec 5_000_000_000 w (map result w.tasks))
report-IsHonest_example = report-IsHonest spec (true ∷ true ∷ []) interleaved 5_000_000_000

abbrev two_tasks : World Fixed Listed
two_tasks = record {
  shared = shared;
  tasks =
      record { conn = conn; running = true; under_way = true }
      ∷ record { conn = conn; running = true; under_way = false }
      ∷ [];
}

happen_all-cancelled_example :
    let c = happen cfg two_tasks cancelled in
    let after = happen_all cfg c (enters 1 ∷ turns 0 a_turn ∷ enters 0 ∷ []) in
    (level Column.total two_tasks ≤ level Column.total after)
    × (level Column.total after + in_flight after.tasks
        ≤ level Column.total two_tasks + in_flight two_tasks.tasks)
    × (Option.map result (get_elem? after.tasks 1) ≡ some conn.res)
unfolding seen
happen_all-cancelled_example =
    happen_all-cancelled Column.total cfg two_tasks (enters 1 ∷ turns 0 a_turn ∷ enters 0 ∷ []) 1
      (record { conn = conn; running = true; under_way = false }) (omega arith) refl refl

-- the first task ends its turn, and both find the flag up
abbrev draining : List Happening
draining = enters 1 ∷ turns 0 a_turn ∷ enters 0 ∷ []

over : acts cfg (happen_all cfg (happen cfg two_tasks cancelled) draining) (enters 1) ≡ false
unfolding happen_all checked wait_for usec_to_next_send intended_send_time slot count_verdict
    classify sample_response
over = refl

happen_all-rank_example :
    let c = happen cfg two_tasks cancelled in
    let after = happen_all cfg c draining in
    (steps_taken cfg c draining + rank after.tasks ≤ rank two_tasks.tasks)
    × (rank two_tasks.tasks ≤ 2 * length two_tasks.tasks)
    × (happen cfg after (enters 1) ≡ after)
happen_all-rank_example = happen_all-rank cfg two_tasks draining (enters 1) over

on_response_429_example :
    let s = on_response cfg 1000 a_turn limited_response shared conn in
    OnlyLimited conn.res s.1.res × (s.0.counters.abort ≡ is_abort rl.action || false)
on_response_429_example = on_response_429 cfg 1000 a_turn limited_response shared conn refl

abbrev seen_once : Shared Fixed Listed
seen_once = record shared {
  counters = record counters { first_429_seen = true; first_429_rps_bits = 7 };
}

-- a parser for which a head is two bytes long
abbrev head_of : Bytes → Head
head_of (a ∷ b ∷ rest) = Head.complete 2 (some 204) []
head_of _ = Head.partial

abbrev two_bytes : HttpParser
two_bytes = record { parse = head_of }

abbrev one_by_one : List Event
one_by_one =
    record { expired = false; read = SocketRead.got (7 ∷ []) }
    ∷ record { expired = false; read = SocketRead.got (8 ∷ []) }
    ∷ []

abbrev no_content : ParsedResponse
no_content = record {
  msg_len = 2;
  status = 204;
  content_length = 0;
  content_type_lc = none;
  retry_after_ms = none;
}

read_one_response_ok_example :
    ((k : ℕ) × (7 ∷ 8 ∷ [] ≡ [] ++ received k one_by_one))
    × (attempt two_bytes (7 ∷ 8 ∷ []) ≡ ParseOutcome.complete no_content)
    × (2 ≤ length {A = ℕ} (7 ∷ 8 ∷ []))
    × LiesIn (two_bytes.parse (7 ∷ 8 ∷ [])) no_content (7 ∷ 8 ∷ [])
unfolding read_one_response
read_one_response_ok_example =
    read_one_response_ok two_bytes [] one_by_one no_content (7 ∷ 8 ∷ []) refl

-- a parser whose head says that 2 ^ 64 - 1 bytes follow
abbrev long_content : HttpParser
long_content = record {
  parse = λ buf.
      Head.complete 2 (some 200) ((codes "Content-Length", codes "18446744073709551615") ∷ []);
}

attempt_wraps_example :
    (parsed : ParsedResponse) × (attempt long_content (7 ∷ 8 ∷ []) ≡ ParseOutcome.complete parsed)
    × (parsed.msg_len < 2)
unfolding see_headers parse_u64
attempt_wraps_example =
    attempt_wraps long_content (7 ∷ 8 ∷ []) 2 (some 200)
      ((codes "Content-Length", codes "18446744073709551615") ∷ []) refl (ground arith)
      (omega arith) (ground arith) (ground arith)

abbrev no_data : Event
no_data = record { expired = false; read = SocketRead.failed }

length-replicate : (n : ℕ) → length (replicate n no_data) ≡ n
length-replicate zero = refl
length-replicate (suc n) = omega (arith, length-replicate n)

replicate-FitsBuffer : (n : ℕ) → FitsBuffer [] (replicate n no_data)
replicate-FitsBuffer zero = omega arith
replicate-FitsBuffer (suc n) = (omega arith, replicate-FitsBuffer n)

read_one_response_total_example :
    Answers (read_one_response two_bytes [] (replicate 65_537 no_data))
read_one_response_total_example =
    read_one_response_total two_bytes [] (replicate 65_537 no_data) (replicate-FitsBuffer 65_537)
      (omega (arith, length-replicate 65_537))
