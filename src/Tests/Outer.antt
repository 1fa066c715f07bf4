-- ===== src/Tests/Outer.antt =====
-- The mock, the registration of a worker node and the command-line client on concrete inputs.
use correctness_bench.Common.{
  ℕ, zero, suc, ◌+◌, ◌-◌, ◌*◌, ◌<◌, ◌≤◌, ◌≡◌, refl, not, ◌&&◌, ◌||◌, none, some, List, [], ◌∷◌, map,
  Bytes, arith, ltb, ◌==◌, any, codes, length, take, drop, replicate, if◌then◌else◌, lookup,
}
use correctness_bench.Float.{whole}
use correctness_bench.Float.Fixed.{Fixed, fixed_float}
use correctness_bench.Coordinator.{RegisterAck, worker_of}
use correctness_bench.Coordinator as Coordinator
use correctness_bench.Worker.Connection.{ParsedResponse}
use correctness_bench.Worker.Reader.{Head, HttpParser, ParseOutcome, attempt}
use correctness_bench.Worker.Assert.{classify}
use correctness_bench.Mock.Response.{Response, respond, sent, is_ratelimit, attempt-tier_of}
use correctness_bench.Mock.{handle, unused, Params, is_injected, inject, decide, slow_ok, ratelimit}
use correctness_bench.Mock.Judged.{tier_of, json_rules}
use correctness_bench.Mock.Handled.{served, times, handle-recent}
use correctness_bench.Mock.Meter.{recent}
use correctness_bench.Mock.Race.{load, act_all, tally, is_done}
use correctness_bench.Mock.Race.Finish.{turns, act_all_recorded}
use correctness_bench.Registration
use correctness_bench.Registration.{
  Attempt, unreachable, answered, Outcome, info_of, register_with_coordinator, reregister,
  reregister_at,
}
use correctness_bench.Registration.Backoff.{
  waits, total, outcome_of, entry_after, is_complete, register_with_coordinator_total,
  register_with_coordinator_answered,
}
use correctness_bench.Registration.Fleet.{scan_all, reregister-scan_all}
use correctness_bench.Worker.Assert.{pass}
use correctness_bench.Client.{
  Tick, Decoders, no_ticks, chunk, subscribed, stream_ticks, exit_code, reply, stream_over, run,
}
use correctness_bench.Client.Sse.Framing.{Message, payload, stream_of}
use correctness_bench.Client.Totals.{last_of}
use correctness_bench.Client.Exit.{is_created, is_decoded, is_interrupted, run_named, exit_code-run}
use correctness_bench.Client.Received.{stream_ticks-messages}

-- a tick whose number is the length of its text
abbrev tick_of : Bytes → Tick Fixed
tick_of text = record {
  elapsed_s = length text;
  achieved_rps_1s = 0;
  completed_total = 10;
  pass_total = 9;
  fail_status_total = 1;
  this_tick = record {
    total = 10;
    pass = 9;
    fail_status = 1;
    fail_latency = 0;
    fail_size = 0;
    fail_content_type = 0;
  };
  percentiles_so_far = record { p50_us = 1000; p99_us = 2000 };
}

abbrev decoders : Decoders Fixed
decoders = record { tick_of = λ text. some (tick_of text); from_utf8_lossy = λ b. b }

abbrev two_messages : List Message
two_messages =
    record { id = codes "1"; rest = codes "\"a\":1}" }
    ∷ record { id = codes "2"; rest = codes "}" }
    ∷ []

-- cut inside the first message
abbrev two_chunks : List Bytes
two_chunks = let text = stream_of (codes "r") two_messages in take 40 text ∷ drop 40 text ∷ []

stream_ticks-messages_example :
    let a = (stream_ticks decoders (subscribed 200 (map chunk two_chunks)) no_ticks).0 in
    (a.received ≡ length two_messages)
    × (a.last ≡ last_of none (map (λ m. tick_of (payload m)) two_messages))
stream_ticks-messages_example =
    stream_ticks-messages decoders (codes "r") two_messages (λ m. tick_of (payload m)) two_chunks
      200 refl refl
      (
        record { id_plain = refl; id_no_cr = refl; rest_plain = refl; rest_no_cr = refl },
        (record { id_plain = refl; id_no_cr = refl; rest_plain = refl; rest_no_cr = refl }, tt),
      )
      (refl, (refl, tt)) (omega arith) refl (refl, (refl, tt)) refl

exit_code-run_example :
    let created = reply 201 (some (codes "r")) in
    let sub = subscribed 200 (map chunk two_chunks) in
    let received = (stream_ticks decoders sub no_ticks).0.received in
    let r = run decoders created sub stream_over in
    (exit_code r.0 ≡ (
      if not (is_created created)
      then 2
      else if not (is_decoded created) || is_interrupted stream_over || (received == 0)
      then 1
      else 0))
    × (r.1 ≡ (if is_created created && is_interrupted stream_over then run_named created else none))
exit_code-run_example =
    exit_code-run decoders (reply 201 (some (codes "r"))) (subscribed 200 (map chunk two_chunks))
      stream_over

-- the third call is answered
abbrev third : ℕ → Attempt
third n = if n == 3 then answered 700_000 else unreachable

register_with_coordinator_total_example :
    let (sleeps, outcome) =
      (register_with_coordinator third (info_of "w" "h:1" 0) Coordinator.new).1 in
    ((o : Outcome) × (outcome ≡ some o)) × (length sleeps ≤ 29) × (total sleeps ≤ 126_200)
register_with_coordinator_total_example =
    register_with_coordinator_total third (info_of "w" "h:1" 0) Coordinator.new

register_with_coordinator_answered_example :
    let r = register_with_coordinator third (info_of "w" "h:1" 0) Coordinator.new in
    (r.1 ≡ (waits 0 2, some (outcome_of "w" "h:1")))
    × (lookup "w" r.0.workers
        ≡ entry_after "w" "h:1" 0 700_000 (lookup "w" Coordinator.new.workers))
    × ((Registration.main third (info_of "w" "h:1" 0) Coordinator.new).1 ≡ is_complete "w" "h:1")
register_with_coordinator_answered_example =
    register_with_coordinator_answered "w" "h:1" 0 2 700_000 third Coordinator.new (omega arith)
      (λ j low high. ground arith) refl

reregister-scan_all_example :
    let info = info_of "w" "h:1" 0 in
    let t = reregister_at 0 0 in
    (lookup "w" (scan_all (14_000_000 ∷ []) (reregister (answered t) info Coordinator.new)).workers
      ≡ (if any (λ now. ltb 3_000_000 (now - t)) (14_000_000 ∷ [])
          then none
          else some (worker_of t info)))
    × (reregister_at 0 1 ≡ t + 3_000_000 + 7_000_000)
unfolding Coordinator.new
reregister-scan_all_example =
    reregister-scan_all "w" "h:1" 0 0 0 (14_000_000 ∷ []) Coordinator.new tt refl

abbrev slow : Params Fixed
slow = record { mode = slow_ok; cliff_rps = whole 100; pct = whole 50; base_latency_ms = 20 }

abbrev before : List (ℕ × Params Fixed)
before = (1910, slow) ∷ (1840, slow) ∷ (950, slow) ∷ (40, slow) ∷ []

handle-recent_example :
    (handle 1950 slow (served before)).1
    ≡ decide slow (fixed_float.of_u64 (recent 1950 (1950 ∷ times before))) (length before)
handle-recent_example =
    handle-recent 1950 slow before (omega arith, (omega arith, (omega arith, (omega arith, tt))))
      (omega arith) (omega arith)

-- the first thread claims the bucket while the second one has loaded its old slot
abbrev interleaved : List ℕ
interleaved = 0 ∷ 1 ∷ 0 ∷ 1 ∷ 1 ∷ 0 ∷ 1 ∷ 0 ∷ []

fair : (j : ℕ) → j < 2 → 4 ≤ turns j interleaved
fair zero h = omega arith
fair (suc zero) h = omega arith
fair (suc (suc j)) h = absurd (omega arith)

act_all_recorded_example :
    let r = act_all 19 interleaved unused (replicate 2 load) in
    (tally is_done r.1 ≡ 2) × (r.0.slot ≡ 19) × (1 ≤ r.0.count) × (r.0.count ≤ 2)
act_all_recorded_example =
    act_all_recorded 19 2 unused interleaved (λ e. ground (arith, e)) (omega arith) (omega arith)
      fair

-- an injected 429, after a head of three bytes
abbrev limited : Params Fixed
limited = record slow { mode = ratelimit }

abbrev limited_response : Response
limited_response = respond {F = Fixed} ratelimit (whole 150) (decide limited (whole 150) 7)

-- the server adds the date
abbrev limited_headers : List (Bytes × Bytes)
limited_headers = (codes "date", codes "Thu, 01 Jan 2026 00:00:00 GMT") ∷ sent limited_response

abbrev head_of_three : HttpParser
head_of_three = record {
  parse = λ buf. Head.complete 3 (some limited_response.status) limited_headers;
}

abbrev limited_bytes : Bytes
limited_bytes = 0 ∷ 0 ∷ 0 ∷ codes limited_response.body

attempt-tier_of_example :
    let injected = is_injected limited (whole 150) 7 in
    (parsed : ParsedResponse) × (attempt head_of_three limited_bytes ≡ ParseOutcome.complete parsed)
    × (parsed.msg_len ≡ length limited_bytes)
    × (classify
          (json_rules 200_000 42)
          parsed.status
          ((decide limited (whole 150) 7).latency_ms * 1000 + 900)
          parsed.content_length
          parsed.content_type_lc
        ≡ (if injected then tier_of ratelimit else pass))
    × (parsed.retry_after_ms ≡ (if injected && is_ratelimit ratelimit then some 1000 else none))
unfolding decide respond inject
attempt-tier_of_example =
    attempt-tier_of head_of_three limited (whole 150) 7 3 200_000 42 900 limited_headers
      limited_bytes refl refl refl (omega arith) (omega arith) (omega arith) (omega arith)
      (omega arith) (omega arith)
