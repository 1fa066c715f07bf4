-- ===== src/Tests/Whole.antt =====
-- Whole programs on concrete inputs: a run that is cancelled, its report, and the admin endpoint.
use correctness_bench.Common.{
  ◌+◌, ◌-◌, ◌≡◌, refl, true, false, none, some, List, [], ◌∷◌, map, String, Bytes, arith, ltb, any,
  is_empty, if◌then◌else◌,
}
use correctness_bench.Float.{Float, whole}
use correctness_bench.Float.Fixed.{Fixed, fixed_float}
use correctness_bench.Hist.Listed.{Listed, listed_hdr}
use correctness_bench.Sched
use correctness_bench.Sched.{usec_to_next_send, intended_send_time, slot}
use correctness_bench.Worker.Assert.{classify, from_spec}
use correctness_bench.Worker.Counters.{fresh}
use correctness_bench.Worker.Connection.{wait_for, count_verdict, sample_response}
use correctness_bench.Worker.Turn.{checked}
use correctness_bench.Worker.Run.{
  Happening, enters, turns, cancelled, happen_all, start, config_of, report,
}
use correctness_bench.Worker.Run.Books.{result}
use correctness_bench.EngineWorker.Local.{pass_rate}
use correctness_bench.EngineWorker.Local.Denominator.{judged, world_after, pass_rate-judged}
use correctness_bench.Coordinator.{CoordinatorState, list_workers, is_run_active}
use correctness_bench.Coordinator as Coordinator
use correctness_bench.Coordinator.Dispatch.{Meanwhile, dispatch_with_ticks}
use correctness_bench.Coordinator.Admin.Runs.{RunRequest, spec_of, run_endpoint}
use correctness_bench.Coordinator.Admin.Runs.Answers.{is_unavailable, Serves, run_endpoint-Serves}
use correctness_bench.Registration.{answered, info_of, reregister}
use correctness_bench.Registration.Fleet.{scan_all}
use correctness_bench.Registration.Alone.{run_endpoint-scan_all}
use correctness_bench.Tests.Data.{spec, a_turn}

abbrev history : List Happening
history = enters 1 ∷ turns 1 a_turn ∷ enters 0 ∷ cancelled ∷ enters 1 ∷ []

few :
    judged (world_after Listed spec (true ∷ true ∷ []) history).shared.counters
      + (world_after Listed spec (true ∷ true ∷ []) history).shared.counters.rate_limited
    ≡ 1
unfolding happen_all start checked fresh config_of wait_for usec_to_next_send intended_send_time
    Sched.new slot count_verdict classify from_spec sample_response
few = refl

pass_rate-judged_example :
    let w = world_after Listed spec (true ∷ true ∷ []) history in
    let c = w.shared.counters in
    pass_rate (report spec 5_000_000_000 w (map result w.tasks)) ≡ (
      if ltb 0 (judged c)
      then Float.mul fixed_float
          (Float.div fixed_float
            (Float.of_u64 fixed_float c.pass)
            (Float.of_u64 fixed_float (judged c)))
          (whole 100)
      else whole 0)
pass_rate-judged_example =
    pass_rate-judged Listed spec (true ∷ true ∷ []) history 5_000_000_000 (omega (arith, few))

abbrev request : RunRequest Fixed
request = record {
  run_id = "run";
  target_url = "http://t/";
  target_method = none;
  target_rps = whole 100;
  duration_s = 30;
  connections = none;
  keepalive = none;
  timeout_ms = none;
  expected_status = none;
  target_headers = none;
  epoch_unix_us = none;
  max_latency_us = none;
  min_body_bytes = none;
  max_body_bytes = none;
  content_type = none;
  control_tick_url = none;
  control_finalize_url = some "http://control/finalize";
}

abbrev meanwhile : Meanwhile Fixed
meanwhile = record { results = λ a. []; state = λ s. s }

-- an encoder of base64 that forgets its input
abbrev encode : Bytes → String
encode bytes = "b64"

abbrev joined : CoordinatorState
joined = reregister (answered 1_000_000) (info_of "w" "h:1" 0) Coordinator.new

run_endpoint-Serves_example :
    let r = run_endpoint encode 5 7 meanwhile [] request joined in
    (is_unavailable r.1.answer ≡ is_empty (list_workers joined))
    × Serves request (dispatch_with_ticks 5 7 meanwhile (spec_of request) joined).1 r.1
    × (is_run_active "run" r.0
        ≡ (if is_empty (list_workers joined) then is_run_active "run" joined else false))
run_endpoint-Serves_example = run_endpoint-Serves encode 5 7 meanwhile [] request joined

run_endpoint-scan_all_example :
    let state = scan_all (2_000_000 ∷ 4_500_000 ∷ []) joined in
    is_unavailable (run_endpoint encode 5 7 meanwhile [] request state).1.answer
    ≡ any (λ n. ltb 3_000_000 (n - 1_000_000)) (2_000_000 ∷ 4_500_000 ∷ [])
run_endpoint-scan_all_example =
    run_endpoint-scan_all "w" "h:1" 0 1_000_000 (2_000_000 ∷ 4_500_000 ∷ []) encode 5 7 meanwhile []
      request refl
