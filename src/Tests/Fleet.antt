-- ===== src/Tests/Fleet.antt =====
-- The worker node and the coordinator on concrete inputs.
use correctness_bench.Common.{
  ℕ, ◌+◌, ◌-◌, ◌%◌, ◌≡◌, refl, true, false, none, some, List, [], ◌∷◌, map, String, arith, lookup,
  insert, u64_mod,
}
use mathlib.Core.List.{reverse}
use mathlib.Core.List.Perm
use correctness_bench.Float.Fixed.{Fixed, fixed_float}
use correctness_bench.Hist.Listed.{Listed, listed_hdr, Listed-IsHdr}
use correctness_bench.Proto.{Assignment, Partial, WorkerInfo}
use correctness_bench.Worker.Spec.{RlAction}
use correctness_bench.Hist.{deserialize_v2}
use correctness_bench.Worker.Ticks.{Bucket}
use correctness_bench.Worker.Ticks.Deltas.{Column}
use correctness_bench.WorkerNode.{UriParser, build_run_spec}
use correctness_bench.WorkerNode.Slices.{Node, Slice, run_slice, close_slice, abort}
use correctness_bench.WorkerNode.Aborts.{abort_overlap}
use correctness_bench.EngineWorker.{accumulate, detect_cliff_rps}
use correctness_bench.EngineWorker.Lowest.{Sorted, IsCliff, detect_cliff_rps-IsCliff}
use correctness_bench.Coordinator.{Worker, RunHandle, CoordinatorState}
use correctness_bench.Coordinator.Dispatch.{DispatchSpec, WorkerSummary, Meanwhile}
use correctness_bench.Coordinator.Aggregate.{aggregate_tick, aggregate_loop, aggregator_start}
use correctness_bench.Coordinator.Aggregate.Sums.{
  entry, bucket_entries, sum_partials, Running, aggregate_tick_sums, aggregate_loop-Running,
}
use correctness_bench.Coordinator.Aggregate.Complete.{aggregate_loop-Second}
use correctness_bench.Coordinator.Aggregate.Merging.{
  payload_len, sum_len, aggregate_tick-payload_len,
}
use correctness_bench.Coordinator.Admin.{observe_buckets, cliff_rps}
use correctness_bench.Coordinator.Admin.Cliff.{
  reported, cliff_rps-detect_cliff_rps, cliff_rps-false,
}

-- every text is a URL, kept as it is
instance abbrev any_url : UriParser String
any_url = record { parse = λ s. some s }

abbrev pub spec : DispatchSpec Fixed
spec = record {
  run_id = "run";
  target_url = "http://target";
  target_method = "post";
  target_rps = 100_000_000;
  duration_s = 10;
  connections = 4;
  keepalive = true;
  timeout_ms = 30_000;
  expected_status = 200 ∷ 204 ∷ [];
  max_latency_us = none;
  min_body_bytes = some 10;
  max_body_bytes = none;
  content_type = none;
  target_headers = [];
  epoch_unix_us = 0;
}

abbrev pub assignment : Assignment Fixed
assignment = record {
  run_id = "run";
  worker_id = "w1";
  contract_version = "1.0.0";
  target = some (record {
    url = "http://target";
    method = 1;
    headers = [];
    body = [];
    timeout_ms = 1000;
    verify_tls = true;
  });
  throughput = 50_000_000;
  catch_up = 100_000_000;
  load_model = 0;
  connections = 4;
  keepalive = true;
  epoch_unix_us = 7;
  duration_s = 10;
  warmup_s = 0;
  asserts = none;
  rate_limit_policy = none;
}

abbrev idle : Node
idle = record { worker_id = "w1"; run_tokens = []; cancelled = []; next_token = 0 }

abbrev slice_of : ℕ → Slice Fixed String
slice_of token = record {
  run_id = "run";
  token = token;
  spec = record {
    url = "http://target";
    method = "POST";
    target_rps = 50_000_000;
    duration_s = 10;
    keepalive = true;
    connections = 4;
    timeout = 1_000_000_000;
    expected_status = [];
    max_latency_us = none;
    min_body_bytes = none;
    max_body_bytes = none;
    content_type = none;
    ramp = false;
    sample_every_n = 0;
    max_sampled_body_bytes = 0;
    rate_limit_action = RlAction.backoff;
    max_backoff_ms = 5000;
    record_onset = true;
  };
}

-- the node while the slice of this token, the latest one, runs
abbrev pub busy : ℕ → Node
busy token = record idle { run_tokens = ("run", token) ∷ []; next_token = token + 1 }

abort_overlap_example : (abort "run" (close_slice (slice_of 0) (busy 1))).0.cancelled ≡ []
unfolding run_slice insert build_run_spec
abort_overlap_example =
    abort_overlap assignment assignment idle (busy 0) (busy 1) (slice_of 0) (slice_of 1) refl refl
      refl

abbrev pub worker_at : ℕ → Worker
worker_at t = record {
  worker_id = "w1";
  address = "localhost:9000";
  contract_version = "1.0.0";
  max_rps = 0;
  registered_at = t;
  last_heartbeat = t;
}

abbrev pub one_worker : CoordinatorState
one_worker = record { workers = ("w1", worker_at 0) ∷ []; runs = []; cancelled = [] }

abbrev pub joining : WorkerInfo
joining = record {
  worker_id = "w2";
  address = "localhost:9001";
  contract_version = "1.0.0";
  max_rps = 0;
}

abbrev pub handle : RunHandle
handle = record { worker_addrs = "localhost:9000" ∷ []; cancel = 4 }

abbrev pub summary_of : ℕ → WorkerSummary Fixed
summary_of n = record {
  finished = true;
  completed = n;
  pass = n;
  fail_status = 0;
  fail_latency = 0;
  fail_size = 0;
  fail_content_type = 0;
  rate_limited = 0;
  first_429_rps = none;
}

abbrev meanwhile : Meanwhile Fixed
meanwhile = record { results = λ a. some (summary_of 3) ∷ []; state = λ s. s }

abbrev pub partial_of : String → ℕ → Partial Fixed
partial_of id n = record {
  worker_id = id;
  tick = 1;
  final = false;
  corrected_hist = 60_000_000 ∷ 5 ∷ 9 ∷ [];
  uncorrected_hist = [];
  buckets =
      record {
        rps_lo = 0;
        rps_hi = 10_000_000;
        total = n;
        pass = n;
        fail_transport = 0;
        fail_status = 0;
        fail_latency = 0;
        fail_size = 0;
        fail_content_type = 0;
        rate_limited = 0;
        timeout = 0;
      }
      ∷ [];
  offered_rps = 0;
  achieved_rps = 2_000_000;
  sched_slip_us = 0;
  client_saturated = false;
  in_flight = 0;
  conn_errors = 0;
  timeouts = 0;
  rate_limit = none;
  bytes_sent = 0;
  bytes_recv = 0;
}

abbrev pair : List (Partial Fixed)
pair = partial_of "w1" 3 ∷ partial_of "w2" 4 ∷ []

abbrev sent : List (String × Partial Fixed)
sent = ("w1", partial_of "w1" 3) ∷ ("w2", partial_of "w2" 4) ∷ []

aggregate_tick_sums_example :
    let t =
      (aggregate_tick Listed 1 pair (record { completed = 0; pass = 0; fail_status = 0 })).0 in
    (entry Column.pass t.this_tick ≡ sum_partials Column.pass pair % u64_mod)
    × (bucket_entries Column.pass t.buckets ≡ entry Column.pass t.this_tick ∷ [])
aggregate_tick_sums_example =
    aggregate_tick_sums Listed Column.pass 1 pair
      (record { completed = 0; pass = 0; fail_status = 0 })

-- a map that gives its values backwards
abbrev backwards : List (String × Partial Fixed) → List (Partial Fixed)
backwards entry = reverse (map (λ (id, p). p) entry)

aggregate_loop-Running_example :
    Running Listed
      (record { completed = 0; pass = 0; fail_status = 0 })
      (aggregate_loop Listed backwards 2 sent aggregator_start)
aggregate_loop-Running_example = aggregate_loop-Running Listed backwards 2 sent

aggregate_loop-Second_example :
    let ticks = aggregate_loop Listed backwards 2 sent aggregator_start in
    (map (λ t. t.elapsed_s) ticks ≡ 1 ∷ [])
    × (map (λ t. entry Column.pass t.this_tick) ticks
        ≡ sum_partials Column.pass pair % u64_mod ∷ [])
unfolding lookup
aggregate_loop-Second_example =
    aggregate_loop-Second Listed backwards Column.pass 2 1 sent
      (Perm.swap (partial_of "w1" 3) (partial_of "w2" 4) [])
      (refl, refl, refl, (refl, refl, refl, tt)) (omega arith) (omega arith)

aggregate_tick-payload_len_example :
    let t =
      (aggregate_tick Listed 1 pair (record { completed = 0; pass = 0; fail_status = 0 })).0 in
    (payload_len Listed t.merged_hist_v2 ≡ sum_len Listed (map (λ p. p.corrected_hist) pair))
    × (payload_len Listed t.merged_uncorrected_hist_v2
        ≡ sum_len Listed (map (λ p. p.uncorrected_hist) pair))
unfolding deserialize_v2
aggregate_tick-payload_len_example =
    aggregate_tick-payload_len Listed-IsHdr 1 pair
      (record { completed = 0; pass = 0; fail_status = 0 }) (omega arith, (omega arith, tt))
      (tt, (tt, tt)) (omega arith) (omega arith)

abbrev bucket : ℕ → ℕ → ℕ → Bucket Fixed
bucket total pass rate_limited = record {
  rps_lo = 40_000_000;
  rps_hi = 50_000_000;
  total = total;
  pass = pass;
  fail_status = total - pass - rate_limited;
  fail_latency = 0;
  fail_size = 0;
  fail_content_type = 0;
  rate_limited = rate_limited;
}

cliff_rps-detect_cliff_rps_example :
    cliff_rps (observe_buckets (map reported (bucket 40 20 0 ∷ bucket 40 40 0 ∷ [])) [])
    ≡ detect_cliff_rps (accumulate (bucket 40 20 0 ∷ bucket 40 40 0 ∷ []) []) 950_000 30
cliff_rps-detect_cliff_rps_example =
    cliff_rps-detect_cliff_rps (bucket 40 20 0 ∷ bucket 40 40 0 ∷ []) (refl, (refl, tt))

cliff_rps-false_example :
    (detect_cliff_rps (accumulate (bucket 100 40 60 ∷ []) []) 950_000 30 ≡ none)
    × (cliff_rps (observe_buckets (reported (bucket 100 40 60) ∷ []) []) ≡ some 45_000_000)
cliff_rps-false_example =
    cliff_rps-false (bucket 100 40 60) (omega arith) refl (omega arith) refl refl

detect_cliff_rps-IsCliff_example :
    let m = accumulate (bucket 40 20 0 ∷ bucket 40 40 0 ∷ []) [] in
    Sorted m × IsCliff 950_000 30 m (detect_cliff_rps m 950_000 30)
detect_cliff_rps-IsCliff_example =
    detect_cliff_rps-IsCliff (bucket 40 20 0 ∷ bucket 40 40 0 ∷ []) 950_000 30
