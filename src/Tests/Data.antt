-- ===== src/Tests/Data.antt =====
-- A connection, its worker and a turn for the tests: 1000 requests per second, one response so far.
use correctness_bench.Common.{ℕ, true, false, none, some, [], ◌∷◌, codes}
use correctness_bench.Float.Fixed.{Fixed, fixed_float}
use correctness_bench.Hist.Listed.{Listed, listed_hdr}
use correctness_bench.Sched.{constant}
use correctness_bench.Worker.Spec.{RunSpec, RlAction, RlConfig}
use correctness_bench.Worker.Assert.{InlineAssert}
use correctness_bench.Worker.Counters.{ConnResult, LiveCounters}
use correctness_bench.Worker.Connection.{ParsedResponse, ReadResult, Shared, Conn, Config, Turn}

abbrev pub rules : InlineAssert
rules = record {
  expected_status = [];
  max_latency_us = none;
  min_body_bytes = none;
  max_body_bytes = none;
  content_type_lc_prefix = some (codes "text/");
  sample_every_n = 1;
  max_sampled_body_bytes = 2;
}

abbrev pub rl : RlConfig Fixed
rl = record {
  action = RlAction.backoff;
  max_backoff_ms = 5000;
  record_onset = true;
  target_rps = 1_000_000_000;
  ramp = false;
  duration_s = 10;
}

abbrev pub cfg : Config Fixed
cfg = record { rules = rules; rl = rl; deadline_ns = 10_000_000_000 }

abbrev pub result : ConnResult
result = record {
  completed = 1;
  pass = 1;
  fail_status = 0;
  fail_latency = 0;
  fail_size = 0;
  fail_content_type = 0;
  rate_limited = 0;
  backoff_us_total = 0;
  conn_errors = 0;
  timeouts = 0;
}

abbrev pub conn : Conn Fixed
conn = record {
  sched = record {
    thread_start_us = 0;
    complete = 1;
    schedule = constant 1000;
    catch_up_us = 2000;
    caught_up = true;
    catch_up_start_time = 0;
    complete_at_catch_up_start = 0;
  };
  res = result;
  buf = [];
}

abbrev pub counters : LiveCounters
counters = record {
  completed = 1;
  pass = 1;
  fail_status = 0;
  fail_latency = 0;
  fail_size = 0;
  fail_content_type = 0;
  rate_limited = 0;
  first_429_seen = false;
  first_429_rps_bits = 0;
  backoff_us_total = 0;
  last_retry_after_ms = 0;
  abort = false;
  sample_seq = 0;
}

abbrev pub empty_hist : Listed
empty_hist = record { top = 60_000_000; values = [] }

abbrev pub shared : Shared Fixed Listed
shared = record {
  counters = counters;
  histos = record { corrected = empty_hist; uncorrected = empty_hist };
  samples = [];
}

abbrev pub ok_response : ParsedResponse
ok_response = record {
  msg_len = 3;
  status = 200;
  content_length = 2;
  content_type_lc = some (codes "text/plain");
  retry_after_ms = none;
}

abbrev pub limited_response : ParsedResponse
limited_response = record ok_response { status = 429; retry_after_ms = some 1000 }

-- The slot is at 1 ms; the response comes 2 ms after it.
abbrev pub a_turn : Turn
a_turn = record {
  now_ns = 500_000;
  spins = 900_000 ∷ 1_000_100 ∷ [];
  check_ns = 1_000_200;
  send_ns = 1_000_300;
  written = true;
  read = ReadResult.ok ok_response;
  buf = 1 ∷ 2 ∷ 3 ∷ 4 ∷ [];
  recv_ns = 3_000_000;
}

abbrev pub spec : RunSpec Fixed ℕ
spec = record {
  url = 0;
  method = "GET";
  target_rps = 1_000_000_000;
  duration_s = 10;
  keepalive = true;
  connections = 2;
  timeout = 30_000_000_000;
  expected_status = [];
  max_latency_us = none;
  min_body_bytes = none;
  max_body_bytes = none;
  content_type = none;
  ramp = false;
  sample_every_n = 0;
  max_sampled_body_bytes = 0;
  rate_limit_action = RlAction.backoff;
  max_backoff_ms = 5000;
  record_onset = true;
}
