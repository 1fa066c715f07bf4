-- ===== src/Worker/Run.antt =====
-- `run_with_ticks_cancel` of engine/src/worker.rs: the schedules that it deals out, its connection
-- tasks as a pool whose turns interleave, the join of their results and the report. Methods of
-- `http::Uri` are a parameter.
pub mod Books
pub mod Cancel
pub mod Halt
pub mod Seconds
pub mod Request
use correctness_bench.Common.{
  ℕ, suc, ◌*◌, ◌/◌, Bool, true, false, not, ◌&&◌, Option, none, some, List, [], ◌∷◌, ◌⊎◌, inl, inr,
  String, get_elem?, set, max, if◌then◌else◌, str_eq, u64_add, u64_mul, saturating_mul,
}
use mathlib.Core.Option
use correctness_bench.Float.{Float, whole}
use correctness_bench.Hist
use correctness_bench.Hist.{Histos, Summary, summary}
use correctness_bench.Hist.Library.{Hdr}
use correctness_bench.Sched
use correctness_bench.Sched.{RateSchedule, constant, ramp, ConnSched}
use correctness_bench.Worker.Spec.{RunSpec, RlConfig}
use correctness_bench.Worker.Assert.{from_spec}
use correctness_bench.Worker.Counters.{
  ConnResult, no_result, LiveCounters, fresh, load_first_429_rps, load_last_retry_after_ms,
}
use correctness_bench.Worker.Connection.{Shared, Conn, Config, Turn, Flow, again, stop, starved}
use correctness_bench.Worker.Turn.{checked}

-- `http::Uri`
pub record UriParts (U : Type 0) : Type 0 where
  pub host : U → Option String
  pub port_u16 : U → Option ℕ
  pub scheme_str : U → Option String

pub data RunError : Type 0 where
  missing_host only_http : RunError

-- where the tasks connect to, or why the run does not start
unfoldable pub endpoint : {F U : Type 0} ⦃u : UriParts U⦄ → RunSpec F U → RunError ⊎ (String × ℕ)
endpoint ⦃u⦄ spec = elim (u.host spec.url) [
  | none ↦ inl missing_host
  | some host ↦
      if str_eq (Option.get_or (u.scheme_str spec.url) "http") "http"
      then inr (host, Option.get_or (u.port_u16 spec.url) 80)
      else inl only_http
]

module _ {F : Type 0} ⦃f : Float F⦄ where
  -- `ConnSched::new` or `ConnSched::ramp`, by the shape of the schedule
  unfoldable pub sched_at : ℕ → RateSchedule F → ConnSched F
  sched_at offset_us (constant throughput_us) = Sched.new offset_us throughput_us
  sched_at offset_us (ramp duration_us peak) = Sched.new_ramp offset_us duration_us peak

module _ {F U : Type 0} ⦃f : Float F⦄ where
  unfoldable pub per_conn_rps : RunSpec F U → F
  per_conn_rps spec = f.div spec.target_rps (f.of_u64 spec.connections)

  unfoldable pub per_conn_schedule : RunSpec F U → RateSchedule F
  unfolding per_conn_rps
  per_conn_schedule spec =
      let throughput_us = f.div (per_conn_rps spec) (whole 1_000_000) in
      if spec.ramp
      then ramp (saturating_mul spec.duration_s 1_000_000) throughput_us
      else constant throughput_us

  unfoldable pub stagger_us : RunSpec F U → ℕ
  unfolding per_conn_rps
  stagger_us spec = f.to_u64 (f.div (whole 1_000_000) (per_conn_rps spec)) / max spec.connections 1

  unfoldable pub config_of : RunSpec F U → Config F
  config_of spec = record {
    rules = from_spec spec;
    rl = record {
      action = spec.rate_limit_action;
      max_backoff_ms = spec.max_backoff_ms;
      record_onset = spec.record_onset;
      target_rps = spec.target_rps;
      ramp = spec.ramp;
      duration_s = spec.duration_s;
    };
    deadline_ns = spec.duration_s * 1_000_000_000;
  }

-- One round of the join loop: a result is added to the totals.
unfoldable pub join_result : ConnResult → ConnResult → ConnResult
join_result t r = record {
  completed = u64_add t.completed r.completed;
  pass = u64_add t.pass r.pass;
  fail_status = u64_add t.fail_status r.fail_status;
  fail_latency = u64_add t.fail_latency r.fail_latency;
  fail_size = u64_add t.fail_size r.fail_size;
  fail_content_type = u64_add t.fail_content_type r.fail_content_type;
  rate_limited = u64_add t.rate_limited r.rate_limited;
  backoff_us_total = u64_add t.backoff_us_total r.backoff_us_total;
  conn_errors = u64_add t.conn_errors r.conn_errors;
  timeouts = u64_add t.timeouts r.timeouts;
}

unfoldable pub join_all : ConnResult → List ConnResult → ConnResult
unfolding join_result
join_all t [] = t
join_all t (r ∷ rs) = join_all (join_result t r) rs

-- A connection task: `running` until it returns its result, and `under_way` from a passed abort check to
-- the end of that turn.
pub record Task (F : Type 0) : Type 0 where
  pub conn : Conn F
  pub running : Bool
  pub under_way : Bool

pub record World (F H : Type 0) : Type 0 where
  pub shared : Shared F H
  pub tasks : List (Task F)

-- What happens in the pool: a task comes to the top of its loop and reads the abort flag, a task ends the
-- turn that it is in, or the cancel bridge raises the flag.
pub data Happening : Type 0 where
  enters : ℕ → Happening
  turns : ℕ → Turn → Happening
  cancelled : Happening

abbrev pub goes_on : Flow → Bool
goes_on again = true
goes_on stop = false
goes_on starved = true

-- A turn is over unless its readings end first.
abbrev pub is_over : Flow → Bool
is_over again = true
is_over stop = true
is_over starved = false

module _ {F : Type 0} ⦃f : Float F⦄ where
  -- Task number `conn_id`, once its TCP connect succeeded or failed.
  unfoldable pub spawn : {U : Type 0} → RunSpec F U → ℕ → Bool → Task F
  unfolding sched_at stagger_us per_conn_schedule
  spawn spec conn_id connected = record {
    conn = record {
      sched = sched_at (u64_mul conn_id (stagger_us spec)) (per_conn_schedule spec);
      res = if connected then no_result else record no_result { conn_errors = 1 };
      buf = [];
    };
    running = connected;
    under_way = false;
  }

  unfoldable pub spawn_from : {U : Type 0} → RunSpec F U → ℕ → List Bool → List (Task F)
  unfolding spawn
  spawn_from spec conn_id [] = []
  spawn_from spec conn_id (c ∷ cs) = spawn spec conn_id c ∷ spawn_from spec (suc conn_id) cs

module _ {F H : Type 0} ⦃f : Float F⦄ ⦃h : Hdr H⦄ where
  -- The pool at the barrier; `connects` says for each connection whether its connect succeeded.
  unfoldable pub start : {U : Type 0} → RunSpec F U → List Bool → World F H
  unfolding spawn_from
  start spec connects = record {
    shared = record { counters = fresh; histos = Hist.new; samples = [] };
    tasks = spawn_from spec 0 connects;
  }

  -- The abort check of task `id`.
  unfoldable pub enter : ℕ → Task F → World F H → World F H
  enter id task w =
      if task.running && not task.under_way
      then record w {
        tasks = set w.tasks id (
            if w.shared.counters.abort
            then record task { running = false }
            else record task { under_way = true });
      }
      else w

  -- The rest of its turn; nothing of a turn is counted before the turn is over.
  unfoldable pub take_turn : Config F → Turn → ℕ → Task F → World F H → World F H
  take_turn cfg t id task w =
      let (sh, conn, flow) = checked cfg t w.shared task.conn in
      if task.running && task.under_way && is_over flow
      then record {
        shared = sh;
        tasks = set w.tasks id (record { conn = conn; running = goes_on flow; under_way = false });
      }
      else w

  unfoldable pub happen : Config F → World F H → Happening → World F H
  unfolding enter take_turn
  happen cfg w (enters id) = elim (get_elem? w.tasks id) [ none ↦ w | some task ↦ enter id task w ]
  happen cfg w (turns id t) = elim (get_elem? w.tasks id) [
    | none ↦ w
    | some task ↦ take_turn cfg t id task w
  ]
  happen cfg w cancelled =
      let sh = w.shared in
      let c = sh.counters in
      record w { shared = record sh { counters = record c { abort = true } } }

  unfoldable pub happen_all : Config F → World F H → List Happening → World F H
  unfolding happen
  happen_all cfg w [] = w
  happen_all cfg w (e ∷ es) = happen_all cfg (happen cfg w e) es

pub record RunReport (F H U : Type 0) : Type 0 where
  pub spec : RunSpec F U
  pub elapsed_ms : ℕ
  pub histos : Histos H
  pub achieved_rps : F
  pub completed : ℕ
  pub pass : ℕ
  pub fail_status : ℕ
  pub fail_latency : ℕ
  pub fail_size : ℕ
  pub fail_content_type : ℕ
  pub rate_limited : ℕ
  pub first_429_rps : Option F
  pub backoff_us_total : ℕ
  pub last_retry_after_ms : Option ℕ
  pub conn_errors : ℕ
  pub timeouts : ℕ
  pub corrected : Summary
  pub uncorrected : Summary

module _ {F H U : Type 0} ⦃f : Float F⦄ ⦃h : Hdr H⦄ where
  -- The report, once every task has returned; `elapsed_ns` is `worker_start.elapsed()`.
  unfoldable pub report : RunSpec F U → ℕ → World F H → List ConnResult → RunReport F H U
  unfolding join_all
  report spec elapsed_ns w results =
      let t = join_all no_result results in
      let merged = w.shared.histos in
      let c = w.shared.counters in
      record {
        spec = spec;
        elapsed_ms = elapsed_ns / 1_000_000;
        histos = merged;
        achieved_rps =
            f.div (f.of_u64 t.completed) (f.div (f.of_u64 elapsed_ns) (whole 1_000_000_000));
        completed = t.completed;
        pass = t.pass;
        fail_status = t.fail_status;
        fail_latency = t.fail_latency;
        fail_size = t.fail_size;
        fail_content_type = t.fail_content_type;
        rate_limited = t.rate_limited;
        first_429_rps = load_first_429_rps c;
        backoff_us_total = t.backoff_us_total;
        last_retry_after_ms = load_last_retry_after_ms c;
        conn_errors = t.conn_errors;
        timeouts = t.timeouts;
        corrected = summary merged.corrected;
        uncorrected = summary merged.uncorrected;
      }
