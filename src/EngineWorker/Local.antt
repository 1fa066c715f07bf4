-- ===== src/EngineWorker/Local.antt =====
-- engine/src/bin/worker.rs around the run: the options and the spec made of them, the push to the control
-- plane and the printed correctness. Parsers of methods and URLs, and base64, are parameters; of the push
-- only its body is kept.
pub mod Denominator
pub mod TickTask
use correctness_bench.Common.{
  ℕ, ◌*◌, Bool, true, false, not, ◌||◌, Option, none, some, List, [], ◌∷◌, ◌++◌, String, Bytes, ltb,
  bytes_eq, codes, to_ascii_lowercase, to_ascii_uppercase, trim_end, if◌then◌else◌, u64_mul,
  saturating_sub,
}
use correctness_bench.Float.{Float, whole}
use correctness_bench.Hist.{serialize_v2}
use correctness_bench.Hist.Library.{Hdr}
use correctness_bench.Worker.Spec.{RunSpec, RlAction}
use correctness_bench.Worker.Ticks.{Bucket}
use correctness_bench.Worker.Run.{RunReport}
use correctness_bench.EngineWorker.{accumulate, detect_cliff_rps}

infixl 5 ◌>>=◌
abbrev ◌>>=◌ : {A B : Type 0} → Option A → (A → Option B) → Option B
none >>= k = none
some a >>= k = k a

pub record Cli (F : Type 0) : Type 0 where
  pub url : Bytes
  pub method : Bytes
  pub rate : F
  pub duration_s : ℕ
  pub connections : ℕ
  pub timeout_s : ℕ
  pub no_keepalive : Bool
  pub expected_status : List ℕ
  pub ticks : Bool
  pub push_to : Option Bytes
  pub run_id : Option Bytes
  pub ramp : Bool
  pub max_latency_ms : Option ℕ
  pub min_body_bytes : Option ℕ
  pub max_body_bytes : Option ℕ
  pub content_type : Option Bytes
  pub sample_every_n : ℕ
  pub max_sampled_body_bytes : ℕ
  pub rate_limit_action : Bytes
  pub max_backoff_ms : ℕ

-- `Uri::try_from` and `Method::from_bytes`
pub record Parsers (U : Type 0) : Type 0 where
  pub uri_of : Bytes → Option U
  pub method_of : Bytes → Option String

-- any other word is `backoff`
unfoldable pub action_of : Bytes → RlAction
action_of word =
    let name = to_ascii_lowercase word in
    if bytes_eq name (codes "continue")
    then RlAction.continue
    else if bytes_eq name (codes "abort")
    then RlAction.abort
    else RlAction.backoff

-- the spec, if the URL and the method can be parsed
unfoldable pub spec_of : {F U : Type 0} → Parsers U → Cli F → Option (RunSpec F U)
unfolding action_of
spec_of p cli = do
  url ← p.uri_of cli.url
  method ← p.method_of (to_ascii_uppercase cli.method)
  some (record {
    url = url;
    method = method;
    target_rps = cli.rate;
    duration_s = cli.duration_s;
    keepalive = not cli.no_keepalive;
    connections = cli.connections;
    timeout = cli.timeout_s * 1_000_000_000;
    expected_status = cli.expected_status;
    max_latency_us = elim cli.max_latency_ms [ none ↦ none | some ms ↦ some (u64_mul ms 1000) ];
    min_body_bytes = cli.min_body_bytes;
    max_body_bytes = cli.max_body_bytes;
    content_type = cli.content_type;
    ramp = cli.ramp;
    sample_every_n = cli.sample_every_n;
    max_sampled_body_bytes = cli.max_sampled_body_bytes;
    rate_limit_action = action_of cli.rate_limit_action;
    max_backoff_ms = cli.max_backoff_ms;
    record_onset = true;
  })

-- "{}/v1/_internal/runs/{}/" and the last part, if the ticks are pushed
unfoldable pub internal_url : {F : Type 0} → Bytes → Cli F → Option Bytes
internal_url part cli = do
  base ← cli.push_to
  run_id ← cli.run_id
  some (trim_end b'/' base ++ codes "/v1/_internal/runs/" ++ run_id ++ (b'/' ∷ part))

-- whether the run sends ticks at all
unfoldable pub want_ticks : {F : Type 0} → Cli F → Bool
unfolding internal_url
want_ticks cli =
    cli.ticks || (elim (internal_url (codes "tick") cli) [ none ↦ false | some url ↦ true ])

-- the body of the finalize push; its status is always "completed"
pub record FinalizeBody (F : Type 0) : Type 0 where
  pub effective_rps : F
  pub p50_us : ℕ
  pub p95_us : ℕ
  pub p99_us : ℕ
  pub p999_us : ℕ
  pub total_requests : ℕ
  pub total_pass : ℕ
  pub cliff_rps : Option F
  pub corrected_hist_b64 : String
  pub uncorrected_hist_b64 : String
  pub rate_limited : ℕ
  pub rate_limit_onset_rps : Option F
  pub backoff_us_total : ℕ

module _ {F : Type 0} ⦃f : Float F⦄ where
  -- `seen` are the buckets of the ticks that the tick task has handled when the run returns.
  unfoldable pub cliff_of : List (Bucket F) → Option F
  unfolding accumulate detect_cliff_rps
  cliff_of seen = detect_cliff_rps (accumulate seen []) (f.literal 95 2) 30

module _ {F H U : Type 0} ⦃f : Float F⦄ ⦃h : Hdr H⦄ where
  unfoldable pub finalize_body :
      (Bytes → String) → List (Bucket F) → RunReport F H U → FinalizeBody F
  unfolding cliff_of
  finalize_body encode seen report = record {
    effective_rps = report.achieved_rps;
    p50_us = report.corrected.p50_us;
    p95_us = report.corrected.p95_us;
    p99_us = report.corrected.p99_us;
    p999_us = report.corrected.p999_us;
    total_requests = report.completed;
    total_pass = report.pass;
    cliff_rps = cliff_of seen;
    corrected_hist_b64 = encode (serialize_v2 report.histos.corrected);
    uncorrected_hist_b64 = encode (serialize_v2 report.histos.uncorrected);
    rate_limited = report.rate_limited;
    rate_limit_onset_rps = report.first_429_rps;
    backoff_us_total = report.backoff_us_total;
  }

  unfoldable pub correctness_denom : RunReport F H U → ℕ
  correctness_denom report = saturating_sub report.completed report.rate_limited

  -- the printed percentage
  unfoldable pub pass_rate : RunReport F H U → F
  unfolding correctness_denom
  pass_rate report =
      let denom = correctness_denom report in
      if ltb 0 denom
      then f.mul (f.div (f.of_u64 report.pass) (f.of_u64 denom)) (whole 100)
      else whole 0
