-- ===== src/Client/Exit.antt =====
-- The exit code of the client, for every way that a command can go (cli/src/main.rs).
use correctness_bench.Common.{
  ◌≡◌, refl, Bool, true, false, not, ◌||◌, ◌&&◌, Option, none, some, Bytes, arith, ◌==◌,
  if◌then◌else◌,
}
use correctness_bench.Client.{
  TickAccum, Decoders, no_ticks, Subscription, stream_ticks, exit_code, Reply, no_reply, reply,
  is_success, post_run, Ending, stream_over, timed_out, interrupted, conclude, run, regression,
}

-- whether the control plane took the run: 201, as opposed to no answer or another status
abbrev pub is_created : {B : Type 0} → Reply B → Bool
is_created no_reply = false
is_created (reply status body) = status == 201

-- whether its answer has a body that can be decoded
abbrev pub is_decoded : {B : Type 0} → Reply (Option B) → Bool
is_decoded (reply status (some b)) = true
is_decoded _ = false

abbrev pub is_interrupted : Ending → Bool
is_interrupted interrupted = true
is_interrupted _ = false

-- the run that the answer names
abbrev pub run_named : {B : Type 0} → Reply (Option B) → Option B
run_named no_reply = none
run_named (reply status body) = body

asked :
    (ending : Ending) (run_id : Bytes)
    → (elim ending [ interrupted ↦ some run_id | stream_over ↦ none | timed_out ↦ none ])
      ≡ (if is_interrupted ending then some run_id else none)
asked interrupted run_id = refl
asked timed_out run_id = refl
asked stream_over run_id = refl

module _ {F : Type 0} where
  conclude-exit_code :
      (ending : Ending) (a : TickAccum F) (ok : Bool)
      → exit_code (conclude ending (a, ok))
        ≡ (if is_interrupted ending || (a.received == 0) then 1 else 0)
  unfolding exit_code conclude
  conclude-exit_code interrupted a ok = refl
  conclude-exit_code timed_out a ok = ground arith
  conclude-exit_code stream_over a ok = ground arith

  -- A command that creates a run exits with 2 if the control plane does not answer or answers anything but
  -- 201, with 1 if the answer names no run, if it is interrupted, or if it has counted no tick by the end of
  -- the stream or the time limit, and with 0 in every other case, also if the stream breaks. It asks for an
  -- abort of the run that it created just when it is interrupted.
  pub exit_code-run :
      (d : Decoders F) (created : Reply (Option Bytes)) (sub : Subscription) (ending : Ending)
      → let received = (stream_ticks d sub no_ticks).0.received in
        let r = run d created sub ending in
        (exit_code r.0 ≡ (
          if not (is_created created)
          then 2
          else if not (is_decoded created) || is_interrupted ending || (received == 0)
          then 1
          else 0))
        × (r.1 ≡ (if is_created created && is_interrupted ending then run_named created else none))
  unfolding run post_run exit_code
  exit_code-run d no_reply sub ending = (refl, refl)
  exit_code-run d (reply status none) sub ending = (ground arith, ground arith)
  exit_code-run d (reply status (some run_id)) sub ending =
      let r = stream_ticks d sub no_ticks in
      (ground (arith, conclude-exit_code ending r.0 r.1), ground (arith, asked ending run_id))

-- A command that compares two runs exits with 2 if the control plane does not answer or refuses, with 0 if
-- its answer says that the candidate passed, and with 1 if not or if the answer cannot be decoded.
pub exit_code-regression :
    (r : Reply (Option Bool))
    → exit_code (regression r) ≡ (elim r [
      | no_reply ↦ 2
      | reply status none ↦ if is_success status then 1 else 2
      | reply status (some passed) ↦ if not (is_success status) then 2 else if passed then 0 else 1
    ])
unfolding regression exit_code
exit_code-regression no_reply = refl
exit_code-regression (reply status none) = ground arith
exit_code-regression (reply status (some passed)) = ground arith
