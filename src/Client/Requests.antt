-- ===== src/Client/Requests.antt =====
-- cli/src/main.rs: what the client posts to the control plane, and where.
use correctness_bench.Common.{
  ◌≡◌, refl, inl, inr, Option, none, some, List, [], ◌∷◌, ◌++◌, Bytes, codes, trim_end, arith,
}
use mathlib.Core.List.{reverse-append}
use correctness_bench.Client.{
  Decoders, Reply, no_reply, reply, post_run, Ending, stream_over, timed_out, interrupted,
  Subscription, run,
}
use correctness_bench.Client.Create.{RunArgs, CreateRunRequest, build_create_request}

pub record RegressionArgs (F : Type 0) : Type 0 where
  pub candidate : Bytes
  pub baseline : Bytes
  pub p99_delta_pct : F
  pub correctness_delta_pct : F

-- the body of a comparison, with its `thresholds`
pub record RegressionCheck (F : Type 0) : Type 0 where
  pub baseline_run_id : Bytes
  pub p99_delta_pct : F
  pub correctness_delta_pct : F

pub data Post (F : Type 0) : Type 0 where
  create : Bytes → CreateRunRequest F → Post F
  abort : Bytes → Post F
  compare_runs : Bytes → RegressionCheck F → Post F

unfoldable pub runs_url : Bytes → Bytes
runs_url control = trim_end b'/' control ++ codes "/v1/runs"

unfoldable pub abort_url : Bytes → Bytes → Bytes
abort_url control run_id = trim_end b'/' control ++ codes "/v1/runs/" ++ run_id ++ codes "/abort"

unfoldable pub regression_url : Bytes → Bytes → Bytes
regression_url control candidate =
    trim_end b'/' control ++ codes "/v1/runs/" ++ candidate ++ codes "/regression-check"

module _ {F : Type 0} where
  -- `run`: the run is created, and aborted on Ctrl-C
  unfoldable pub run_posts : Bytes → RunArgs F → Reply (Option Bytes) → Ending → List (Post F)
  unfolding runs_url abort_url build_create_request post_run
  run_posts control args created ending =
      create (runs_url control) (build_create_request args) ∷ elim (post_run created) [
        | inl e ↦ []
        | inr run_id ↦ elim ending [
          | interrupted ↦ abort (abort_url control run_id) ∷ []
          | timed_out ↦ []
          | stream_over ↦ []
        ]
      ]

  unfoldable pub regression_posts : Bytes → RegressionArgs F → List (Post F)
  unfolding regression_url
  regression_posts control args =
      compare_runs (regression_url control args.candidate) (record {
        baseline_run_id = args.baseline;
        p99_delta_pct = args.p99_delta_pct;
        correctness_delta_pct = args.correctness_delta_pct;
      })
      ∷ []

  -- An abort is posted just when `run` asks for one, and after the run was created.
  pub run_posts-run :
      (d : Decoders F) (control : Bytes) (args : RunArgs F) (created : Reply (Option Bytes))
      (sub : Subscription) (ending : Ending)
      → run_posts control args created ending ≡ (
          create (runs_url control) (build_create_request args)
          ∷ elim (run d created sub ending).1 [
            | none ↦ []
            | some run_id ↦ abort (abort_url control run_id) ∷ []
          ])
  unfolding run_posts run post_run
  run_posts-run d control args no_reply sub ending = refl
  run_posts-run d control args (reply status none) sub ending = ground arith
  run_posts-run d control args (reply status (some run_id)) sub interrupted = ground arith
  run_posts-run d control args (reply status (some run_id)) sub timed_out = ground arith
  run_posts-run d control args (reply status (some run_id)) sub stream_over = ground arith

trim_end-slash : (control : Bytes) → trim_end b'/' (control ++ (b'/' ∷ [])) ≡ trim_end b'/' control
trim_end-slash control = rw (reverse-append control (b'/' ∷ [])) refl

-- A slash at the end of the control plane's address makes no difference to where anything is posted.
pub runs_url-slash :
    (control run_id : Bytes)
    → (runs_url (control ++ (b'/' ∷ [])) ≡ runs_url control)
      × (abort_url (control ++ (b'/' ∷ [])) run_id ≡ abort_url control run_id)
      × (regression_url (control ++ (b'/' ∷ [])) run_id ≡ regression_url control run_id)
unfolding runs_url abort_url regression_url
runs_url-slash control run_id = rw (trim_end-slash control) (refl, refl, refl)
