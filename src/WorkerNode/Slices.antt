-- ===== src/WorkerNode/Slices.antt =====
-- `run_slice` and `abort` of engine/src/worker_node.rs: the registry of cancellation tokens and the
-- stream of events. A token is a number; the node keeps which of them are cancelled.
use correctness_bench.Common.{
  ℕ, suc, Bool, true, false, ◌⊎◌, inl, inr, none, some, List, [], ◌∷◌, String, lookup, insert,
  remove, u64_add, u64_sub,
}
use correctness_bench.Float.{Float}
use correctness_bench.Proto.{Assignment, WorkerEvent, started, partial}
use correctness_bench.Worker.Spec.{RunSpec}
use correctness_bench.Worker.Ticks.{Tick}
use correctness_bench.WorkerNode.{
  UriParser, SpecError, build_run_spec, partial_from_tick, empty_final_partial,
}

pub record Node : Type 0 where
  pub worker_id : String
  pub run_tokens : List (String × ℕ)
  pub cancelled : List ℕ
  pub next_token : ℕ

-- `WorkerNodeService::new`
unfoldable pub new : String → Node
new worker_id = record { worker_id = worker_id; run_tokens = []; cancelled = []; next_token = 0 }

-- A slice that was accepted: its token and what the engine is started with.
pub record Slice (F U : Type 0) : Type 0 where
  pub run_id : String
  pub token : ℕ
  pub spec : RunSpec F U

-- The request part of `run_slice`, up to the start of the engine.
unfoldable pub run_slice :
    {F U : Type 0} ⦃f : Float F⦄ ⦃u : UriParser U⦄
    → Assignment F
    → Node
    → Node × (SpecError ⊎ Slice F U)
run_slice a node = elim (build_run_spec a) [
  | inl e ↦ (node, inl e)
  | inr spec ↦ (
    record node {
      run_tokens = insert a.run_id node.next_token node.run_tokens;
      next_token = suc node.next_token;
    },
    inr (record { run_id = a.run_id; token = node.next_token; spec = spec }),
  )
]

-- The end of a slice: the engine has returned.
unfoldable pub close_slice : {F U : Type 0} → Slice F U → Node → Node
close_slice slice node = record node { run_tokens = remove slice.run_id node.run_tokens }

-- `abort`, which always acknowledges
unfoldable pub abort : String → Node → Node × Bool
abort run_id node = elim (lookup run_id node.run_tokens) [
  | none ↦ (node, true)
  | some t ↦ (record node { cancelled = t ∷ node.cancelled }, true)
]

module _ {F : Type 0} ⦃f : Float F⦄ where
  -- the loop over the engine's ticks, with `n` ticks sent, and the final partial
  unfoldable pub partials_from : String → ℕ → List (Tick F) → List (WorkerEvent F)
  partials_from worker_id n [] = partial (empty_final_partial worker_id (u64_add n 1)) ∷ []
  partials_from worker_id n (t ∷ ts) =
      partial (partial_from_tick worker_id (u64_add n 1) false t)
      ∷ partials_from worker_id (u64_add n 1) ts

  -- All that the stream of a slice yields, for the ticks that the engine sends.
  unfoldable pub events : String → ℕ → ℕ → List (Tick F) → List (WorkerEvent F)
  unfolding partials_from
  events worker_id actual_start_unix_us epoch_unix_us ticks =
      started actual_start_unix_us (u64_sub actual_start_unix_us epoch_unix_us)
      ∷ partials_from worker_id 0 ticks
