-- ===== src/WorkerNode/Aborts.antt =====
-- Which slices an abort stops (worker_node.rs).
use correctness_bench.Common.{
  suc, ◌≡◌, ap, ◌∙◌, true, inr, ◌∷◌, arith, str_eq_iff, lookup, insert, lookup-insert,
  lookup-remove,
}
use correctness_bench.Float.{Float}
use correctness_bench.Proto.{Assignment}
use correctness_bench.WorkerNode.{UriParser}
use correctness_bench.WorkerNode.Slices.{Node, Slice, run_slice, close_slice, abort}

-- what a caller may do with the node between two moments
module _ {F U : Type 0} ⦃f : Float F⦄ ⦃u : UriParser U⦄ where
  run_slice_token :
      (a : Assignment F) (node node' : Node) (slice : Slice F U)
      → run_slice a node ≡ (node', inr slice)
      → (node'.run_tokens ≡ insert a.run_id slice.token node.run_tokens)
        × (slice.run_id ≡ a.run_id)
        × (slice.token ≡ node.next_token)
        × (node'.next_token ≡ suc node.next_token)
        × (node'.cancelled ≡ node.cancelled)
  unfolding run_slice
  run_slice_token a node node' slice e = ground arith

  -- An abort of a run whose slice was just accepted cancels that slice's token and no other, and
  -- leaves the registry alone.
  pub abort-run_slice :
      (a : Assignment F) (node node' : Node) (slice : Slice F U)
      → run_slice a node ≡ (node', inr slice)
      → abort a.run_id node' ≡ (record node' { cancelled = slice.token ∷ node.cancelled }, true)
  unfolding abort
  abort-run_slice a node node' slice e =
      let (tokens, _, _, _, cancelled) = run_slice_token a node node' slice e in
      let at =
        ap (lookup a.run_id) tokens ∙ lookup-insert a.run_id a.run_id slice.token node.run_tokens in
      ground (arith, at, cancelled, str_eq_iff a.run_id a.run_id)

  -- Right after a slice is closed, an abort of its run changes nothing; it is acknowledged all the
  -- same.
  pub abort-close_slice :
      (slice : Slice F U) (node : Node)
      → abort slice.run_id (close_slice slice node) ≡ (close_slice slice node, true)
  unfolding abort close_slice
  abort-close_slice slice node = ground (
    arith,
    lookup-remove slice.run_id slice.run_id node.run_tokens,
    str_eq_iff slice.run_id slice.run_id,
  )

  -- When two slices of one run are accepted one after the other and the first one ends, an abort of
  -- the run cancels no token, though the second slice is still running.
  pub abort_overlap :
      (a b : Assignment F) (node node₁ node₂ : Node) (first second : Slice F U)
      → a.run_id ≡ b.run_id
      → run_slice a node ≡ (node₁, inr first)
      → run_slice b node₁ ≡ (node₂, inr second)
      → (abort b.run_id (close_slice first node₂)).0.cancelled ≡ node.cancelled
  unfolding abort close_slice
  abort_overlap a b node node₁ node₂ first second same e₁ e₂ =
      let (_, run, _, _, before) = run_slice_token a node node₁ first e₁ in
      let (_, _, _, _, after) = run_slice_token b node₁ node₂ second e₂ in
      ground (
        arith,
        run,
        before,
        after,
        lookup-remove first.run_id b.run_id node₂.run_tokens,
        str_eq_iff first.run_id b.run_id,
      )
