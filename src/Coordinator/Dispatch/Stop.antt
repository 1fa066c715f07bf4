-- ===== src/Coordinator/Dispatch/Stop.antt =====
-- What an abort at the coordinator does at the worker nodes (coordinator/mod.rs and worker_node.rs).
use correctness_bench.Common.{
  ℕ, ◌≡◌, refl, ap, ◌∙◌, Bool, true, false, ◌&&◌, ◌||◌, ◌==◌, some, List, [], ◌∷◌, String, arith,
  any, str_eq, if◌then◌else◌, lookup,
}
use correctness_bench.WorkerNode.Slices.{Node, abort}
use correctness_bench.Coordinator.{
  RunHandle, CoordinatorState, AbortCall, worker_url, register_run, fan_out_aborts, abort_run,
}
use correctness_bench.Coordinator.History.{Event, replay}
use correctness_bench.Coordinator.History.Runs.{spare, abort_run-replay}

-- One call of `fan_out_aborts`, to the nodes at their addresses, if it gets through.
unfoldable pub deliver_one : Bool → AbortCall → (String → Node) → String → Node
unfolding abort
deliver_one true call nodes addr =
    if str_eq addr call.url.1 then (abort call.run_id (nodes addr)).0 else nodes addr
deliver_one false call nodes addr = nodes addr

-- All of them; `reached` says whether the call to an address gets through. A failed one is only logged.
unfoldable pub deliver : (String → Bool) → List AbortCall → (String → Node) → String → Node
unfolding deliver_one
deliver reached [] nodes = nodes
deliver reached (call ∷ calls) nodes =
    deliver reached calls (deliver_one (reached call.url.1) call nodes)

abbrev pub is_cancelled : ℕ → Node → Bool
is_cancelled token node = any (λ t. t == token) node.cancelled

deliver_one-cancelled :
    (got : Bool) (call : AbortCall) (addr : String) (t u : ℕ) (nodes : String → Node)
    → lookup call.run_id (nodes addr).run_tokens ≡ some t
    → ((deliver_one got call nodes addr).run_tokens ≡ (nodes addr).run_tokens)
      × (is_cancelled u (deliver_one got call nodes addr)
          ≡ ((got && str_eq addr call.url.1 && t == u) || is_cancelled u (nodes addr)))
unfolding deliver_one abort
deliver_one-cancelled true call addr t u nodes e = ground (arith, e)
deliver_one-cancelled false call addr t u nodes e = (refl, refl)

deliver-cancelled :
    (reached : String → Bool) (run_id addr : String) (t u : ℕ) (addrs : List String)
    (nodes : String → Node)
    → lookup run_id (nodes addr).run_tokens ≡ some t
    → is_cancelled u (deliver reached (fan_out_aborts run_id addrs) nodes addr)
      ≡ ((any (λ a. reached a && str_eq addr a) addrs && t == u) || is_cancelled u (nodes addr))
unfolding deliver fan_out_aborts worker_url
deliver-cancelled reached run_id addr t u [] nodes e = refl
deliver-cancelled reached run_id addr t u (a ∷ addrs) nodes e =
    let call : AbortCall = record { url = worker_url a; run_id = run_id } in
    let (tokens, one) = deliver_one-cancelled (reached a) call addr t u nodes e in
    let rest =
      deliver-cancelled reached run_id addr t u addrs (deliver_one (reached a) call nodes)
        (ap (lookup run_id) tokens ∙ e) in
    rest ∙ rw one (ground arith)

-- An abort at the coordinator, at any point of a run, whatever other calls came before that neither
-- start nor end the run: at a node that runs a slice of the run, it cancels the token of that slice
-- just when the node's address is one of the run's and the call to it gets through, and no other
-- token.
pub abort_run-deliver :
    (run_id addr : String) (handle : RunHandle) (es : List Event) (s : CoordinatorState)
    (reached : String → Bool) (nodes : String → Node) (t u : ℕ)
    → spare run_id es ≡ true
    → lookup run_id (nodes addr).run_tokens ≡ some t
    → let (accepted, calls) = (abort_run run_id (replay es (register_run run_id handle s))).1 in
      (accepted ≡ true)
      × (is_cancelled u (deliver reached calls nodes addr) ≡ (
          any (λ a. reached a && str_eq addr a) handle.worker_addrs && t == u
          || is_cancelled u (nodes addr)))
abort_run-deliver run_id addr handle es s reached nodes t u l e =
    let answer = (abort_run-replay run_id handle es s s l).0 in
    (
      ap (λ r. r.0) answer,
      ap (λ r. is_cancelled u (deliver reached r.1 nodes addr)) answer
          ∙ deliver-cancelled reached run_id addr t u handle.worker_addrs nodes e,
    )
