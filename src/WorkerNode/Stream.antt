-- ===== src/WorkerNode/Stream.antt =====
-- The events of a slice, in order (worker_node.rs).
use correctness_bench.Common.{
  ℕ, zero, suc, ◌+◌, ◌<◌, ◌≡◌, Bool, true, false, List, [], ◌∷◌, String, arith, u64_mod, length,
}
use correctness_bench.Float.{Float}
use correctness_bench.Proto.{Partial, WorkerEvent, partial}
use correctness_bench.Worker.Ticks.{Tick}
use correctness_bench.WorkerNode.{partial_from_tick, empty_final_partial}
use correctness_bench.WorkerNode.Slices.{partials_from, events}

module _ {F : Type 0} where
  -- the partials among the events
  abbrev pub partials : List (WorkerEvent F) → List (Partial F)
  partials [] = []
  partials (partial p ∷ es) = p ∷ partials es
  partials (_ ∷ es) = partials es

  -- the number and the final mark of each partial
  abbrev pub marks : List (Partial F) → List (ℕ × Bool)
  marks [] = []
  marks (p ∷ ps) = (p.tick, p.final) ∷ marks ps

-- `n` numbered partials after the first `k`, and then a final one
abbrev pub numbered : ℕ → ℕ → List (ℕ × Bool)
numbered k zero = (k + 1, true) ∷ []
numbered k (suc n) = (k + 1, false) ∷ numbered (k + 1) n

module _ {F : Type 0} ⦃f : Float F⦄ where
  partials_from-marks :
      (worker_id : String) (k : ℕ) (ts : List (Tick F))
      → k + length ts + 1 < u64_mod
      → marks (partials (partials_from worker_id k ts)) ≡ numbered k (length ts)
  unfolding partials_from partial_from_tick empty_final_partial
  partials_from-marks worker_id k [] lt = ground arith
  partials_from-marks worker_id k (t ∷ ts) lt =
      ground (arith, partials_from-marks worker_id (k + 1) ts (omega arith))

  -- For any number of ticks below 2 ^ 64 - 1, a slice's stream has one partial per tick, numbered from
  -- 1 without a gap, and then exactly one final partial, the last, with the next number.
  pub events-marks :
      (worker_id : String) (start epoch : ℕ) (ts : List (Tick F))
      → length ts + 1 < u64_mod
      → marks (partials (events worker_id start epoch ts)) ≡ numbered 0 (length ts)
  unfolding events
  events-marks worker_id start epoch ts lt = partials_from-marks worker_id 0 ts (omega arith)
