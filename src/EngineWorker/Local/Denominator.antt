-- ===== src/EngineWorker/Local/Denominator.antt =====
-- The printed correctness is that of the responses that were judged (engine/src/bin/worker.rs).
use correctness_bench.Common.{
  ℕ, ◌+◌, ◌<◌, ◌≡◌, refl, Bool, List, map, arith, ltb, if◌then◌else◌, u64_mod,
}
use correctness_bench.Float.{Float, whole}
use correctness_bench.Hist.Library.{Hdr}
use correctness_bench.Worker.Spec.{RunSpec}
use correctness_bench.Worker.Counters.{LiveCounters}
use correctness_bench.Worker.Run.{World, Happening, start, config_of, happen_all, report, RunReport}
use correctness_bench.Worker.Run.Books.{result, IsHonest, report-IsHonest}
use correctness_bench.EngineWorker.Local.{correctness_denom, pass_rate}

-- the responses that the assertions judged
abbrev pub judged : LiveCounters → ℕ
judged c = c.pass + c.fail_status + c.fail_latency + c.fail_size + c.fail_content_type

module _ {F H U : Type 0} ⦃f : Float F⦄ ⦃h : Hdr H⦄ where
  IsHonest-correctness_denom :
      (c : LiveCounters) (r : RunReport F H U)
      → IsHonest c r
      → judged c + c.rate_limited < u64_mod
      → correctness_denom r ≡ judged c
  unfolding correctness_denom
  IsHonest-correctness_denom c r honest fits = omega (
    arith, honest.all_counted, honest.pass_live, honest.fail_status_live, honest.fail_latency_live,
    honest.fail_size_live, honest.fail_content_type_live, honest.rate_limited_live,
  )

module _ {F U : Type 0} ⦃f : Float F⦄ where
  -- the pool after a history
  abbrev pub world_after :
      (H : Type 0) ⦃h : Hdr H⦄ → RunSpec F U → List Bool → List Happening → World F H
  world_after H spec connects es = happen_all (config_of spec) (start spec connects) es

  -- After any interleaving of the turns of a run, with an abort at any point, whose responses are fewer
  -- than 2^64, the printed correctness divides the passes by the passes and failures of all tiers: the
  -- 429s are in neither. With no judged response it is zero.
  pub pass_rate-judged :
      (H : Type 0) ⦃h : Hdr H⦄ (spec : RunSpec F U) (connects : List Bool) (es : List Happening)
      (elapsed_ns : ℕ)
      → judged (world_after H spec connects es).shared.counters
          + (world_after H spec connects es).shared.counters.rate_limited
        < u64_mod
      → let w = world_after H spec connects es in
        let c = w.shared.counters in
        pass_rate (report spec elapsed_ns w (map result w.tasks)) ≡ (
          if ltb 0 (judged c)
          then f.mul (f.div (f.of_u64 c.pass) (f.of_u64 (judged c))) (whole 100)
          else whole 0)
  unfolding pass_rate
  pass_rate-judged H spec connects es elapsed_ns fits =
      let w = world_after H spec connects es in
      let honest = report-IsHonest {F = F} {H = H} spec connects es elapsed_ns in
      rw (IsHonest-correctness_denom w.shared.counters _ honest fits, honest.pass_live) refl
