-- ===== src/Client/Summary.antt =====
-- cli/src/main.rs: the numbers that the client prints of a tick and of a run.
use correctness_bench.Common.{ℕ, Option, none, some, List, [], ◌∷◌, ltb, if◌then◌else◌}
use correctness_bench.Float.{Float, whole}
use correctness_bench.Client.{TickAccum}

module _ {F : Type 0} ⦃f : Float F⦄ where
  -- the percentage that `handle_event` and `print_summary` print
  unfoldable pub pass_rate : ℕ → ℕ → F
  pass_rate pass total =
      if ltb 0 total then f.mul (f.div (f.of_u64 pass) (f.of_u64 total)) (whole 100) else whole 0

-- the numbers that `print_summary` prints, if there was a tick
pub record Summary (F : Type 0) : Type 0 where
  pub ticks_received : ℕ
  pub requests : ℕ
  pub pass : ℕ
  pub cum_pass_rate : F
  pub fail_by_tier : List ℕ
  pub p50_ms : F
  pub p99_ms : F

module _ {F : Type 0} ⦃f : Float F⦄ where
  unfoldable pub print_summary : TickAccum F → Option (Summary F)
  unfolding pass_rate
  print_summary a = elim a.last [
    | none ↦ none
    | some last ↦ some (record {
      ticks_received = a.received;
      requests = last.completed_total;
      pass = last.pass_total;
      cum_pass_rate = pass_rate last.pass_total last.completed_total;
      fail_by_tier =
          a.fail_status_total ∷ a.fail_latency_total ∷ a.fail_size_total ∷ a.fail_content_type_total
          ∷ [];
      p50_ms = f.div (f.of_u64 last.percentiles_so_far.p50_us) (whole 1000);
      p99_ms = f.div (f.of_u64 last.percentiles_so_far.p99_us) (whole 1000);
    })
  ]
