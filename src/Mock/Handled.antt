-- ===== src/Mock/Handled.antt =====
-- What the mock answers after a history of requests (`handle`, mock/src/lib.rs).
use correctness_bench.Common.{
  ℕ, ◌+◌, ◌<◌, ◌≡◌, refl, ap, ◌∙◌, List, [], ◌∷◌, arith, length, u64_mod,
}
use correctness_bench.Float.{Float}
use correctness_bench.Mock.{
  RpsMeter, Params, AppState, start, handle, decide, record_at, current_requests,
}
use correctness_bench.Mock.Meter.{meter_after, Falling, recent}
use correctness_bench.Mock.Meter.Counted.{current_requests-recent}

module _ {F : Type 0} ⦃f : Float F⦄ where
  -- the state after requests at these moments with these parameters, the newest first
  unfoldable pub served : List (ℕ × Params F) → AppState
  unfolding start handle
  served [] = start
  served ((t, p) ∷ rs) = (handle t p (served rs)).0

  abbrev pub times : List (ℕ × Params F) → List ℕ
  times [] = []
  times ((t, p) ∷ rs) = t ∷ times rs

  served-meter : (rs : List (ℕ × Params F)) → (served rs).meter ≡ meter_after (times rs)
  unfolding served start handle meter_after
  served-meter [] = refl
  served-meter ((t, p) ∷ rs) = ap (record_at t) (served-meter rs)

  served-counter :
      (rs : List (ℕ × Params F)) → length rs < u64_mod → (served rs).counter ≡ length rs
  unfolding served start handle
  served-counter [] room = refl
  served-counter ((t, p) ∷ rs) room = omega (arith, served-counter rs (omega arith))

  length-times : (rs : List (ℕ × Params F)) → length (times rs) ≡ length rs
  length-times [] = refl
  length-times ((t, p) ∷ rs) = omega (arith, length-times rs)

  -- If no request is later than the ones after it and the clock and the number of requests stay below
  -- 2^64, the mock decides on a request by the number of requests in its window, itself included, whatever
  -- the parameters of the others, and by the number of the requests before it.
  pub handle-recent :
      (now : ℕ) (p : Params F) (rs : List (ℕ × Params F))
      → Falling now (times rs)
      → now < u64_mod
      → length rs + 1 < u64_mod
      → (handle now p (served rs)).1 ≡ decide p (f.of_u64 (recent now (now ∷ times rs))) (length rs)
  unfolding handle meter_after
  handle-recent now p rs order small room =
      let counted =
        current_requests-recent now (now ∷ times rs) (omega arith, order) small
          (omega (arith, length-times rs)) in
      let rps_of = λ (m : RpsMeter). f.of_u64 (current_requests now (record_at now m)) in
      ap (λ m. decide p (rps_of m) (served rs).counter) (served-meter rs)
      ∙ ap (decide p (rps_of (meter_after (times rs)))) (served-counter rs (omega arith))
      ∙ ap (λ n. decide p (f.of_u64 n) (length rs)) counted
