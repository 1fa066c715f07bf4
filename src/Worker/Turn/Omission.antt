-- ===== src/Worker/Turn/Omission.antt =====
-- Coordinated omission: what a turn measures against its slot (worker.rs and sched.rs).
use correctness_bench.Common.{
  ℕ, ◌+◌, ◌-◌, ◌*◌, ◌/◌, ◌≤◌, ◌≡◌, refl, some, List, [], ◌∷◌, Bytes, arith, max,
}
use correctness_bench.Float.{Float}
use correctness_bench.Hist.{record_both}
use correctness_bench.Hist.Library.{Hdr}
use correctness_bench.Sched.{ConnSched, usec_to_next_send, intended_send_time}
use correctness_bench.Sched.Pacing.{intended-le-add_wait}
use correctness_bench.Worker.Assert.{InlineAssert}
use correctness_bench.Worker.Connection.{
  ParsedResponse, Shared, Conn, Config, Turn, Flow, again, spin_until, wait_for, latencies,
  sample_response,
}
use correctness_bench.Worker.Turn.{complete, on_response, turn}
use correctness_bench.Worker.Turn.Cases.{paced, wait_of, turn_cases}

-- The clock does not go back between the last reading of the wait, the send and the receipt.
pub record IsTimed (woke : ℕ) (t : Turn) : Type 0 where
  pub spun : woke ≤ t.check_ns
  pub checked : t.check_ns ≤ t.send_ns
  pub sent : t.send_ns ≤ t.recv_ns

spin_until-le :
    (target : ℕ) (ts : List ℕ) (woke : ℕ) → spin_until target ts ≡ some woke → target ≤ woke
unfolding spin_until
spin_until-le target [] woke h = ground arith
spin_until-le target (t ∷ ts) woke h = ground (arith, spin_until-le target ts woke)

wait_for-le :
    (now wait : ℕ) (ts : List ℕ) (woke : ℕ)
    → wait_for now wait ts ≡ some woke
    → now + wait * 1000 ≤ woke
unfolding wait_for
wait_for-le now wait ts woke h = ground (arith, spin_until-le (now + wait * 1000) ts woke)

module _ {F : Type 0} ⦃f : Float F⦄ where
  latencies-le :
      (t : Turn) (s : ConnSched F) (woke : ℕ)
      → wait_for t.now_ns (usec_to_next_send s (t.now_ns / 1000)).1 t.spins ≡ some woke
      → IsTimed woke t
      → let lat = latencies (intended_send_time s) t in lat.1 ≤ lat.0
  unfolding latencies
  latencies-le t s woke e timed =
      let wait = (usec_to_next_send s (t.now_ns / 1000)).1 in
      omega (
        arith,
        timed,
        intended-le-add_wait s (t.now_ns / 1000),
        wait_for-le t.now_ns wait t.spins woke e,
      )

module _ {F H : Type 0} ⦃f : Float F⦄ ⦃h : Hdr H⦄ where
  sample_response_histos :
      (rules : InlineAssert) (parsed : ParsedResponse) (buf : Bytes) (corrected : ℕ)
      (sh : Shared F H)
      → (sample_response rules parsed buf corrected sh).histos ≡ sh.histos
  unfolding sample_response
  sample_response_histos rules parsed buf corrected sh = ground arith

  on_response_histos :
      (cfg : Config F) (intended : ℕ) (t : Turn) (parsed : ParsedResponse) (sh : Shared F H)
      (conn : Conn F)
      → let lat = latencies intended t in
        (on_response cfg intended t parsed sh conn).0.histos ≡ record_both sh.histos lat.0 lat.1
  unfolding on_response
  on_response_histos cfg intended t parsed sh conn =
      let lat = latencies intended t in
      sample_response_histos cfg.rules parsed t.buf lat.0 (complete lat sh conn).0

  -- A turn that completes a response, with a clock that does not go back: it records exactly one pair
  -- of samples, the corrected one counted from the intended send time of the schedule as it was before
  -- the turn, however long the turn waited, and the corrected latency is never the smaller one.
  pub turn_omission :
      (cfg : Config F) (t : Turn) (sh : Shared F H) (conn : Conn F) (woke : ℕ)
      → wait_for t.now_ns (wait_of t conn) t.spins ≡ some woke
      → IsTimed woke t
      → (turn cfg t sh conn).2 ≡ again
      → let slot = intended_send_time conn.sched in
        let lat = latencies slot t in
        ((turn cfg t sh conn).0.histos ≡ record_both sh.histos lat.0 lat.1)
        × (lat.0 ≡ max (t.recv_ns / 1000 - slot) 1)
        × (lat.1 ≤ lat.0)
  unfolding latencies
  turn_omission cfg t sh conn woke e timed done =
      let slot = intended_send_time conn.sched in
      let P : Shared F H → Conn F → Flow → Type 0 = λ sh' conn' flow.
        flow ≡ again
        → sh'.histos ≡ record_both sh.histos (latencies slot t).0 (latencies slot t).1 in
      (
        turn_cases P cfg t sh conn (λ x. cc) (λ x. cc) (λ x. cc) (λ x. cc) (λ x. cc)
            (λ w parsed up ew x. on_response_histos cfg slot t parsed sh (paced t conn)) done,
        refl,
        latencies-le t conn.sched woke e timed,
      )
