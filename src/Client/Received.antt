-- ===== src/Client/Received.antt =====
-- The client counts what the control plane sends (cli/src/main.rs).
use correctness_bench.Common.{
  ℕ, ◌<◌, ◌≡◌, refl, ap, ◌∙◌, true, false, Option, none, some, List, [], ◌∷◌, map, Bytes, arith,
  codes, bytes_eq, if◌then◌else◌, All, length, length-map, u64_mod,
}
use correctness_bench.Client.{Tick, Decoders, no_ticks, chunk, subscribed, stream_ticks, is_success}
use correctness_bench.Client.Sse.{SseEvent, drain_all, parse_sse}
use correctness_bench.Client.Sse.Chunks.{concat}
use correctness_bench.Client.Sse.Framing.{
  Message, payload, IsPlain, stream_of, has, event_of, drain_all-events,
}
use correctness_bench.Client.Totals.{IsWhole, tick_in, ticks_in, last_of, read_stream-Counted}

module _ {F : Type 0} (d : Decoders F) where
  -- the tick of an event that a block holds
  abbrev tick_of_event : Option SseEvent → Option (Tick F)
  tick_of_event o = elim o [
    | none ↦ none
    | some event ↦ if bytes_eq event.name (codes "tick") then d.tick_of event.data_ else none
  ]

  abbrev ticks_of : List (Option SseEvent) → List (Tick F)
  ticks_of [] = []
  ticks_of (o ∷ os) = elim (tick_of_event o) [ none ↦ ticks_of os | some t ↦ t ∷ ticks_of os ]

  ticks_in-ticks_of : (bs : List Bytes) → ticks_in d bs ≡ ticks_of (map parse_sse bs)
  ticks_in-ticks_of [] = refl
  ticks_in-ticks_of (b ∷ bs) =
      ap (λ (ts : List (Tick F)). elim (tick_in d b) [ none ↦ ts | some t ↦ t ∷ ts ])
        (ticks_in-ticks_of bs)

  ticks_of-messages :
      (tick : Message → Tick F) (ms : List Message)
      → All (λ m. d.tick_of (payload m) ≡ some (tick m)) ms
      → ticks_of (map (λ m. some (event_of m)) ms) ≡ map tick ms
  ticks_of-messages tick [] h = refl
  ticks_of-messages tick (m ∷ ms) (here, h) = rw (here, ticks_of-messages tick ms h) refl

  -- Let the control plane send the greeting of a run and then a message for each tick, in chunks that may
  -- end anywhere but inside a character, and let each message be decoded to a tick. Then the client counts
  -- as many ticks as there are messages, below 2^64, and holds the last one.
  pub stream_ticks-messages :
      (run_id : Bytes) (ms : List Message) (tick : Message → Tick F) (chunks : List Bytes)
      (status : ℕ)
      → has b'\n' run_id ≡ false
      → has b'\r' run_id ≡ false
      → All IsPlain ms
      → All (λ m. d.tick_of (payload m) ≡ some (tick m)) ms
      → length ms < u64_mod
      → concat chunks ≡ stream_of run_id ms
      → All (IsWhole d) chunks
      → is_success status ≡ true
      → let a = (stream_ticks d (subscribed status (map chunk chunks)) no_ticks).0 in
        (a.received ≡ length ms) × (a.last ≡ last_of none (map tick ms))
  unfolding stream_ticks no_ticks
  stream_ticks-messages run_id ms tick chunks status plain no_cr all decoded few text whole ok =
      let counted = read_stream-Counted d chunks whole in
      let events = (drain_all-events run_id ms plain no_cr all).0 in
      let ticks : ticks_in d (drain_all (concat chunks)).0 ≡ map tick ms = rw text (
        ticks_in-ticks_of (drain_all (stream_of run_id ms)).0
        ∙ ap ticks_of events
        ∙ ticks_of-messages tick ms decoded) in
      let (n, latency, size, content_type, last) = counted in
      rw ok (omega (arith, n, ap length ticks, length-map tick ms), last ∙ ap (last_of none) ticks)
