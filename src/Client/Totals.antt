-- ===== src/Client/Totals.antt =====
-- What the client has counted after a stream (`stream_ticks` and `handle_event`, cli/src/main.rs).
use correctness_bench.Common.{
  ℕ, ◌+◌, ◌%◌, ◌<◌, ◌≡◌, refl, sym, ap, ◌∙◌, true, Option, none, some, List, [], ◌∷◌, ◌++◌, map,
  Bytes, arith, codes, bytes_eq, if◌then◌else◌, Bool-cases, Option-cases, inl, inr, All, length,
  u64_mod,
}
use correctness_bench.Client.{
  Tick, TickAccum, Decoders, chunk, accumulate, handle_event, handle_block, handle_blocks,
  read_stream, no_ticks,
}
use correctness_bench.Client.Sse.{SseEvent, split_block, drain_all, parse_sse}
use correctness_bench.Client.Sse.Chunks.{drain_chunks, drain_chunks-concat, concat}

module _ {F : Type 0} (d : Decoders F) where
  handle_blocks-append :
      (bs cs : List Bytes) (a : TickAccum F)
      → handle_blocks d (bs ++ cs) a ≡ handle_blocks d cs (handle_blocks d bs a)
  unfolding handle_blocks
  handle_blocks-append [] cs a = refl
  handle_blocks-append (b ∷ bs) cs a = handle_blocks-append bs cs (handle_block d b a)

  -- A chunk of whole characters is decoded to itself.
  abbrev pub IsWhole : Bytes → Type 0
  IsWhole c = d.from_utf8_lossy c ≡ c

  read_stream-drain_chunks :
      (chunks : List Bytes) (buf : Bytes) (a : TickAccum F)
      → All IsWhole chunks
      → read_stream d (map chunk chunks) buf a
        ≡ (handle_blocks d (drain_chunks chunks buf).0 a, true)
  unfolding read_stream drain_chunks handle_blocks
  read_stream-drain_chunks [] buf a whole = refl
  read_stream-drain_chunks (c ∷ chunks) buf a (here, whole) =
      let (blocks, kept) = drain_all (buf ++ c) in
      let rest = read_stream-drain_chunks chunks kept (handle_blocks d blocks a) whole in
      let cut = λ (x : Bytes). drain_all (buf ++ x) in
      ap (λ x. read_stream d (map chunk chunks) (cut x).1 (handle_blocks d (cut x).0 a)) here
      ∙ rest
      ∙ ap (λ b. (b, true)) (sym (handle_blocks-append blocks (drain_chunks chunks kept).0 a))

  -- If no chunk ends inside a character, what the client has counted at the end of the stream does not
  -- depend on how the stream was cut into chunks: it is what the blocks of the whole stream, handled in
  -- their order, add to the ticks.
  pub read_stream-drain_all :
      (chunks : List Bytes) (a : TickAccum F)
      → All IsWhole chunks
      → read_stream d (map chunk chunks) [] a
        ≡ (handle_blocks d (drain_all (concat chunks)).0 a, true)
  read_stream-drain_all chunks a whole =
      read_stream-drain_chunks chunks [] a whole
      ∙ ap (λ p. (handle_blocks d p.0 a, true))
          (drain_chunks-concat chunks [] (unfold split_block in refl))

module _ {F : Type 0} where
  -- the ticks that blocks hold, in order
  abbrev pub tick_in : Decoders F → Bytes → Option (Tick F)
  tick_in d block = elim (parse_sse block) [
    | none ↦ none
    | some event ↦ if bytes_eq event.name (codes "tick") then d.tick_of event.data_ else none
  ]

  abbrev pub ticks_in : Decoders F → List Bytes → List (Tick F)
  ticks_in d [] = []
  ticks_in d (b ∷ bs) = elim (tick_in d b) [ none ↦ ticks_in d bs | some t ↦ t ∷ ticks_in d bs ]

  abbrev pub sum_of : (Tick F → ℕ) → List (Tick F) → ℕ
  sum_of w [] = 0
  sum_of w (t ∷ ts) = w t + sum_of w ts

  abbrev pub last_of : Option (Tick F) → List (Tick F) → Option (Tick F)
  last_of t [] = t
  last_of t (u ∷ ts) = last_of (some u) ts

  accumulate_all : List (Tick F) → TickAccum F → TickAccum F
  accumulate_all [] a = a
  accumulate_all (t ∷ ts) a = accumulate_all ts (accumulate t a)

  handle_event-tick :
      (d : Decoders F) (e : SseEvent) (a : TickAccum F)
      → handle_event d e a
        ≡ (elim (if bytes_eq e.name (codes "tick") then d.tick_of e.data_ else none) [
          | none ↦ a
          | some t ↦ accumulate t a
        ])
  unfolding handle_event
  handle_event-tick d e a = elim (Bool-cases (bytes_eq e.name (codes "tick"))) [
    | inl tick ↦ rw tick refl
    | inr other ↦ rw other refl
  ]

  handle_block-tick_in :
      (d : Decoders F) (b : Bytes) (a : TickAccum F)
      → handle_block d b a ≡ (elim (tick_in d b) [ none ↦ a | some t ↦ accumulate t a ])
  unfolding handle_block
  handle_block-tick_in d b a = elim (Option-cases (parse_sse b)) [
    | inl nothing ↦ rw (handle_block, nothing) refl
    | inr (e, found) ↦ rw (handle_block, found) (handle_event-tick d e a)
  ]

  accumulate_all-elim :
      (o : Option (Tick F)) (ts : List (Tick F)) (a : TickAccum F)
      → accumulate_all (elim o [ none ↦ ts | some t ↦ t ∷ ts ]) a
        ≡ accumulate_all ts (elim o [ none ↦ a | some t ↦ accumulate t a ])
  unfolding accumulate_all
  accumulate_all-elim none ts a = refl
  accumulate_all-elim (some t) ts a = refl

  handle_blocks-ticks_in :
      (d : Decoders F) (bs : List Bytes) (a : TickAccum F)
      → handle_blocks d bs a ≡ accumulate_all (ticks_in d bs) a
  unfolding handle_blocks accumulate_all
  handle_blocks-ticks_in d [] a = refl
  handle_blocks-ticks_in d (b ∷ bs) a =
      handle_blocks-ticks_in d bs (handle_block d b a)
      ∙ ap (accumulate_all (ticks_in d bs)) (handle_block-tick_in d b a)
      ∙ sym (accumulate_all-elim (tick_in d b) (ticks_in d bs) a)

  -- The counts are those of `u64`.
  abbrev IsSmall : TickAccum F → Type 0
  IsSmall a =
      (a.received < u64_mod)
      × (a.fail_latency_total < u64_mod)
      × (a.fail_size_total < u64_mod)
      × (a.fail_content_type_total < u64_mod)

  -- The counts after ticks, from those before: the number of ticks, and the sums of their failures.
  abbrev pub Counted : List (Tick F) → TickAccum F → TickAccum F → Type 0
  Counted ts a b =
      (b.received ≡ (a.received + length ts) % u64_mod)
      × (b.fail_latency_total
          ≡ (a.fail_latency_total + sum_of (λ t. t.this_tick.fail_latency) ts) % u64_mod)
      × (b.fail_size_total ≡ (a.fail_size_total + sum_of (λ t. t.this_tick.fail_size) ts) % u64_mod)
      × (b.fail_content_type_total
          ≡ (a.fail_content_type_total + sum_of (λ t. t.this_tick.fail_content_type) ts) % u64_mod)
      × (b.last ≡ last_of a.last ts)

  accumulate_all-Counted :
      (ts : List (Tick F)) (a : TickAccum F) → IsSmall a → Counted ts a (accumulate_all ts a)
  unfolding accumulate_all accumulate
  accumulate_all-Counted [] a small = (omega arith, omega arith, omega arith, omega arith, refl)
  accumulate_all-Counted (t ∷ ts) a small =
      let next : IsSmall (accumulate t a) = (omega arith, omega arith, omega arith, omega arith) in
      let (n, l, s, c, last) = accumulate_all-Counted ts (accumulate t a) next in
      (omega (arith, n), omega (arith, l), omega (arith, s), omega (arith, c), last)

module _ {F : Type 0} (d : Decoders F) where
  -- If no chunk ends inside a character, the client ends with the number of ticks that the whole stream
  -- holds, the sums of their failures by latency, size and content type, and the last tick. The counts
  -- wrap at 2^64.
  pub read_stream-Counted :
      (chunks : List Bytes)
      → All (IsWhole d) chunks
      → Counted
          (ticks_in d (drain_all (concat chunks)).0)
          no_ticks
          (read_stream d (map chunk chunks) [] no_ticks).0
  unfolding no_ticks
  read_stream-Counted chunks whole =
      let bs = (drain_all (concat chunks)).0 in
      rw (read_stream-drain_all d chunks no_ticks whole, handle_blocks-ticks_in d bs no_ticks)
        (accumulate_all-Counted (ticks_in d bs) no_ticks
          (omega arith, omega arith, omega arith, omega arith))
