-- ===== src/Client.antt =====
-- cli/src/main.rs: the command-line client. What the control plane answers, the bytes of its stream and the
-- way a run ends are inputs; JSON's decoder and the standard library's lossy decoding of bytes are
-- parameters. What is printed is not modelled, but for the numbers of the summary.
pub mod Sse
pub mod Exit
pub mod Totals
pub mod Received
pub mod Create
pub mod Requests
pub mod Summary
use correctness_bench.Common.{
  ℕ, ◌+◌, ◌*◌, Bool, true, false, not, ◌⊎◌, inl, inr, Option, none, some, List, [], ◌∷◌, ◌++◌,
  String, Bytes, codes, ltb, leb, ◌==◌, ◌&&◌, bytes_eq, is_empty, to_ascii_uppercase, if◌then◌else◌,
  u64_add, u64_mul,
}
use correctness_bench.Float.{Float, whole}
use correctness_bench.Client.Sse.{SseEvent, drain_all, parse_sse}

pub record ThisTick : Type 0 where
  pub total : ℕ
  pub pass : ℕ
  pub fail_status : ℕ
  pub fail_latency : ℕ
  pub fail_size : ℕ
  pub fail_content_type : ℕ

pub record PercentilesSoFar : Type 0 where
  pub p50_us : ℕ
  pub p99_us : ℕ

-- `Tick`, less the buckets, which nothing reads
pub record Tick (F : Type 0) : Type 0 where
  pub elapsed_s : ℕ
  pub achieved_rps_1s : F
  pub completed_total : ℕ
  pub pass_total : ℕ
  pub fail_status_total : ℕ
  pub this_tick : ThisTick
  pub percentiles_so_far : PercentilesSoFar

pub record TickAccum (F : Type 0) : Type 0 where
  pub last : Option (Tick F)
  pub received : ℕ
  pub fail_status_total : ℕ
  pub fail_latency_total : ℕ
  pub fail_size_total : ℕ
  pub fail_content_type_total : ℕ

-- `TickAccum::default`
unfoldable pub no_ticks : {F : Type 0} → TickAccum F
no_ticks = record {
  last = none;
  received = 0;
  fail_status_total = 0;
  fail_latency_total = 0;
  fail_size_total = 0;
  fail_content_type_total = 0;
}

-- what the client takes from libraries: how it decodes a tick, and the bytes of a chunk
pub record Decoders (F : Type 0) : Type 0 where
  pub tick_of : Bytes → Option (Tick F)
  pub from_utf8_lossy : Bytes → Bytes

-- what the stream of the response yields: a chunk, or an error, which ends it
pub data Item : Type 0 where
  chunk : Bytes → Item
  broken : Item

module _ {F : Type 0} where
  -- the end of `handle_event`
  unfoldable pub accumulate : Tick F → TickAccum F → TickAccum F
  accumulate tick a = record {
    last = some tick;
    received = u64_add a.received 1;
    fail_status_total = tick.fail_status_total;
    fail_latency_total = u64_add a.fail_latency_total tick.this_tick.fail_latency;
    fail_size_total = u64_add a.fail_size_total tick.this_tick.fail_size;
    fail_content_type_total = u64_add a.fail_content_type_total tick.this_tick.fail_content_type;
  }

  unfoldable pub handle_event : Decoders F → SseEvent → TickAccum F → TickAccum F
  unfolding accumulate
  handle_event d event a =
      if bytes_eq event.name (codes "tick")
      then elim (d.tick_of event.data_) [ none ↦ a | some tick ↦ accumulate tick a ]
      else a

  unfoldable pub handle_block : Decoders F → Bytes → TickAccum F → TickAccum F
  unfolding parse_sse handle_event
  handle_block d block a = elim (parse_sse block) [ none ↦ a | some event ↦ handle_event d event a ]

  unfoldable pub handle_blocks : Decoders F → List Bytes → TickAccum F → TickAccum F
  unfolding handle_block
  handle_blocks d [] a = a
  handle_blocks d (b ∷ bs) a = handle_blocks d bs (handle_block d b a)

  -- The loop of `stream_ticks`: the ticks, and whether it ended without an error.
  unfoldable pub read_stream : Decoders F → List Item → Bytes → TickAccum F → TickAccum F × Bool
  unfolding drain_all handle_blocks
  read_stream d [] buf a = (a, true)
  read_stream d (broken ∷ items) buf a = (a, false)
  read_stream d (chunk c ∷ items) buf a =
      let (blocks, rest) = drain_all (buf ++ d.from_utf8_lossy c) in
      read_stream d items rest (handle_blocks d blocks a)

-- the answer to the subscription, with its status, and what follows it
pub data Subscription : Type 0 where
  not_sent : Subscription
  subscribed : ℕ → List Item → Subscription

abbrev pub is_success : ℕ → Bool
is_success status = leb 200 status && ltb status 300

module _ {F : Type 0} where
  unfoldable pub stream_ticks : Decoders F → Subscription → TickAccum F → TickAccum F × Bool
  unfolding read_stream
  stream_ticks d not_sent a = (a, false)
  stream_ticks d (subscribed status items) a =
      if is_success status then read_stream d items [] a else (a, false)

pub data ExitKind : Type 0 where
  completed aborted engine_error regressed : ExitKind

pub data BenchError : Type 0 where
  unreachable bad_spec internal : BenchError

-- `main`, after the command
unfoldable pub exit_code : BenchError ⊎ ExitKind → ℕ
exit_code (inr completed) = 0
exit_code (inr aborted) = 1
exit_code (inr engine_error) = 1
exit_code (inr regressed) = 1
exit_code (inl unreachable) = 2
exit_code (inl bad_spec) = 2
exit_code (inl internal) = 1

-- an answer of the control plane: none, or its status and body
pub data Reply (B : Type 0) : Type 0 where
  no_reply : Reply B
  reply : ℕ → B → Reply B

-- `post_run`, with the run that the body names, if it can be decoded
unfoldable pub post_run : Reply (Option Bytes) → BenchError ⊎ Bytes
post_run no_reply = inl unreachable
post_run (reply status body) =
    if status == 201
    then elim body [ none ↦ inl internal | some run_id ↦ inr run_id ]
    else inl bad_spec

-- `total_wait`, in seconds
abbrev pub total_wait : ℕ → ℕ
total_wait duration_s = u64_add duration_s 5

-- What ends the `select!` of `run`: the stream, the time limit, or Ctrl-C. In the last two cases the
-- subscription holds what came before.
pub data Ending : Type 0 where
  stream_over timed_out interrupted : Ending

module _ {F : Type 0} where
  -- `run` from the end of the `select!` on
  unfoldable pub conclude : Ending → TickAccum F × Bool → BenchError ⊎ ExitKind
  conclude interrupted (a, ok) = inr aborted
  conclude timed_out (a, ok) = if a.received == 0 then inr engine_error else inr completed
  conclude stream_over (a, ok) =
      if a.received == 0 then (if ok then inr engine_error else inl internal) else inr completed

  -- `run`, and the run that it asks the control plane to abort
  unfoldable pub run :
      Decoders F
      → Reply (Option Bytes)
      → Subscription
      → Ending
      → (BenchError ⊎ ExitKind) × Option Bytes
  unfolding post_run stream_ticks no_ticks conclude
  run d created sub ending = elim (post_run created) [
    | inl e ↦ (inl e, none)
    | inr run_id ↦ (
      conclude ending (stream_ticks d sub no_ticks),
      elim ending [ interrupted ↦ some run_id | stream_over ↦ none | timed_out ↦ none ],
    )
  ]

-- `regression`, with `passed` of the body, if it can be decoded
unfoldable pub regression : Reply (Option Bool) → BenchError ⊎ ExitKind
regression no_reply = inl unreachable
regression (reply status body) =
    if is_success status
    then elim body [
      | none ↦ inl internal
      | some passed ↦ if passed then inr completed else inr regressed
    ]
    else inl bad_spec
