-- ===== src/Coordinator/Process.antt =====
-- engine/src/bin/coordinator.rs: the process around the coordinator's state, and the calls that its gRPC
-- port answers (coordinator/mod.rs). The two servers share one state; what the reaper and the admin
-- server do to it are events of its history.
use correctness_bench.Common.{
  ℕ, ◌≡◌, refl, sym, ap, ◌∙◌, Bool, true, false, Option, none, some, List, [], ◌∷◌, ◌++◌, String,
}
use correctness_bench.Proto.{WorkerInfo, Assignment}
use correctness_bench.Coordinator.{CoordinatorState, RegisterAck, new, register, heartbeat}
use correctness_bench.Coordinator.History.{
  Event, registers, heartbeats, step, replay, Received, message, broken, Answer, health_ack, failed,
  heartbeat_stream,
}
use correctness_bench.Coordinator.History.Refines.{replay-append}

-- the calls of the `Bench` service
pub data Call (F : Type 0) : Type 0 where
  register_call : ℕ → WorkerInfo → Call F
  heartbeat_call : List Received → Call F
  run_slice_call : Assignment F → Call F
  abort_call : String → Call F

pub data Reply : Type 0 where
  registration : RegisterAck → Reply
  beats : List Answer → Reply
  unimplemented : String → Reply

-- `impl Bench for CoordinatorService`
unfoldable pub serve : {F : Type 0} → Call F → CoordinatorState → CoordinatorState × Reply
unfolding register heartbeat_stream
serve (register_call now info) s = let (s', ack) = register now info s in (s', registration ack)
serve (heartbeat_call inbound) s =
    let (s', answers) = heartbeat_stream inbound s in (s', beats answers)
serve (run_slice_call a) s =
    (s, unimplemented "RunSlice is implemented on the worker side, not the coordinator")
serve (abort_call run_id) s =
    (s, unimplemented "Abort is implemented on the worker side, not the coordinator")

pub data Server : Type 0 where
  grpc admin : Server

-- how a server's task comes back
pub data Ending : Type 0 where
  stopped server_error panicked : Ending

pub data Input (F : Type 0) : Type 0 where
  call : Call F → Input F
  event : Event → Input F
  ends : Server → Ending → Input F

-- `main` from the spawned tasks on: whichever server comes back first stops the process, with success.
unfoldable pub run :
    {F : Type 0} → List (Input F) → CoordinatorState → CoordinatorState × Option (Server × Ending)
unfolding serve step
run [] s = (s, none)
run (call c ∷ inputs) s = run inputs (serve c s).0
run (event e ∷ inputs) s = run inputs (step e s)
run (ends server ending ∷ inputs) s = (s, some (server, ending))

unfoldable pub main : {F : Type 0} → List (Input F) → CoordinatorState × Option (Server × Ending)
unfolding run new
main inputs = run inputs new

-- the messages of a stream up to its first error
abbrev pub beats_of : List Received → List Event
beats_of [] = []
beats_of (broken ∷ rest) = []
beats_of (message now id ∷ rest) = heartbeats now id ∷ beats_of rest

-- what a call does, as a history
abbrev pub effect : {F : Type 0} → Call F → List Event
effect (register_call now info) = registers now info ∷ []
effect (heartbeat_call inbound) = beats_of inbound
effect (run_slice_call a) = []
effect (abort_call run_id) = []

-- everything up to the first end of a server
abbrev pub history : {F : Type 0} → List (Input F) → List Event
history [] = []
history (call c ∷ inputs) = effect c ++ history inputs
history (event e ∷ inputs) = e ∷ history inputs
history (ends server ending ∷ inputs) = []

abbrev is_broken : List Received → Bool
is_broken [] = false
is_broken (broken ∷ rest) = true
is_broken (message now id ∷ rest) = is_broken rest

abbrev acks : List Event → Bool → List Answer
acks [] true = failed ∷ []
acks [] false = []
acks (e ∷ es) b = health_ack ∷ acks es b

-- A stream of heartbeats, up to its first error, acts as its messages do one after the other. Each is
-- acknowledged, whether its worker is registered or not, and an error is passed on at the end.
pub heartbeat_stream-replay :
    (inbound : List Received) (s : CoordinatorState)
    → ((heartbeat_stream inbound s).0 ≡ replay (beats_of inbound) s)
      × ((heartbeat_stream inbound s).1 ≡ acks (beats_of inbound) (is_broken inbound))
unfolding heartbeat_stream replay step
heartbeat_stream-replay [] s = (refl, refl)
heartbeat_stream-replay (broken ∷ rest) s = (refl, refl)
heartbeat_stream-replay (message now id ∷ rest) s =
    let more = heartbeat_stream-replay rest (heartbeat now id s) in
    (more.0, ap (λ answers. health_ack ∷ answers) more.1)

serve-replay :
    {F : Type 0} (c : Call F) (s : CoordinatorState) → (serve c s).0 ≡ replay (effect c) s
unfolding serve replay step
serve-replay (register_call now info) s = refl
serve-replay (heartbeat_call inbound) s = (heartbeat_stream-replay inbound s).0
serve-replay (run_slice_call a) s = refl
serve-replay (abort_call run_id) s = refl

run-replay :
    {F : Type 0} (inputs : List (Input F)) (s : CoordinatorState)
    → (run inputs s).0 ≡ replay (history inputs) s
unfolding run replay
run-replay [] s = refl
run-replay (call c ∷ inputs) s =
    run-replay inputs (serve c s).0
    ∙ ap (replay (history inputs)) (serve-replay c s)
    ∙ sym (replay-append (effect c) (history inputs) s)
run-replay (event e ∷ inputs) s = run-replay inputs (step e s)
run-replay (ends server ending ∷ inputs) s = refl

run-stops :
    {F : Type 0} (server : Server) (ending : Ending) (before after : List (Input F))
    (s : CoordinatorState)
    → run (before ++ (ends server ending ∷ after)) s ≡ run (before ++ (ends server ending ∷ [])) s
unfolding run
run-stops server ending [] after s = refl
run-stops server ending (call c ∷ inputs) after s =
    run-stops server ending inputs after (serve c s).0
run-stops server ending (event e ∷ inputs) after s = run-stops server ending inputs after (step e s)
run-stops server ending (ends server' ending' ∷ inputs) after s = refl

-- The process's state is that of the history of its inputs, a call for a run or an abort on the
-- coordinator's own port having no part in it, up to the first end of a server. What comes after that
-- end has no effect.
pub main-replay :
    {F : Type 0} (server : Server) (ending : Ending) (before after : List (Input F))
    → ((main before).0 ≡ replay (history before) new)
      × (main (before ++ (ends server ending ∷ after)) ≡ main (before ++ (ends server ending ∷ [])))
unfolding main
main-replay server ending before after =
    (run-replay before new, run-stops server ending before after new)
