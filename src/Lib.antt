-- ===== src/Lib.antt =====
-- correctness-bench: a load generator with coordinated-omission-correct latencies, as a fleet.
--
-- The program. A worker (engine/src/worker.rs) opens connections and sends requests on a schedule
-- (engine/src/sched.rs); each response is read, timed against its slot, recorded in two histograms
-- (engine/src/hist.rs) and judged by inline assertions; once a second a tick is sent. A worker node
-- (engine/src/worker_node.rs) runs such a worker for a coordinator and streams the ticks as
-- partials. The coordinator (engine/src/coordinator/) keeps a registry of workers, splits a run
-- over them, adds up their partials second by second and reports to the control plane.
-- contracts/bench.proto is the wire between the two. A worker node registers through
-- engine/src/bin/worker_node.rs. The client (cli/) creates a run at the control plane and counts
-- its ticks; the mock (mock/) is a target whose failures depend on the load.
--
-- The files.
-- Common, Float: shared names and lemmas, texts as bytes, maps as association lists, u64
--   arithmetic with its wrap-around; f64 as an interface with the laws of IEEE 754 that theorems
--   assume, and fixed-point numbers as an instance.
-- Sched: sched.rs. A method on &mut self returns the new record. Sched/Origin and Sched/Pacing
--   prove what moves a slot and when a connection may fire.
-- Hist: hist.rs over an interface for the hdrhistogram crate (Hist/Library); Hist/Listed is an
--   instance.
-- Worker: worker.rs. Worker/Spec and Worker/Assert: the run and its assertions. Worker/Counters,
--   Worker/Connection and Worker/Turn: the state of connection_task and one turn of its loop, with
--   the clock readings, the write and the read as inputs. Worker/Reader: read_one_response, over an
--   interface for httparse, with socket reads as events. Worker/Run: the pool of tasks, in which
--   abort checks and turns interleave in any order and the cancel bridge may raise the flag at any
--   point, in the middle of turns as well, and the report. Worker/Run/Seconds: a run with its ticks
--   between. Worker/Run/Cancel and Worker/Run/Halt: what a cancelled run still counts, and how it
--   ends. Worker/Run/Request: the text that is sent. Worker/Ticks: the tick emitter over the states
--   that it finds.
-- Proto: the messages; an i32 or i64 is its bit pattern.
-- WorkerNode: worker_node.rs, with the slices, their tokens and their streams in
--   WorkerNode/Slices.
-- EngineWorker: the cliff detector of engine/src/bin/worker.rs. EngineWorker/Local: the options,
--   the task that takes the ticks, the final push and the printed correctness.
-- Registration: engine/src/bin/worker_node.rs. Registration/Backoff: the first registration, with
--   its retries. Registration/Fleet: what the coordinator's registry holds of a node over time.
--   Registration/Alone: what that means for a request.
-- Coordinator: coordinator/mod.rs. Coordinator/Dispatch and Coordinator/Aggregate:
--   coordinator/dispatch.rs, what the workers return and what else changes the state during a run
--   being inputs. Coordinator/Dispatch/EndToEnd and Coordinator/Dispatch/Reports: from the workers'
--   counters and their reports to the totals of a run; Coordinator/Dispatch/Abort: a run while
--   other calls come in; Coordinator/Dispatch/Stop: what an abort does at the nodes;
--   Coordinator/Dispatch/Order: the workers in another order; Coordinator/Dispatch/Lowest and
--   Coordinator/Dispatch/Onset: the rate of the first 429. Coordinator/History: sequences of calls
--   and of the reaper's scans, and under it what the registry and the list of runs are after any of
--   them. Coordinator/Process: engine/src/bin/coordinator.rs. Coordinator/Admin and
--   Coordinator/Admin/Runs: coordinator/admin.rs.
-- Mock: mock/src/lib.rs. Mock/Meter and Mock/Handled: what the ring of buckets counts, and what
--   the handler makes of it. Mock/Race: threads that meet in one bucket, step by step;
--   Mock/Race/Finish: how that ends. Mock/Injection and Mock/Judged: how many requests fail, and
--   what a worker's assertions make of them. Mock/Response: the headers, and the response as a
--   worker reads it.
-- Client: cli/src/main.rs. Client/Create, Client/Requests and Client/Summary: what it posts and
--   prints. Client/Sse: the blocks and events of the stream; Client/Sse/Chunks: how it is cut;
--   Client/Sse/Framing: the text that control/internal/api/stream.go writes. Client/Totals,
--   Client/Received and Client/Exit: the counts and the exit codes.
-- Tests: the theorems on concrete inputs.
--
-- Choices. A u64 addition wraps, as in a release build. Loops are structural recursion: over the
-- events of a socket, the readings of the spin loop, the ticks, the messages of a channel. Where
-- such a list may end before the loop does the result says so (`none` or `starved`), and the list
-- that is long enough is part of a theorem; a loop without such a list (the registration's
-- attempts, the client's buffer) is on fuel, which the number of attempts or the length of the
-- buffer is shown to suffice for. The source's updates of the shared atomics within one turn of a
-- connection are one step, at the end of the turn; those of the mock's meter are single steps in
-- Mock/Race. The calls of the coordinator take its locks one after the other, and so are the steps
-- of a history, each with the time that it read before; a timer's ticks come when they are due. A
-- hash map of the registry is walked in the order of insertion; Coordinator/Dispatch/Order is about
-- any other. The order in which the aggregator takes the partials of a second is a parameter.
-- Message texts are kept as the numbers in them, and a sampled body as its bytes.
--
-- Not modelled: the binaries' start-up, options and printing; TCP, HTTP and gRPC transport; JSON,
-- whose decoder is a parameter; the control plane, web, mcp and gates, which are in other
-- languages.
pub mod Common
pub mod Float
pub mod Sched
pub mod Hist
pub mod Worker
pub mod Proto
pub mod WorkerNode
pub mod Coordinator
pub mod EngineWorker
pub mod Mock
pub mod Registration
pub mod Client
pub mod Tests
