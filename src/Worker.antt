-- ===== src/Worker.antt =====
-- engine/src/worker.rs: the load generator of one worker. A module for each part of the file: the run
-- specification, the inline assertions, the shared counters, the connection task, the response reader,
-- the tick emitter and the run around them.
pub mod Spec
pub mod Assert
pub mod Counters
pub mod Connection
pub mod Turn
pub mod Reader
pub mod Run
pub mod Ticks
