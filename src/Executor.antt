-- ===== src/Executor.antt =====
-- The executor (src/executor): commands, tool scheduling, running streams, container protection.
pub mod Runner
pub mod ToolRunner
pub mod Graph
pub mod Protection
pub mod Streams
