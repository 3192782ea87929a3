-- ===== src/Core.antt =====
-- The agent core (src/core): text that is safe to send on, and the state machine of a goal.
pub mod Text
pub mod Driven
pub mod Thread
