-- ===== src/Control.antt =====
-- The control server (src/c2): the registry of B1 instances and the clients of server-sent events.
pub mod Sse
pub mod Registry
