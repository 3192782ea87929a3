-- ===== src/Persistence.antt =====
-- Persistence (src/persistence): the replay of a recorded session.
pub mod Replay
