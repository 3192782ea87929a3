-- ===== src/Shared.antt =====
-- What the threads and components share (src/shared), and the JSON library that they all use.
pub mod Events
pub mod Json
pub mod Mpsc
