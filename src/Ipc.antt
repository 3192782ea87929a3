-- ===== src/Ipc.antt =====
-- Messages between a0, b1 and c2 (src/ipc): their text, and how a stream is cut into messages.
pub mod Message
pub mod Socket
