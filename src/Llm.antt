-- ===== src/Llm.antt =====
-- The model's answers (src/llm): from the bytes of a response to events.
pub mod Decoder
