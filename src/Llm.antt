-- ===== src/Llm.antt =====
-- internal/llm: the client of the language model.
pub mod Escape
pub mod Validate
pub mod Chat
pub mod Prompt
pub mod Review
