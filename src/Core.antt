-- ===== src/Core.antt =====
-- src/core/: what becomes of a reply of the language model before a node reads it.
pub mod Patterns
pub mod LlmUtils
pub mod JsonUtils
pub mod Texts
pub mod Blocks
pub mod Sanitizing
pub mod Braces
pub mod Parsing
pub mod LlmClient
mod Tests
