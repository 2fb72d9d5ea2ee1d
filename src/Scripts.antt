-- ===== src/Scripts.antt =====
-- The command-line scripts of the repository, scripts/.
pub mod Smoke
pub mod MintToken
pub mod Samples
mod Tests
