-- ===== src/Server.antt =====
-- The HTTP server around the agent, server/.
pub mod Saver
pub mod Metrics
pub mod Auth
pub mod Tokens
pub mod Minting
pub mod Padding
pub mod Config
pub mod Sweeper
pub mod Deletion
pub mod Sweeping
pub mod Idempotency
pub mod TurnApi
pub mod Serving
pub mod Turns
pub mod Answers
pub mod Lifecycle
pub mod Interleaving
pub mod Health
pub mod Middleware
pub mod Checkpointers
pub mod Settings
pub mod Settled
pub mod Lifespan
pub mod App
pub mod Spared
pub mod Halves
pub mod Isolation
pub mod Revival
pub mod Gate
pub mod CorrelationIds
pub mod Correlation
pub mod HexIds
pub mod Replay
pub mod Keys
pub mod Samples
mod Tests
mod TokenTests
mod SettingsTests
mod InterleavingTests
