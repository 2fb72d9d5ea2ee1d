-- ===== src/Agent.antt =====
-- The agentic core, src/features/decision_maker/.
pub mod State
pub mod Env
pub mod Tools
pub mod Nodes
pub mod Routing
pub mod Graph
pub mod Engine
pub mod Critique
pub mod Supersteps
pub mod RewriteLoop
pub mod Runaway
pub mod Legs
pub mod Convergence
pub mod Session
pub mod SessionFlow
pub mod ContextRouting
pub mod Search
pub mod Override
pub mod Replies
pub mod Samples
mod Tests
