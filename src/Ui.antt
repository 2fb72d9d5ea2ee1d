-- ===== src/Ui.antt =====
-- src/ui/: the events between the graph and the screen, and what the screen shows.
pub mod Events
pub mod Controllers
pub mod Display
pub mod Presenter
pub mod App
pub mod Xray
pub mod Streams
pub mod Views
pub mod Screens
pub mod Conversation
mod Tests
