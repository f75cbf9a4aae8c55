-- ===== src/Server.antt =====
-- orchestrator/main.py and orchestrator/api: the server that puts the components together.
pub mod App
pub mod Messages
pub mod Handle
pub mod Connection
pub mod Batches
pub mod Serve
pub mod Kept
pub mod Requests
pub mod Safety
pub mod Leaving
pub mod Joining
pub mod Assigning
pub mod Completions
pub mod Answering
pub mod Events
pub mod Views
mod Tests
