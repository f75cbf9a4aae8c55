-- ===== src/Session.antt =====
-- orchestrator/session.py: the sessions of the interactive requests. A node pushes events into a
-- session's queue, and the request streams them out.
pub mod Data
pub mod Inference
pub mod Manager
pub mod Stream
pub mod Waiting
pub mod Delivery
pub mod Closing
mod Tests
