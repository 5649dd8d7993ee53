-- ===== src/Controller.antt =====
-- src/controller: the request handlers and the factory that chooses among them.
pub mod Handler
pub mod Caught
pub mod ObjectBase
pub mod ObjectKey
pub mod Device
pub mod Action
pub mod Frame
pub mod Property
pub mod Router
pub mod Status
pub mod Refusals
pub mod Answers
mod Tests
