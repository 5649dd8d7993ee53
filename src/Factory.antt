-- ===== src/Factory.antt =====
-- src/model/factory/json_factory.cpp: data model values from JSON documents.
pub mod Frame
pub mod Action
pub mod Object
pub mod Property
pub mod RoundTrip
mod Tests
