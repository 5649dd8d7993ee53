-- ===== src/Db.antt =====
-- src/db: the database managers.
pub mod Interface
pub mod Bson
pub mod Documents
pub mod Transaction
pub mod Read
pub mod Core
pub mod Connection
pub mod Manager
pub mod Query
pub mod Property
pub mod Implementation
pub mod RoundTrip
mod Tests
