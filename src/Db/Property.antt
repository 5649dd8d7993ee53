-- ===== src/Db/Property.antt =====
-- src/db/property_database_manager.cpp and include/property_database_manager.h: the property side of
-- the database.
pub mod Documents
pub mod Transaction
pub mod Read
pub mod Manager
pub mod Query
pub mod RoundTrip
pub mod Stored
mod Tests
