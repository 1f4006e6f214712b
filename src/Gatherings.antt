-- ===== src/Gatherings.antt =====
-- Where people meet: apps/api/src/modules/{community,event}.
pub mod Schema
pub mod Communities
pub mod Events
mod Tests
