-- ===== src/Emergencies.antt =====
-- Emergencies: apps/api/src/modules/emergency.
pub mod Schema
pub mod Alerts
pub mod Answers
pub mod Contacts
mod Tests
