-- ===== src/Gamification.antt =====
-- Gamification: apps/api/src/modules/gamification.
pub mod Schema
pub mod Levels
pub mod Quests
pub mod Badges
mod Tests
