-- ===== src/Party.antt =====
-- The riding parties: apps/api/src/modules/party/{party.service,leader-election.service,
-- party.constants}.ts.
pub mod Schema
pub mod Election
pub mod Members
pub mod Leaving
pub mod Invites
pub mod Signals
pub mod Zombies
pub mod Invariant
mod Tests
