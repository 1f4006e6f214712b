-- ===== src/Experiments.antt =====
-- Feature flags and experiments: apps/api/src/modules/feature-flag/feature-flag.service.ts and
-- apps/api/src/modules/ab-test/ab-test.service.ts.
pub mod Flags
pub mod Variants
pub mod Tests
