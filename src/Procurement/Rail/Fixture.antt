-- ===== src/Procurement/Rail/Fixture.antt =====
-- packages/procurement/src/rail.ts: `FixtureRail`, the in-memory rail.
pub mod Defs
pub mod Conservation
pub mod Retry
