-- ===== src/Zk/Label.antt =====
-- The labels of gate presentations (packages/circuits-zcash/src/fields.ts).
pub mod Defs
pub mod Split
pub mod RoundTrip
