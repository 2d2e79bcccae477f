-- ===== src/Zk/Field.antt =====
-- Field elements as text (packages/circuits-zcash/src/fields.ts).
pub mod Defs
pub mod RoundTrip
