-- ===== src/Zk/Registry.antt =====
-- The published registry root (packages/circuits-zcash/src/registry.ts).
pub mod Keys
pub mod Defs
pub mod Build
pub mod Replay
pub mod Admission
pub mod Holder
pub mod Witness
