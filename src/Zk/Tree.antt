-- ===== src/Zk/Tree.antt =====
-- `CredentialTree` of packages/circuits-zcash/src/index.ts
pub mod Defs
pub mod Nodes
pub mod Root
pub mod Path
