-- ===== src/Zk/Credential.antt =====
-- The gate's policy on a presented proof (web/lib/zk-credential.ts).
pub mod Defs
pub mod Evaluate
pub mod Store
pub mod Bound
pub mod Admitted
pub mod Steps
pub mod Once
pub mod Parse
pub mod Parsed
