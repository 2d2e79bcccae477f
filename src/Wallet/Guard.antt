-- ===== src/Wallet/Guard.antt =====
-- packages/wallet-plugin/src/guard.ts
pub mod Defs
pub mod Cleared
pub mod Signing
pub mod Once
pub mod Overlap
