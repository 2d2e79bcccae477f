-- ===== src/Wallet/Operation.antt =====
-- packages/wallet-plugin/src/operation.ts
pub mod Defs
pub mod Steps
pub mod Permitted
pub mod Tightened
