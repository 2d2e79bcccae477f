-- ===== src/Wallet/Decision.antt =====
-- packages/wallet-plugin/src/decision.ts
pub mod Defs
pub mod Sound
