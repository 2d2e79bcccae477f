-- ===== src/Wallet/Policy.antt =====
-- packages/wallet-plugin/src/policy.ts
pub mod Tighten
pub mod Narrower
pub mod Parse
pub mod Sound
