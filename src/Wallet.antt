-- ===== src/Wallet.antt =====
-- packages/wallet-plugin/src
pub mod Chars
pub mod Number
pub mod Types
pub mod Policy
pub mod Operation
pub mod Decision
pub mod Guard
pub mod Fixture
mod Tests
