-- ===== src/Wallet/Fixture.antt =====
-- Inputs on which the code is run.
pub mod Operation
pub mod Gate
