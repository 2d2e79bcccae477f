-- ===== src/Procurement.antt =====
-- packages/procurement/src
pub mod Types
pub mod Controller
pub mod Ledger
pub mod Rail
pub mod Executor
pub mod Treasury
pub mod Fixture
mod Tests
