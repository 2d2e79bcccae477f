-- ===== src/Procurement/Executor.antt =====
-- packages/procurement/src/executor.ts
pub mod Defs
pub mod Exposure
pub mod Commitment
pub mod Solvency
pub mod Reconcile
pub mod Payment
pub mod Once
pub mod Approval
pub mod Outcome
pub mod History
