-- ===== src/Zk/Fixture.antt =====
-- Concrete values for the theorems on private presentation.
pub mod Poseidon
pub mod Published
pub mod Presented
