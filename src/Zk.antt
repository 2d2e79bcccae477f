-- ===== src/Zk.antt =====
-- Private credential presentation: the credential tree and the circuit (packages/circuits-zcash),
-- and the gate's policy on a presented proof (web/lib/zk-credential.ts).
pub mod Tree
pub mod Circuit
pub mod Field
pub mod Label
pub mod Credential
pub mod Registry
pub mod Fixture
pub mod Tests
