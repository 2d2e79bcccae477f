-- ===== src/Zk/Circuit.antt =====
-- The membership circuit (packages/circuits-zcash/circuit/src/main.nr) and the holder's half that
-- assembles its inputs (packages/circuits-zcash/src/index.ts).
pub mod Defs
pub mod Complete
pub mod Sound
