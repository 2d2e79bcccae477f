-- ===== src/Gate.antt =====
-- web/lib/decide.ts
pub mod Defs
pub mod Terms
pub mod Allowed
pub mod Stopped
pub mod Reads
pub mod Layers
pub mod Qualified
mod Tests
