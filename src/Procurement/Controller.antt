-- ===== src/Procurement/Controller.antt =====
-- packages/procurement/src/controller.ts: `evaluate`, check by check. The order's limit,
-- `authorized * (1 + pct / 100)`, is computed with doubles.
pub mod Defs
pub mod Checks
pub mod Justified
