-- ===== src/Asset.antt =====
-- web/lib/payment-asset.ts
pub mod Defs
mod Decimal
mod Trim
pub mod RoundTrip
pub mod Scale
mod Tests
