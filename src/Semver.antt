-- ===== src/Semver.antt =====
-- crates/wyrd-semver: version triples and bounds, range expressions, version blocks and bumps.
pub mod Triple
pub mod Error
pub mod Range
pub mod Loose
pub mod Crate
pub mod Block
mod Tests
