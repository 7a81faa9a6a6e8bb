-- ===== src/Core.antt =====
-- crates/rg-core/src/lib.rs: the assertion-first domain types.
pub mod Interval
pub mod Confidence
pub mod Types
pub mod Ontology
