-- ===== src/Kernel.antt =====
-- crates/rg-kernel/src/lib.rs: the Reality Kernel.
pub mod Bitmap
pub mod Atom
pub mod Node
pub mod Dependencies
pub mod Belief
pub mod Query
pub mod Store
pub mod Physical
pub mod Views
pub mod Incremental
