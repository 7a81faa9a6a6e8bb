-- ===== src/Tests.antt =====
-- Concrete inputs: evaluations of the model, and the theorems at inputs that meet their conditions.
mod Core
mod Events
mod Kernel
mod Governance
mod Incremental
mod Physical
mod Store
