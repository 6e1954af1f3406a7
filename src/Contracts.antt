-- ===== src/Contracts.antt =====
-- The contracts of the shape rules of crates/knok-core/src/ops.
pub mod Windows
pub mod Products
pub mod Layouts
pub mod Accepts
pub mod Orders
pub mod Joins
pub mod Elements
mod Examples
