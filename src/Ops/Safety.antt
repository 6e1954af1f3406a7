-- ===== src/Ops/Safety.antt =====
-- What each rule of crates/knok-core/src/ops promises of its result, and that it does not panic.
pub mod Common
pub mod Windows
pub mod Products
pub mod Inner
pub mod Reorder
pub mod MoveAxis
pub mod Layouts
pub mod Joins
pub mod Elements
pub mod Convolution
pub mod Arity
pub mod Creations
pub mod Infer
