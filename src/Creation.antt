-- ===== src/Creation.antt =====
-- Static tensor creation: crates/knok-core/src/ops/static_creation.rs.
pub mod Target
pub mod Int
pub mod Overflow
pub mod Numbers
pub mod Scalar
pub mod Params
pub mod Literals
pub mod Arange
pub mod Linspace
pub mod Eye
pub mod SplitMix
pub mod Random
pub mod Call
mod Steps
mod Masks
mod UniformValues
pub mod Bounded
mod Fitting
mod Shapes
mod Progression
mod ArangeValues
mod LinspaceValues
mod EyeValues
mod RandomValues
mod Fine
mod Safe
pub mod CallSafe
pub mod Examples
mod FloatExamples
