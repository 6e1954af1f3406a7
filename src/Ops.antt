-- ===== src/Ops.antt =====
-- Shape inference: crates/knok-core/src/ops.
pub mod Common
pub mod Broadcast
pub mod Matmul
pub mod Linalg
pub mod Pool
pub mod Conv
pub mod Permute
pub mod Layout
pub mod Elementwise
pub mod Infer
pub mod Safety
