-- ===== src/Host.antt =====
-- crates/knok/src/tensor.rs: the tensors of the host.
pub mod Data
pub mod Tensors
pub mod Serde
mod Entries
pub mod Decoding
pub mod Arrays
pub mod Offset
pub mod RowMajor
pub mod Writes
mod Examples
mod SerdeExamples
