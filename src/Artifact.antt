-- ===== src/Artifact.antt =====
-- crates/knok/src: the metadata of compiled graphs, and the handles that are checked against it.
pub mod Backends
pub mod Metadata
pub mod Signatures
pub mod Agreement
pub mod Engine
pub mod Loading
mod Examples
