-- ===== src/Trace.antt =====
-- crates/knok-build/src/trace: what tracing does with the nodes of the expressions that it recorded.
pub mod Normalize
pub mod Shared
pub mod Names
pub mod Assign
pub mod Nodes
pub mod Collect
pub mod Meaning
pub mod Bindings
pub mod Snoc
pub mod Lets
pub mod Accept
pub mod Correct
pub mod NoNodes
pub mod Finish
mod Examples
mod FinishExample
