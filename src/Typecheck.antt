-- ===== src/Typecheck.antt =====
-- crates/knok-core/src/typecheck.rs: the names in scope and the cache of node types.
pub mod Env
pub mod Cache
pub mod Checker
pub mod Results
pub mod Rules
pub mod Scope
pub mod Walk
pub mod Calls
pub mod Typing
pub mod Graphs
pub mod Sound
pub mod Weaken
pub mod Typed
pub mod WellTyped
pub mod NodeFree
pub mod Accepted
pub mod Complete
pub mod Exact
mod Examples
mod GraphExamples
