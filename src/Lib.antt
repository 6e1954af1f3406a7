-- ===== src/Lib.antt =====
-- Verification of knok, a Rust library that compiles tensor graphs: a graph is written in Rust, traced
-- or parsed into the graph language, type checked, lowered to MLIR and run. The program's crates are
-- crates/knok-core (the graph language, shape inference, the type checker and differentiation),
-- crates/knok-build and crates/knok-build-macros (tracing and code generation), crates/knok-compile
-- (lowering) and crates/knok (host tensors and the run time). This library is about the way of a graph
-- up to the lowering, and about the host's side of running it: tracing turns shared nodes into bindings
-- and calls the type checker; the type checker calls the shape inference for every operation, and the
-- lowering trusts what it accepts; an engine picks and loads the compiled module of an artifact, after
-- the typed handle was checked against it, and the host's tensors hold what goes in and out.
--
-- The files and the code they model:
-- Base: Rust's Option, Result and panics as one result type with `ok`, `err` and `panic`; the
--   accesses of Vec that panic out of range (Base/Vec); 64-bit usize arithmetic (Base/Usize), with a
--   switch `checks` as in the compiler: `true` is overflow-checks = true, where an overflow panics,
--   and `false` wraps around modulo 2 ^ 64; a division by zero panics under either.
--   Base/Ensures is the notion of a postcondition.
-- Ast: crates/knok-core/src/ast.rs. Element types and tensor types (Ast/Types), the 93 operations and
--   their names (Ast/Op), expressions and graphs (Ast/Graph), derived equality (Ast/Equality). Box and
--   Arc are transparent.
-- Creation: crates/knok-core/src/ops/static_creation.rs. Creation/Target holds the target checks,
--   Creation/Scalar is Expr::static_scalar of ast.rs, Creation/Params the parameters, Creation/Arange,
--   Creation/Linspace, Creation/Eye and Creation/Random (with its hash in Creation/SplitMix) the four kinds
--   of literals, Creation/Call the check that the type checker runs. Creation/Int is i128, which panics or
--   wraps as usize does. Creation/Numbers is what the code takes from Rust's core library: the operations of
--   f32 and f64, and the parsing and printing of numbers; it is a parameter. A vector of more than
--   isize::MAX bytes panics, as Vec documents; elsewhere memory is unbounded. The proofs: Creation/Overflow and
--   Creation/Bounded for the width, Creation/Steps, Creation/Progression, Creation/Fitting and
--   Creation/Shapes for the loops, Creation/Masks for the bits of a draw, Creation/ArangeValues,
--   Creation/LinspaceValues, Creation/EyeValues, Creation/RandomValues and Creation/UniformValues for the
--   values, Creation/Fine, Creation/Safe and Creation/CallSafe for panics.
-- Ops/Common, Ops/Matmul, Ops/Linalg, Ops/Pool, Ops/Conv, Ops/Permute: the files of the same names in
--   crates/knok-core/src/ops (common.rs and so on). Ops/Layout, Ops/Elementwise and Ops/Permute hold the
--   rules of rules.rs, and Ops/Infer its two entry points infer_call_results and infer_call_result.
-- Ops/Broadcast and Ops/Safety: proofs about these rules, by component. Contracts: what an accepted
--   operation means, one module per group of rules, with examples in Contracts/Examples.
-- Typecheck: crates/knok-core/src/typecheck.rs. TypeEnv and NodeTypeCache (Typecheck/Env,
--   Typecheck/Cache, a BTreeMap as an association list); the methods that take `&mut self` as actions
--   on the cache (Typecheck/Checker); the checks at one node (Typecheck/Results, Typecheck/Rules), the
--   recursion over expressions (Typecheck/Walk; its tensor_ty is the type in type_tensor_expr's result)
--   and type_check (Typecheck/Graphs). Typecheck/Typing holds typing rules without a cache, against
--   which the checker is proved (Typecheck/Sound, Typecheck/WellTyped with the well-typed graphs of
--   Typecheck/Typed; Typecheck/Complete, with the successful actions in Typecheck/Accepted;
--   Typecheck/Exact); Typecheck/Scope and Typecheck/Weaken are about names, Typecheck/NodeFree says which
--   expressions have no nodes, and Typecheck/Calls what holds of every call.
-- Trace/Normalize: let_bind_nodes of crates/knok-build/src/trace/normalize.rs, which turns the shared
--   nodes of a traced graph into bindings. Trace/Meaning says what expressions and bindings mean, for
--   any meaning of the operations; the other files prove what normalisation keeps (Trace/Names and
--   Trace/Assign for the names, Trace/Collect for the order, Trace/Bindings, Trace/Snoc and Trace/Lets
--   for the bindings, Trace/Accept for the errors, Trace/NoNodes and Trace/Correct for the whole).
-- Trace/Finish: TraceContext of crates/knok-build/src/trace/context.rs: normalisation, then type_check.
-- Host: crates/knok/src/tensor.rs. Host/Data is TensorData and the access by indices, Host/Tensors the
--   tensors of rank 0 to 6 as one record over their dimensions, Host/Arrays nested arrays as lists;
--   Host/Offset, Host/RowMajor and Host/Writes are proofs about the access. Host/Serde is the feature serde:
--   what is written, and the visitor of maps and sequences; Host/Entries and Host/Decoding are its proofs.
-- Artifact/Backends, Artifact/Metadata, Artifact/Signatures, Artifact/Engine: backend.rs, artifact.rs,
--   graph.rs and runtime.rs of crates/knok/src. The optional backends and drivers are all there. A slice
--   with a static address is its address with its bytes. The IREE run time is four parameters, of
--   which load_vmfb may change the state of that library. A load returns the engine with its cache of
--   modules and that state, after a failure too. Artifact/Agreement and
--   Artifact/Loading are the proofs.
--
-- Loops are structural recursion on the list or on the count of the rounds that are left, but for the
-- search of unique_node_name, which has fuel for two names more than are reserved: the names that it
-- tries differ, so one of them is free. Its suffix is an i32 in the code and a number without a width
-- here; it stays below the number of reserved names plus two. How `format!` prints a number is a
-- parameter, with the hypothesis that different numbers print differently. An error keeps what kind it
-- is and the names in it, not the text of its message.
--
-- The type checker and the tracing take the check of static creations as the argument `static_call`;
-- Creation/Call is the one of the code, with which type_check_total is stated.
--
-- Not modelled: type parsing, differentiation, the handles of tracing and code generation; lowering,
-- which is text for another compiler; the transfer of buffers and the invocation of functions,
-- which are calls of the IREE run time.
pub mod Base
pub mod Ast
pub mod Creation
pub mod Ops
pub mod Contracts
pub mod Typecheck
pub mod Trace
pub mod Host
pub mod Artifact
