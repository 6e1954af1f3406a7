-- ===== src/Artifact/Signatures.antt =====
-- crates/knok/src/graph.rs: the check of a typed handle against an artifact's signature.
use knok.Base.{
  ℕ, zero, suc, Bool, true, false, not, ◌||◌, ◌==◌, if◌then◌else◌, List, length, Result, ok,
  message, ◌>>=◌, ◌>>◌, reject_if,
}
use knok.Base.Vec.{index}
use knok.Artifact.Metadata.{DType, TensorDesc, GraphArtifact}

-- `elem as u8`.
unfoldable pub dtype_code : DType → ℕ
dtype_code DType.bool = 0
dtype_code DType.f32 = 1
dtype_code DType.f64 = 2
dtype_code DType.f16 = 3
dtype_code DType.bf16 = 4
dtype_code DType.i32 = 5
dtype_code DType.i64 = 6

-- `while i < expected.len() { if ... { return false; } i += 1; } true`, where `rounds` are left.
unfoldable pub compare_from :
    {A : Type 0} → (A → A → Result Bool) → ℕ → ℕ → List A → List A → Result Bool
compare_from test zero i expected actual = ok true
compare_from test (suc rounds) i expected actual = do
  x ← index expected i
  y ← index actual i
  same ← test x y
  if same then compare_from test rounds (suc i) expected actual else ok false

-- The body of the outer loop.
unfoldable pub desc_matches : TensorDesc → TensorDesc → Result Bool
unfolding compare_from dtype_code
desc_matches expected actual =
    if not (dtype_code expected.elem == dtype_code actual.elem)
      || not (length expected.shape == length actual.shape)
    then ok false
    else compare_from (λ x y. ok (x == y)) (length expected.shape) 0 expected.shape actual.shape

unfoldable pub signatures_match : List TensorDesc → List TensorDesc → Result Bool
unfolding desc_matches compare_from
signatures_match expected actual =
    if not (length expected == length actual)
    then ok false
    else compare_from desc_matches (length expected) 0 expected actual

-- `Graph::new`, for the descriptors of the handle's input and output types.
unfoldable pub new_graph : List TensorDesc → List TensorDesc → GraphArtifact → Result GraphArtifact
unfolding signatures_match
new_graph input_types output_types artifact = do
  inputs_match ← signatures_match input_types artifact.input_descs
  reject_if (not inputs_match) (message "graph input signature does not match the typed handle")
  outputs_match ← signatures_match output_types artifact.output_descs
  reject_if (not outputs_match) (message "graph output signature does not match the typed handle")
  ok artifact
