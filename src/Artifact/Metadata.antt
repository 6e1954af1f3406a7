-- ===== src/Artifact/Metadata.antt =====
-- crates/knok/src/artifact.rs: what a compiled graph says of itself.
use knok.Base.{ℕ, if◌then◌else◌, String, List, [], ◌∷◌, Option, some, none}
use knok.Artifact.Backends.{Backend, Driver, supports_driver}

pub data DType : Type 0 where
  bool f32 f64 f16 bf16 i32 i64 : DType

pub record TensorDesc : Type 0 where
  pub elem : DType
  pub shape : List ℕ

-- `&'static [u8]`: the address counts, since loaded modules are found by it.
pub record StaticBytes : Type 0 where
  pub address : ℕ
  pub bytes : List ℕ

pub record GraphArtifactVariant : Type 0 where
  pub vmfb : StaticBytes
  pub backend : Backend
  pub compile_flags : List String

pub record GraphArtifact : Type 0 where
  pub function_name : String
  pub input_descs : List TensorDesc
  pub output_descs : List TensorDesc
  pub variants : List GraphArtifactVariant

-- `iter().copied().find(...)`.
unfoldable pub first_supporting : Driver → List GraphArtifactVariant → Option GraphArtifactVariant
unfolding supports_driver
first_supporting driver [] = none
first_supporting driver (variant ∷ variants) =
    if supports_driver variant.backend driver
    then some variant
    else first_supporting driver variants

unfoldable pub variant_for_driver : GraphArtifact → Driver → Option GraphArtifactVariant
unfolding first_supporting
variant_for_driver artifact driver = first_supporting driver artifact.variants

unfoldable pub first_of : List GraphArtifactVariant → Option GraphArtifactVariant
first_of [] = none
first_of (variant ∷ variants) = some variant

unfoldable pub first_variant : GraphArtifact → Option GraphArtifactVariant
unfolding first_of
first_variant artifact = first_of artifact.variants
