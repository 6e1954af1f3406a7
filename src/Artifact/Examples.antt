-- ===== src/Artifact/Examples.antt =====
-- Handles and artifacts at concrete values.
use knok.Base.{
  ℕ, suc, ap, ◌≡◌, ◌≢◌, ◌⊎◌, refl, true, String, List, [], ◌∷◌, some, none, Result, ok, err,
  message,
}
use knok.Base.Vec.{index}
use knok.Artifact.Backends.{
  Backend, Driver, backend_name, driver_name, default_driver, backend_from_name, driver_from_name,
  supports_driver, from_name-name,
}
use knok.Artifact.Metadata.{
  DType, TensorDesc, StaticBytes, GraphArtifactVariant, GraphArtifact, first_supporting,
  variant_for_driver, first_of, first_variant,
}
use knok.Artifact.Signatures.{dtype_code, compare_from, desc_matches, signatures_match, new_graph}
use knok.Artifact.Engine.{
  Engine, find_module, module_key, driver_config, backend_config, new_engine, for_backend,
  for_artifact, insert_program, load_into, load_variant, load,
}
use knok.Artifact.Loading.{for_artifact_lem, load_again}
use knok.Artifact.Agreement.{Decides, signatures_match-Decides, new_graph_lem}

abbrev vector : TensorDesc
vector = record { elem = DType.f32; shape = 3 ∷ [] }

abbrev longer : TensorDesc
longer = record { elem = DType.f32; shape = 4 ∷ [] }

abbrev on_cpu : GraphArtifactVariant
on_cpu = record {
  vmfb = record { address = 4096; bytes = 1 ∷ 2 ∷ [] };
  backend = Backend.llvm_cpu;
  compile_flags = [];
}

abbrev on_cuda : GraphArtifactVariant
on_cuda = record {
  vmfb = record { address = 8192; bytes = 3 ∷ [] };
  backend = Backend.cuda;
  compile_flags = [];
}

abbrev artifact : GraphArtifact
artifact = record {
  function_name = "main";
  input_descs = vector ∷ [];
  output_descs = vector ∷ [];
  variants = on_cuda ∷ on_cpu ∷ [];
}

-- The first variant is not the one for the CPU's synchronous driver.
chosen : variant_for_driver artifact Driver.local_sync ≡ some on_cpu
unfolding variant_for_driver first_supporting supports_driver default_driver driver_name
chosen = refl

default_variant : first_variant artifact ≡ some on_cuda
unfolding first_variant first_of
default_variant = refl

unknown : backend_from_name "rocm" ≡ none
unfolding backend_from_name
unknown = refl

other_shape :
    new_graph (vector ∷ []) (longer ∷ []) artifact
    ≡ err (message "graph output signature does not match the typed handle")
unfolding new_graph signatures_match desc_matches compare_from dtype_code index
other_shape = refl

from_name-name_example :
    (backend_from_name (backend_name Backend.cuda) ≡ some Backend.cuda)
    × (driver_from_name (driver_name Driver.metal) ≡ some Driver.metal)
    × ((d : Driver) × (driver_from_name (default_driver Backend.cuda) ≡ some d)
        × (supports_driver Backend.cuda d ≡ true))
from_name-name_example = from_name-name Backend.cuda Driver.metal

signatures_match-Decides_example :
    Decides (signatures_match (vector ∷ []) (longer ∷ [])) (vector ∷ []) (longer ∷ [])
signatures_match-Decides_example = signatures_match-Decides (vector ∷ []) (longer ∷ [])

new_graph_lem_example :
    ((new_graph (vector ∷ []) (longer ∷ []) artifact ≡ ok artifact)
      × ((vector ∷ []) ≡ artifact.input_descs)
      × ((longer ∷ []) ≡ artifact.output_descs))
    ⊎ (((new_graph (vector ∷ []) (longer ∷ []) artifact
            ≡ err (message "graph input signature does not match the typed handle"))
          × ((vector ∷ []) ≢ artifact.input_descs))
        ⊎ ((new_graph (vector ∷ []) (longer ∷ []) artifact
              ≡ err (message "graph output signature does not match the typed handle"))
            × ((vector ∷ []) ≡ artifact.input_descs)
            × ((longer ∷ []) ≢ artifact.output_descs)))
new_graph_lem_example = new_graph_lem (vector ∷ []) (longer ∷ []) artifact

-- A runtime library whose devices and runtimes are names, and whose programs are the loaded bytes.
abbrev device : String → String
device name = name

abbrev start : String → Result String
start device = ok device

-- The state of the library counts the modules that were loaded.
abbrev program_of : String → StaticBytes → ℕ → Result (List ℕ) × ℕ
program_of runtime vmfb count = (ok vmfb.bytes, suc count)

abbrev function_of : List ℕ → String → Result String
function_of program name = ok name

abbrev engine : Engine String (List ℕ)
engine = record { driver = Driver.cuda_driver; runtime = "cuda"; modules = [] }

abbrev loaded : Engine String (List ℕ)
loaded = record engine { modules = ((8192, 1), 3 ∷ []) ∷ [] }

started : for_artifact device start artifact ≡ ok engine
unfolding for_artifact for_backend backend_config new_engine driver_config first_variant first_of
    default_driver driver_name driver_from_name
started = refl

for_artifact_lem_example :
    (variant : GraphArtifactVariant) × (first_variant artifact ≡ some variant)
    × (variant_for_driver artifact Driver.cuda_driver ≡ some variant)
for_artifact_lem_example = for_artifact_lem device start artifact engine started

loads : load program_of function_of engine artifact 0 ≡ (ok "main", loaded, 1)
unfolding load load_variant load_into insert_program find_module module_key variant_for_driver
    first_supporting supports_driver default_driver driver_name
loads = refl

load_again_example :
    load program_of function_of (load program_of function_of engine artifact 0).1 artifact 1
    ≡ (ok "main", (load program_of function_of engine artifact 0).1, 1)
load_again_example =
    load_again program_of function_of engine artifact 0 1 "main" (ap (λ r. r.0) loads)
