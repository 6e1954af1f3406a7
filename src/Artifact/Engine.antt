-- ===== src/Artifact/Engine.antt =====
-- crates/knok/src/runtime.rs: engines, and the loading of a graph's module.
use knok.Base.{
  ℕ, ◌&&◌, ◌==◌, if◌then◌else◌, String, List, [], ◌∷◌, length, Option, some, none, Result, ok, err,
  panic, about, ok_or, expect, ◌>>=◌,
}
use knok.Artifact.Backends.{Backend, Driver, driver_name, default_driver, driver_from_name}
use knok.Artifact.Metadata.{
  StaticBytes, GraphArtifactVariant, GraphArtifact, variant_for_driver, first_variant,
}

pub record RuntimeConfig (DeviceSpec : Type 0) : Type 0 where
  pub driver : Driver
  pub device : DeviceSpec

-- `modules` is a map from addresses and lengths.
pub record Engine (Runtime Program : Type 0) : Type 0 where
  pub driver : Driver
  pub runtime : Runtime
  pub modules : List ((ℕ × ℕ) × Program)

unfoldable pub find_module : {Program : Type 0} → ℕ × ℕ → List ((ℕ × ℕ) × Program) → Option Program
find_module key [] = none
find_module key ((other, program) ∷ modules) =
    if other.0 == key.0 && other.1 == key.1 then some program else find_module key modules

unfoldable pub module_key : StaticBytes → ℕ × ℕ
module_key vmfb = (vmfb.address, length vmfb.bytes)

-- The runtime library: `DeviceSpec::custom` and `Runtime::new`.
module _ {DeviceSpec : Type 0} (custom : String → DeviceSpec) where
  unfoldable pub driver_config : Driver → RuntimeConfig DeviceSpec
  driver_config driver = record { driver = driver; device = custom (driver_name driver) }

  unfoldable pub backend_config : Backend → Result (RuntimeConfig DeviceSpec)
  unfolding driver_config
  backend_config backend = do
    driver ← expect (driver_from_name (default_driver backend))
    ok (driver_config driver)

module _ {DeviceSpec Runtime Program : Type 0} (custom : String → DeviceSpec)
    (new_runtime : DeviceSpec → Result Runtime) where
  unfoldable pub new_engine : RuntimeConfig DeviceSpec → Result (Engine Runtime Program)
  new_engine config = do
    runtime ← new_runtime config.device
    ok (record { driver = config.driver; runtime = runtime; modules = [] })

  unfoldable pub for_backend : Backend → Result (Engine Runtime Program)
  unfolding backend_config new_engine
  for_backend backend = do config ← backend_config custom backend; new_engine config

  unfoldable pub for_artifact : GraphArtifact → Result (Engine Runtime Program)
  unfolding for_backend
  for_artifact artifact = do
    variant ←
        ok_or (about artifact.function_name "no default artifact variant") (first_variant artifact)
    for_backend variant.backend

-- The runtime library: `Runtime::load_vmfb`, which changes the library's state, a `Session`, and
-- `Program::function`.
module _ {Session Runtime Program Function : Type 0}
    (load_vmfb : Runtime → StaticBytes → Session → Result Program × Session)
    (function : Program → String → Result Function) where
  -- What an attempt to load gives, with the engine and the session after it.
  abbrev pub Loaded : Type 0
  Loaded = Result Function × Engine Runtime Program × Session

  -- The end of the arm of a vacant entry: a program is inserted, and an error or a panic leaves the
  -- engine as it is.
  unfoldable pub insert_program :
      Engine Runtime Program → String → StaticBytes → Result Program × Session → Loaded
  insert_program engine name vmfb (ok program, session) = (
    function program name,
    record engine { modules = (module_key vmfb, program) ∷ engine.modules },
    session,
  )
  insert_program engine name vmfb (err e, session) = (err e, engine, session)
  insert_program engine name vmfb (panic, session) = (panic, engine, session)

  -- The `match` on the map's entry: only a vacant one loads the module.
  unfoldable pub load_into :
      Engine Runtime Program → String → StaticBytes → Option Program → Session → Loaded
  unfolding insert_program
  load_into engine name vmfb (some program) session = (function program name, engine, session)
  load_into engine name vmfb none session =
      insert_program engine name vmfb (load_vmfb engine.runtime vmfb session)

  unfoldable pub load_variant :
      Engine Runtime Program → GraphArtifact → Option GraphArtifactVariant → Session → Loaded
  unfolding load_into find_module
  load_variant engine artifact none session =
      (err (about artifact.function_name "no artifact variant for the driver"), engine, session)
  load_variant engine artifact (some variant) session =
      load_into engine artifact.function_name variant.vmfb
        (find_module (module_key variant.vmfb) engine.modules) session

  unfoldable pub load : Engine Runtime Program → GraphArtifact → Session → Loaded
  unfolding load_variant
  load engine artifact session =
      load_variant engine artifact (variant_for_driver artifact engine.driver) session
