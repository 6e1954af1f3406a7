-- ===== src/Artifact/Loading.antt =====
-- An engine made for an artifact has a variant to load, and loads it once.
use knok.Base.{
  ℕ, ◌≡◌, refl, sym, ap, ◌∙◌, true, ==_refl, String, List, [], ◌∷◌, Option, some, none, Result, ok,
  err, panic, about, Error, some_injective, ok_or, expect, >>=-eq-ok, ok_injective,
}
use knok.Artifact.Backends.{
  Backend, Driver, default_driver, driver_from_name, supports_driver, from_name-name,
}
use knok.Artifact.Metadata.{
  StaticBytes, GraphArtifactVariant, GraphArtifact, first_supporting, variant_for_driver, first_of,
  first_variant,
}
use knok.Artifact.Engine.{
  Engine, RuntimeConfig, find_module, module_key, driver_config, backend_config, new_engine,
  for_backend, for_artifact, insert_program, load_into, load_variant, load,
}

ok_or-eq-ok : {A : Type 0} (e : Error) (o : Option A) {a : A} → ok_or e o ≡ ok a → o ≡ some a
ok_or-eq-ok e none h = cc
ok_or-eq-ok e (some b) h = ap some (ok_injective h)

-- A first variant that supports the driver is the one that is found.
first_supporting-first :
    (driver : Driver) (variants : List GraphArtifactVariant) (variant : GraphArtifactVariant)
    → first_of variants ≡ some variant
    → supports_driver variant.backend driver ≡ true
    → first_supporting driver variants ≡ some variant
unfolding first_of first_supporting
first_supporting-first driver [] variant h s = cc
first_supporting-first driver (first ∷ variants) variant h s =
    rw (ap (λ (v : GraphArtifactVariant). supports_driver v.backend driver) (some_injective h) ∙ s)
      h

find_module-head :
    {Program : Type 0} (key : ℕ × ℕ) (program : Program) (modules : List ((ℕ × ℕ) × Program))
    → find_module key ((key, program) ∷ modules) ≡ some program
unfolding find_module
find_module-head key program modules = rw (==_refl key.0) (rw (==_refl key.1) refl)

module _ {DeviceSpec Runtime Program : Type 0} (custom : String → DeviceSpec)
    (new_runtime : DeviceSpec → Result Runtime) where
  -- The engine's driver is one that the backend supports.
  for_backend_lem :
      (backend : Backend) (engine : Engine Runtime Program)
      → for_backend custom new_runtime backend ≡ ok engine
      → supports_driver backend engine.driver ≡ true
  unfolding for_backend backend_config new_engine driver_config
  for_backend_lem backend engine h =
      let (d, e, s) = (from_name-name backend Driver.metal).2 in
      let (config, c, h1) = >>=-eq-ok (backend_config custom backend) _ h in
      let (driver, f, g) = >>=-eq-ok (expect (driver_from_name (default_driver backend))) _ c in
      let (runtime, r, q) = >>=-eq-ok (new_runtime config.device) _ h1 in
      let same : driver ≡ d = ok_injective (sym f ∙ ap expect e) in
      ap (supports_driver backend) (
        sym (ap (λ (n : Engine Runtime Program). n.driver) (ok_injective q))
        ∙ (sym (ap (λ (n : RuntimeConfig DeviceSpec). n.driver) (ok_injective g)) ∙ same))
      ∙ s

  -- An engine that is made for an artifact selects the artifact's first variant when it loads it.
  pub for_artifact_lem :
      (artifact : GraphArtifact) (engine : Engine Runtime Program)
      → for_artifact custom new_runtime artifact ≡ ok engine
      → (variant : GraphArtifactVariant) × (first_variant artifact ≡ some variant)
        × (variant_for_driver artifact engine.driver ≡ some variant)
  unfolding for_artifact first_variant first_of variant_for_driver first_supporting
  for_artifact_lem artifact engine h =
      let (variant, p, q) =
        >>=-eq-ok
          (ok_or (about artifact.function_name "no default artifact variant")
            (first_variant artifact))
          _ h in
      let found = ok_or-eq-ok _ (first_variant artifact) p in
      (
        variant,
        found,
        first_supporting-first engine.driver artifact.variants variant found
            (for_backend_lem variant.backend engine q),
      )

module _ {Session Runtime Program Function : Type 0}
    (load_vmfb : Runtime → StaticBytes → Session → Result Program × Session)
    (function : Program → String → Result Function) where
  -- After a load that gave a function the entry of the module is occupied, and gives that function.
  abbrev Kept : String → StaticBytes → Function → Engine Runtime Program → Type 0
  Kept name vmfb f engine =
      (program : Program) × (find_module (module_key vmfb) engine.modules ≡ some program)
      × (function program name ≡ ok f)

  insert_program-Kept :
      (engine : Engine Runtime Program) (name : String) (vmfb : StaticBytes)
      (loaded : Result Program × Session) (f : Function)
      → (insert_program load_vmfb function engine name vmfb loaded).0 ≡ ok f
      → Kept name vmfb f (insert_program load_vmfb function engine name vmfb loaded).1
  unfolding insert_program
  insert_program-Kept engine name vmfb (ok program, session) f h =
      (program, find_module-head (module_key vmfb) program engine.modules, h)
  insert_program-Kept engine name vmfb (err e, session) f h = cc
  insert_program-Kept engine name vmfb (panic, session) f h = cc

  load_into-Kept :
      (engine : Engine Runtime Program) (name : String) (vmfb : StaticBytes)
      (entry : Option Program) (session : Session) (f : Function)
      → find_module (module_key vmfb) engine.modules ≡ entry
      → (load_into load_vmfb function engine name vmfb entry session).0 ≡ ok f
      → Kept name vmfb f (load_into load_vmfb function engine name vmfb entry session).1
  unfolding load_into
  load_into-Kept engine name vmfb (some program) session f e h = (program, e, h)
  load_into-Kept engine name vmfb none session f e h =
      insert_program-Kept engine name vmfb (load_vmfb engine.runtime vmfb session) f h

  -- A module that is kept is found, whatever state the runtime library is in.
  load_variant_cached :
      (engine : Engine Runtime Program) (artifact : GraphArtifact) (variant : GraphArtifactVariant)
      (session : Session) (f : Function)
      → Kept artifact.function_name variant.vmfb f engine
      → load_variant load_vmfb function engine artifact (some variant) session
        ≡ (ok f, engine, session)
  unfolding load_variant load_into
  load_variant_cached engine artifact variant session f (program, e, h) =
      rw e (ap (λ r. (r, engine, session)) h)

  insert_program_driver :
      (engine : Engine Runtime Program) (name : String) (vmfb : StaticBytes)
      (loaded : Result Program × Session)
      → (insert_program load_vmfb function engine name vmfb loaded).1.driver ≡ engine.driver
  unfolding insert_program
  insert_program_driver engine name vmfb (ok program, session) = refl
  insert_program_driver engine name vmfb (err e, session) = refl
  insert_program_driver engine name vmfb (panic, session) = refl

  load_into_driver :
      (engine : Engine Runtime Program) (name : String) (vmfb : StaticBytes)
      (entry : Option Program) (session : Session)
      → (load_into load_vmfb function engine name vmfb entry session).1.driver ≡ engine.driver
  unfolding load_into
  load_into_driver engine name vmfb (some program) session = refl
  load_into_driver engine name vmfb none session =
      insert_program_driver engine name vmfb (load_vmfb engine.runtime vmfb session)

  abbrev after :
      Engine Runtime Program
      → GraphArtifact
      → Option GraphArtifactVariant
      → Session
      → Engine Runtime Program
  after engine artifact chosen session =
      (load_variant load_vmfb function engine artifact chosen session).1

  same_driver :
      (engine : Engine Runtime Program) (artifact : GraphArtifact)
      (chosen : Option GraphArtifactVariant) (session : Session)
      → (after engine artifact chosen session).driver ≡ engine.driver
  unfolding load_variant
  same_driver engine artifact none session = refl
  same_driver engine artifact (some variant) session =
      load_into_driver engine artifact.function_name variant.vmfb
        (find_module (module_key variant.vmfb) engine.modules) session

  load_variant_again :
      (engine : Engine Runtime Program) (artifact : GraphArtifact)
      (chosen : Option GraphArtifactVariant) (session later : Session) (f : Function)
      → (load_variant load_vmfb function engine artifact chosen session).0 ≡ ok f
      → load_variant load_vmfb function (after engine artifact chosen session) artifact chosen later
        ≡ (ok f, after engine artifact chosen session, later)
  unfolding load_variant
  load_variant_again engine artifact none session later f h = cc
  load_variant_again engine artifact (some variant) session later f h =
      load_variant_cached (after engine artifact (some variant) session) artifact variant later f (
        load_into-Kept engine artifact.function_name variant.vmfb
          (find_module (module_key variant.vmfb) engine.modules) session f refl h)

  -- If loading a graph gives a function, then loading it again later, in the engine that the first load
  -- left and with the runtime library in any state, gives the same function and changes neither the
  -- engine nor the state of the library: it does not call `load_vmfb`, which may change that state.
  pub load_again :
      (engine : Engine Runtime Program) (artifact : GraphArtifact) (session later : Session)
      (f : Function)
      → (load load_vmfb function engine artifact session).0 ≡ ok f
      → load load_vmfb function (load load_vmfb function engine artifact session).1 artifact later
        ≡ (ok f, (load load_vmfb function engine artifact session).1, later)
  unfolding load
  load_again engine artifact session later f h =
      let chosen = variant_for_driver artifact engine.driver in
      ap
        (λ driver.
          load_variant load_vmfb function (after engine artifact chosen session) artifact
            (variant_for_driver artifact driver) later)
        (same_driver engine artifact chosen session)
      ∙ load_variant_again engine artifact chosen session later f h
