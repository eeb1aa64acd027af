-- ===== src/Layers/Answers.antt =====
-- When `LayerRegistry::resolve`, in tinymachine-fork/src/layer_registry.rs, returns a plan, and which.
use tinymachine.Common.{
  ◌≤◌, ◌≡◌, ◌↔◌, refl, ap, sym, ◌∙◌, subst, Bool, false, Option, none, some, List, [], ◌∷◌, ◌++◌,
  All, Text, codes, text_eq, ok, ok_err, bind_ok, arith,
}
use tinymachine.Common.Maps.{lookup}
use tinymachine.Composer.{base, runtime, dirname, LayerRef, display}
use tinymachine.Layers.{
  LayerRegistry, LayerMetadata, RegistryError, layer_not_found, composition, exact, latest, key,
  find, or_else, or_error, get_layer, resolve_version, resolve_import, metadata_for_layer,
}
use tinymachine.Layers.Parsing.{parse_pragmas, extract_imports}
use tinymachine.Layers.Resolve.{
  CmdConfig, CompositionPlan, runtime_name, add_pragmas, add_ref, add_imports, add_deps, memory_of,
  config_of, command_of, cmd_config_from_runtime, resolve_layers, plan_of, resolve,
}
use tinymachine.Layers.Plan.{
  IsRegistered, IsLaid, IsMet, same_value, get_layer_lem, get_layer-IsRegistered,
  add_imports-IsLaid, add_deps_lem, memory_from-le,
}

different_types :
    (u b : LayerRef)
    → u.layer_type ≡ runtime
    → b.layer_type ≡ base
    → text_eq (display u) (display b) ≡ false
unfolding display dirname text_eq
different_types u b h h' =
    ap (λ t. text_eq (dirname t ++ (codes "/" ++ (u.name ++ (codes "@" ++ u.version)))) (display b))
      h
    ∙ ap
        (λ t.
          text_eq (codes "runtime" ++ (codes "/" ++ (u.name ++ (codes "@" ++ u.version))))
            (dirname t ++ (codes "/" ++ (b.name ++ (codes "@" ++ b.version)))))
        h'

-- the two layers that every plan begins with
abbrev pub IsFirst : LayerRegistry → Text → LayerRef → LayerRef → Type 0
IsFirst reg lang b u =
    (get_layer reg base (codes "base") (codes "v1") ≡ ok b)
    × (u.layer_type ≡ runtime)
    × (u.name ≡ runtime_name lang)
    × (resolve_version reg (runtime_name lang) latest ≡ ok u.version)
    × IsRegistered reg u

first-IsLaid :
    (reg : LayerRegistry) (lang : Text) (b u : LayerRef)
    → IsFirst reg lang b u
    → IsLaid reg b u (b ∷ u ∷ [])
first-IsLaid reg lang b u h =
    let kind = (get_layer_lem reg base (codes "base") (codes "v1") b h.0).0 in
    (
      ([], refl),
      (get_layer-IsRegistered reg base (codes "base") (codes "v1") b h.0, (h.4, tt)),
      (ground (arith, different_types u b h.1 kind), (refl, tt)),
    )

abbrev pub wanted : Text → List (Text × Text) → List (Text × Text)
wanted code explicit_deps = add_pragmas explicit_deps (parse_pragmas code)

resolve_layers_lem :
    (reg : LayerRegistry) (lang code : Text) (explicit_deps : List (Text × Text))
    (refs : List LayerRef)
    → resolve_layers reg lang code explicit_deps ≡ ok refs
    → (b u : LayerRef) × IsFirst reg lang b u
      × IsLaid reg b u refs
      × All (IsMet reg lang refs) (wanted code explicit_deps)
unfolding resolve_layers
resolve_layers_lem reg lang code explicit_deps refs h =
    let (b, found, h') = bind_ok (get_layer reg base (codes "base") (codes "v1")) _ refs h in
    let (version, found', h'') =
      bind_ok (resolve_version reg (runtime_name lang) latest) _ refs h' in
    let (u, found'', h''') =
      bind_ok (get_layer reg runtime (runtime_name lang) version) _ refs h'' in
    let (kind, called, at) = get_layer_lem reg runtime (runtime_name lang) version u found'' in
    let first : IsFirst reg lang b u = (
      found,
      kind,
      called,
      found' ∙ ap (λ v. ok v) (sym at),
      get_layer-IsRegistered reg runtime (runtime_name lang) version u found'',
    ) in
    let deps = wanted code explicit_deps in
    let laid =
      add_imports-IsLaid reg lang deps b u (b ∷ u ∷ []) (extract_imports lang code)
        (first-IsLaid reg lang b u first) in
    let met =
      add_deps_lem reg lang b u (add_imports reg lang deps (b ∷ u ∷ []) (extract_imports lang code))
        refs deps h''' laid in
    (b, u, first, met.0, met.1)

-- A plan begins with the base layer and the runtime of the language in the version that latest resolves
-- to. Its layers are all registered and no two are displayed the same; every dependency that was asked
-- for, by argument or pragma, is among them in its version; and the memory is enough for each of them,
-- and at least 128 MB.
pub resolve-IsPlan :
    (digest : Text → Text) (reg : LayerRegistry) (lang code : Text)
    (explicit_deps : List (Text × Text)) (plan : CompositionPlan)
    → resolve digest reg lang code explicit_deps ≡ ok plan
    → (b u : LayerRef) × IsFirst reg lang b u
      × IsLaid reg b u plan.layers
      × All (IsMet reg lang plan.layers) (wanted code explicit_deps)
      × (128 ≤ plan.memory_mb)
      × All (λ r. memory_of (metadata_for_layer reg r) ≤ plan.memory_mb) plan.layers
unfolding resolve
resolve-IsPlan digest reg lang code explicit_deps plan h =
    let (refs, found, h') = bind_ok (resolve_layers reg lang code explicit_deps) _ plan h in
    let (cmd, found', h'') =
      bind_ok
        (or_error (composition (runtime_name lang))
          (cmd_config_from_runtime reg (runtime_name lang)))
        _ plan h' in
    let same = same_value _ plan _ refl h'' in
    let (b, u, first, laid, met) = resolve_layers_lem reg lang code explicit_deps refs found in
    let memory = memory_from-le reg 128 refs in
    subst
      (λ p.
        (b u : LayerRef) × IsFirst reg lang b u
        × IsLaid reg b u p.layers
        × All (IsMet reg lang p.layers) (wanted code explicit_deps)
        × (128 ≤ p.memory_mb)
        × All (λ r. memory_of (metadata_for_layer reg r) ≤ p.memory_mb) p.layers)
      same (b, u, first, laid, met, memory.0, memory.1)

none-some : {m : LayerMetadata} → none ≡ some m → ⊥
none-some h = cc

either_some :
    (o : Option LayerMetadata) (x : LayerMetadata)
    → (cmd : CmdConfig) × (config_of (or_else o (some x)) ≡ some cmd)
either_some none x = (_, refl)
either_some (some y) x = (_, refl)

-- a layer that is found has an entry, and so a command
some_first :
    (f : LayerMetadata → Bool) (metas : List LayerMetadata) (m : LayerMetadata)
    → find f metas ≡ some m
    → (cmd : CmdConfig) × (command_of metas ≡ some cmd)
some_first f [] m h = absurd (none-some h)
some_first f (x ∷ metas) m h = either_some (find (λ m. m.default) (x ∷ metas)) x

add_deps-returns :
    (reg : LayerRegistry) (lang : Text) (refs : List LayerRef) (deps : List (Text × Text))
    → All (λ dep. (r : LayerRef) × (resolve_import reg lang dep.0 (exact dep.1) ≡ ok r)) deps
    → (final : List LayerRef) × (add_deps reg lang refs deps ≡ ok final)
unfolding add_deps
add_deps-returns reg lang refs [] h = (refs, refl)
add_deps-returns reg lang refs (dep ∷ deps) h =
    let rest = add_deps-returns reg lang (add_ref refs h.0.0) deps h.1 in
    (rest.0, rw (h.0.1) rest.1)

or_error-some :
    {A : Type 0} (e : RegistryError) (o : Option A) (a : A) → or_error e o ≡ ok a → o ≡ some a
or_error-some e none a h = absurd (ok_err h)
or_error-some e (some x) a h = cc

some_command :
    (reg : LayerRegistry) (name version : Text) (u : LayerRef)
    → get_layer reg runtime name version ≡ ok u
    → (cmd : CmdConfig) × (cmd_config_from_runtime reg name ≡ some cmd)
unfolding get_layer cmd_config_from_runtime
some_command reg name version u h =
    let missing = layer_not_found (dirname runtime) name version in
    let (metas, found, h') =
      bind_ok (or_error missing (lookup (key runtime name) reg.index)) _ u h in
    let (m, found', h'') =
      bind_ok (or_error missing (find (λ m. text_eq m.version version) metas)) _ u h' in
    rw
      (
        cmd_config_from_runtime,
        or_error-some missing (lookup (key runtime name) reg.index) metas found,
      )
      (some_first (λ m. text_eq m.version version) metas m
        (or_error-some missing (find (λ m. text_eq m.version version) metas) m found'))

met_found :
    (reg : LayerRegistry) (lang : Text) (refs : List LayerRef) (deps : List (Text × Text))
    → All (IsMet reg lang refs) deps
    → All (λ dep. (r : LayerRef) × (resolve_import reg lang dep.0 (exact dep.1) ≡ ok r)) deps
met_found reg lang refs [] h = tt
met_found reg lang refs (dep ∷ deps) h = ((h.0.0, h.0.1), met_found reg lang refs deps h.1)

layers_return :
    (reg : LayerRegistry) (lang code : Text) (explicit_deps : List (Text × Text)) (b u : LayerRef)
    → IsFirst reg lang b u
    → get_layer reg runtime (runtime_name lang) u.version ≡ ok u
    → All
        (λ dep. (r : LayerRef) × (resolve_import reg lang dep.0 (exact dep.1) ≡ ok r))
        (wanted code explicit_deps)
    → (refs : List LayerRef) × (resolve_layers reg lang code explicit_deps ≡ ok refs)
unfolding resolve_layers
layers_return reg lang code explicit_deps b u first found h =
    let deps = wanted code explicit_deps in
    let final =
      add_deps-returns reg lang (add_imports reg lang deps (b ∷ u ∷ []) (extract_imports lang code))
        deps h in
    (final.0, rw (first.0, first.3, found) final.1)

runtime_found :
    (reg : LayerRegistry) (lang : Text) (b u : LayerRef)
    → IsFirst reg lang b u
    → get_layer reg runtime (runtime_name lang) u.version ≡ ok u
runtime_found reg lang b u first =
    ap (λ t. get_layer reg t (runtime_name lang) u.version) (sym first.1)
    ∙ ap (λ n. get_layer reg u.layer_type n u.version) (sym first.2)
    ∙ first.4

-- `resolve` returns a plan exactly where the base layer is registered, the runtime of the language has a latest
-- version, which is registered as a runtime, and every dependency that was asked for, by argument or pragma, leads to
-- a layer: then the command of the runtime is never missing.
pub resolve-returns :
    (digest : Text → Text) (reg : LayerRegistry) (lang code : Text)
    (explicit_deps : List (Text × Text))
    → ((plan : CompositionPlan) × (resolve digest reg lang code explicit_deps ≡ ok plan)) ↔ (
        ((b u : LayerRef) × IsFirst reg lang b u)
        × All
            (λ dep. (r : LayerRef) × (resolve_import reg lang dep.0 (exact dep.1) ≡ ok r))
            (wanted code explicit_deps))
unfolding resolve
resolve-returns digest reg lang code explicit_deps = (
  (λ h.
      let made = resolve-IsPlan digest reg lang code explicit_deps h.0 h.1 in
      ((made.0, made.1, made.2), met_found reg lang h.0.layers (wanted code explicit_deps) made.4)),
  λ h.
      let found = runtime_found reg lang h.0.0 h.0.1 h.0.2 in
      let refs = layers_return reg lang code explicit_deps h.0.0 h.0.1 h.0.2 found h.1 in
      let cmd = some_command reg (runtime_name lang) h.0.1.version h.0.1 found in
      (plan_of digest reg refs.0 cmd.0, rw (refs.1, cmd.1) refl),
)
