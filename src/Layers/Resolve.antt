-- ===== src/Layers/Resolve.antt =====
-- `LayerRegistry::resolve` of tinymachine-fork/src/layer_registry.rs: from a program to the layers of its VM. The hash
-- function is the blake3 crate's and a parameter.
use tinymachine.Common.{
  ℕ, max, Bool, true, ◌||◌, if◌then◌else◌, Option, none, some, List, [], ◌∷◌, ◌++◌, any, take, Text,
  codes, text_eq, Result, ok, err, ◌>>=◌,
}
use tinymachine.Common.Maps.{lookup}
use tinymachine.Composer.{base, runtime, LayerRef, display}
use tinymachine.Layers.{
  LayerRegistry, LayerMetadata, RegistryError, composition, exact, latest, key, find, or_else,
  or_error, get_layer, resolve_version, resolve_import, metadata_for_layer,
}
use tinymachine.Layers.Parsing.{parse_pragmas, extract_imports}

pub record CmdConfig : Type 0 where
  pub interpreter : Option Text
  pub args : List Text
  pub exec : Option Text

pub record CompositionPlan : Type 0 where
  pub layers : List LayerRef
  pub kernel_profile : Text
  pub memory_mb : ℕ
  pub cmd_config : CmdConfig
  pub composition_key : Text

abbrev pub runtime_name : Text → Text
runtime_name lang =
    if text_eq lang (codes "node") || text_eq lang (codes "javascript")
    then codes "node"
    else codes "python"

abbrev pub names : Text → List (Text × Text) → Bool
names name deps = any (λ dep. text_eq dep.0 name) deps

-- the dependencies of the pragmas, where no explicit one has the name
unfoldable pub add_pragmas : List (Text × Text) → List (Text × Text) → List (Text × Text)
add_pragmas deps [] = deps
add_pragmas deps (pragma ∷ pragmas) =
    add_pragmas (if names pragma.0 deps then deps else deps ++ pragma ∷ []) pragmas

unfoldable pub add_ref : List LayerRef → LayerRef → List LayerRef
add_ref refs r = if any (λ q. text_eq (display q) (display r)) refs then refs else refs ++ r ∷ []

-- one import, which stays without a layer where none is found
abbrev pub add_found : List LayerRef → Result RegistryError LayerRef → List LayerRef
add_found refs (ok r) = add_ref refs r
add_found refs (err e) = refs

unfoldable pub add_imports :
    LayerRegistry → Text → List (Text × Text) → List LayerRef → List Text → List LayerRef
add_imports reg lang deps refs [] = refs
add_imports reg lang deps refs (name ∷ imports) =
    add_imports reg lang deps
      (if names name deps then refs else add_found refs (resolve_import reg lang name latest))
      imports

unfoldable pub add_deps :
    LayerRegistry → Text → List LayerRef → List (Text × Text) → Result RegistryError (List LayerRef)
add_deps reg lang refs [] = ok refs
add_deps reg lang refs (dep ∷ deps) =
    resolve_import reg lang dep.0 (exact dep.1) >>= λ r. add_deps reg lang (add_ref refs r) deps

abbrev profile_of : Option LayerMetadata → Option Text
profile_of none = none
profile_of (some meta) = elim meta.kernel_profile [
  | none ↦ none
  | some kp ↦ if text_eq kp (codes "base") then none else some kp
]

abbrev or_text : Option Text → Text → Text
or_text none t = t
or_text (some s) t = s

unfoldable pub kernel_profile_from_layers : LayerRegistry → List LayerRef → Text
kernel_profile_from_layers reg [] = codes "base"
kernel_profile_from_layers reg (r ∷ refs) =
    or_text (profile_of (metadata_for_layer reg r)) (kernel_profile_from_layers reg refs)

abbrev pub memory_of : Option LayerMetadata → ℕ
memory_of none = 0
memory_of (some meta) = meta.memory_mb

-- the loop's accumulator comes first
unfoldable pub memory_from : LayerRegistry → ℕ → List LayerRef → ℕ
memory_from reg mem [] = mem
memory_from reg mem (r ∷ refs) =
    memory_from reg (max mem (memory_of (metadata_for_layer reg r))) refs

abbrev pub memory_mb_from_layers : LayerRegistry → List LayerRef → ℕ
memory_mb_from_layers reg refs = memory_from reg 128 refs

abbrev pub config_of : Option LayerMetadata → Option CmdConfig
config_of none = none
config_of (some m) =
    some (record { interpreter = m.interpreter; args = m.interpreter_args; exec = none })

abbrev pub command_of : List LayerMetadata → Option CmdConfig
command_of metas = config_of (or_else (find (λ m. m.default) metas) (find (λ m. true) metas))

unfoldable pub cmd_config_from_runtime : LayerRegistry → Text → Option CmdConfig
cmd_config_from_runtime reg name = elim (lookup (key runtime name) reg.index) [
  | none ↦ none
  | some metas ↦ command_of metas
]

-- a layer in the text that is hashed
abbrev key_part : LayerRef → Text
key_part r = r.name ++ (codes "@" ++ (r.version ++ (codes ":" ++ take 12 r.hash)))

abbrev joined : List LayerRef → Text
joined [] = []
joined (r ∷ []) = key_part r
joined (r ∷ q ∷ refs) = key_part r ++ (codes "," ++ joined (q ∷ refs))

-- the steps of the plan that concern its layers
unfoldable pub resolve_layers :
    LayerRegistry → Text → Text → List (Text × Text) → Result RegistryError (List LayerRef)
resolve_layers reg lang code explicit_deps = do
  base_ref ← get_layer reg base (codes "base") (codes "v1")
  runtime_ver ← resolve_version reg (runtime_name lang) latest
  runtime_ref ← get_layer reg runtime (runtime_name lang) runtime_ver
  let deps = add_pragmas explicit_deps (parse_pragmas code)
  add_deps reg lang
      (add_imports reg lang deps (base_ref ∷ runtime_ref ∷ []) (extract_imports lang code)) deps

abbrev pub plan_of : (Text → Text) → LayerRegistry → List LayerRef → CmdConfig → CompositionPlan
plan_of digest reg refs cmd =
    let profile = kernel_profile_from_layers reg refs in
    record {
      layers = refs;
      kernel_profile = profile;
      memory_mb = memory_mb_from_layers reg refs;
      cmd_config = cmd;
      composition_key = codes "compose:" ++ digest (profile ++ (codes ":" ++ joined refs));
    }

unfoldable pub resolve :
    (Text → Text)
    → LayerRegistry
    → Text
    → Text
    → List (Text × Text)
    → Result RegistryError CompositionPlan
resolve digest reg lang code explicit_deps = do
  refs ← resolve_layers reg lang code explicit_deps
  cmd ← or_error (composition (runtime_name lang)) (cmd_config_from_runtime reg (runtime_name lang))
  ok (plan_of digest reg refs cmd)
