-- ===== src/Layers/Tests.antt =====
-- The theorems about the registry of layers at work on three layers.
use tinymachine.Common.{
  ◌≤◌, ◌≡◌, ◌↔◌, inl, inr, refl, true, false, none, some, List, [], ◌∷◌, any, All, Text, codes,
  text_eq, ok, arith,
}
use tinymachine.Common.Maps.{lookup}
use tinymachine.Cmdline.Lexer.{is_whitespace, strip_prefix, trim}
use tinymachine.Composer.{LayerType, base, runtime, pip, dirname, LayerRef, display}
use tinymachine.Layers.{
  LayerMetadata, LayerRegistry, exact, latest, key, get_layer, resolve_version,
  find_layer_by_import, resolve_import, metadata_for_layer, update_latest,
}
use tinymachine.Layers.Parsing.{
  lines, split_on, split_whitespace, parse_pragmas, extract_python_imports, extract_imports,
}
use tinymachine.Layers.Resolve.{
  CompositionPlan, add_pragmas, add_ref, add_imports, add_deps, memory_of, cmd_config_from_runtime,
  resolve_layers, plan_of, resolve,
}
use tinymachine.Layers.Plan.{IsLaid, IsMet}
use tinymachine.Layers.Answers.{IsFirst, wanted, resolve-IsPlan, resolve-returns}
use tinymachine.Layers.Versions.{resolve_version-update_latest}
use tinymachine.Layers.Storage.{
  registry_lines, text_leb, serialize_registry_toml, parse_registry_toml,
}
use tinymachine.Layers.Storage.Reading.{newline, IsLine}
use tinymachine.Layers.Storage.Reload.{HasKeys, parse-serialize}

abbrev layer : LayerType → Text → Text → List Text → LayerMetadata
layer t name version provides = record {
  layer_type = t;
  name = name;
  version = version;
  provides = provides;
  requires_runtime = none;
  size_bytes = 9;
  compressed_size = 3;
  hash = codes "abc";
  kernel_profile = none;
  memory_mb = 256;
  interpreter = some (codes "/bin/python3");
  interpreter_args = codes "-c" ∷ [];
  default = true;
}

abbrev registry : LayerRegistry
registry = record {
  layers_path = codes "/layers";
  index =
      (codes "base/base", layer base (codes "base") (codes "v1") [] ∷ [])
      ∷ (codes "runtime/python", layer runtime (codes "python") (codes "3.11") [] ∷ [])
      ∷ (
        codes "pip/numpy",
        layer pip (codes "numpy") (codes "1.9") (codes "numpy" ∷ [])
            ∷ layer pip (codes "numpy") (codes "2.0") (codes "numpy" ∷ [])
            ∷ [],
      )
      ∷ [];
}

registry-HasKeys : HasKeys registry.index
unfolding key dirname
registry-HasKeys = (
  (base, codes "base", refl),
  ((runtime, codes "python", refl), ((pip, codes "numpy", refl), tt)),
)

tested_lines : (ts : List Text) → any (λ t. any newline t) ts ≡ false → All IsLine ts
tested_lines [] h = tt
tested_lines (t ∷ ts) h = (ground (arith, h), tested_lines ts (ground (arith, h)))

parse-serialize_example : parse_registry_toml registry (serialize_registry_toml registry) ≡ registry
unfolding text_eq text_leb
parse-serialize_example =
    parse-serialize registry registry registry-HasKeys (tested_lines (registry_lines registry) refl)

resolve_version-update_latest_example :
    resolve_version (update_latest registry (codes "numpy") (codes "2.0")) (codes "numpy") latest
    ≡ ok (codes "2.0")
resolve_version-update_latest_example =
    resolve_version-update_latest registry (codes "numpy") (codes "2.0")
      (inr (inr (inr (inl (refl, refl)))))

abbrev program : Text
program = codes "import numpy"

abbrev deps : List (Text × Text)
deps = (codes "numpy", codes "1.9") ∷ []

resolve-returns_example :
    ((plan : CompositionPlan) × (resolve (λ t. t) registry (codes "python") program deps ≡ ok plan))
    ↔ (((b u : LayerRef) × IsFirst registry (codes "python") b u)
        × All
            (λ dep.
              (r : LayerRef) × (resolve_import registry (codes "python") dep.0 (exact dep.1)
                ≡ ok r))
            (wanted program deps))
resolve-returns_example = resolve-returns (λ t. t) registry (codes "python") program deps

abbrev found : LayerType → Text → Text → Text → LayerRef
found t name version path = record {
  layer_type = t;
  name = name;
  version = version;
  hash = codes "abc";
  layer_path = path;
}

abbrev plan : CompositionPlan
plan =
    plan_of (λ t. t) registry
      (found base (codes "base") (codes "v1") (codes "/layers/base/base/v1/layer.cpio.zst")
        ∷ found runtime (codes "python") (codes "3.11")
            (codes "/layers/runtime/python/3.11/layer.cpio.zst")
        ∷ found pip (codes "numpy") (codes "1.9") (codes "/layers/pip/numpy/1.9/layer.cpio.zst")
        ∷ [])
      (record { interpreter = some (codes "/bin/python3"); args = codes "-c" ∷ []; exec = none })

plan_made : resolve (λ t. t) registry (codes "python") program deps ≡ ok plan
unfolding resolve resolve_layers get_layer resolve_version resolve_import find_layer_by_import
    add_imports add_deps add_ref add_pragmas parse_pragmas extract_imports extract_python_imports
    lines split_on split_whitespace lookup text_eq key dirname display cmd_config_from_runtime
    is_whitespace strip_prefix trim
plan_made = refl

resolve-IsPlan_example :
    (b u : LayerRef) × IsFirst registry (codes "python") b u
    × IsLaid registry b u plan.layers
    × All (IsMet registry (codes "python") plan.layers) (wanted program deps)
    × (128 ≤ plan.memory_mb)
    × All (λ r. memory_of (metadata_for_layer registry r) ≤ plan.memory_mb) plan.layers
resolve-IsPlan_example =
    resolve-IsPlan (λ t. t) registry (codes "python") program deps plan plan_made
