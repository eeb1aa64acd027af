-- ===== src/Layers.antt =====
-- The registry of layers: tinymachine-fork/src/layer_registry.rs. The index is an association list in the order in
-- which the iteration of the map visits its keys; paths are texts.
pub mod Parsing
pub mod Resolve
pub mod Plan
pub mod Answers
pub mod Versions
pub mod Storage
mod Tests
use tinymachine.Common.{
  ℕ, Bool, true, false, ◌&&◌, not, if◌then◌else◌, Option, none, some, List, [], ◌∷◌, ◌++◌, any, map,
  Text, codes, text_eq, Result, ok, err, ◌>>=◌,
}
use tinymachine.Common.Maps.{Map, lookup, insert, remove}
use tinymachine.Composer.{LayerType, base, runtime, pip, npm, cargo, apt, source, dirname, LayerRef}

pub data RegistryError : Type 0 where
  layer_not_found : Text → Text → Text → RegistryError
  version_not_found : Text → Text → RegistryError
  import_not_mapped : Text → Text → RegistryError
  composition : Text → RegistryError

pub data VersionConstraint : Type 0 where
  exact : Text → VersionConstraint
  latest : VersionConstraint

pub record LayerMetadata : Type 0 where
  pub layer_type : LayerType
  pub name : Text
  pub version : Text
  pub provides : List Text
  pub requires_runtime : Option Text
  pub size_bytes : ℕ
  pub compressed_size : ℕ
  pub hash : Text
  pub kernel_profile : Option Text
  pub memory_mb : ℕ
  pub interpreter : Option Text
  pub interpreter_args : List Text
  pub default : Bool

pub record LayerRegistry : Type 0 where
  pub layers_path : Text
  pub index : Map (List LayerMetadata)

unfoldable pub key : LayerType → Text → Text
key layer_type name = dirname layer_type ++ (codes "/" ++ name)

abbrev pub find : {A : Type 0} → (A → Bool) → List A → Option A
find f [] = none
find f (x ∷ xs) = let rest = find f xs in if f x then some x else rest

abbrev pub filter : {A : Type 0} → (A → Bool) → List A → List A
filter f [] = []
filter f (x ∷ xs) = let rest = filter f xs in if f x then x ∷ rest else rest

-- `ok_or_else`
abbrev pub or_error : {A : Type 0} → RegistryError → Option A → Result RegistryError A
or_error e none = err e
or_error e (some a) = ok a

-- `self.index.values().flatten()`
abbrev pub all_metas : Map (List LayerMetadata) → List LayerMetadata
all_metas [] = []
all_metas ((k, metas) ∷ index) = metas ++ all_metas index

abbrev entry : Option (List LayerMetadata) → List LayerMetadata
entry none = []
entry (some metas) = metas

unfoldable pub add_layer : LayerRegistry → LayerMetadata → LayerRegistry
add_layer r meta =
    let k = key meta.layer_type meta.name in
    record r { index = insert k (entry (lookup k r.index) ++ meta ∷ []) r.index }

abbrev is_empty : List LayerMetadata → Bool
is_empty [] = true
is_empty (x ∷ xs) = false

unfoldable pub remove_layer :
    LayerRegistry → LayerType → Text → Text → Result RegistryError LayerRegistry
remove_layer r layer_type name version =
    let k = key layer_type name in
    or_error (layer_not_found (dirname layer_type) name version) (lookup k r.index) >>= λ metas.
    let kept = filter (λ m. not (text_eq m.version version)) metas in
    ok (record r { index = if is_empty kept then remove k r.index else insert k kept r.index })

unfoldable pub get_layer : LayerRegistry → LayerType → Text → Text → Result RegistryError LayerRef
get_layer r layer_type name version = do
  let missing = layer_not_found (dirname layer_type) name version
  metas ← or_error missing (lookup (key layer_type name) r.index)
  meta ← or_error missing (find (λ m. text_eq m.version version) metas)
  ok (record {
    layer_type = layer_type;
    name = name;
    version = version;
    hash = meta.hash;
    layer_path =
        r.layers_path
        ++ (codes "/"
            ++ (dirname layer_type
                ++ (codes "/" ++ (name ++ (codes "/" ++ (version ++ codes "/layer.cpio.zst"))))));
  })

-- `.find(…).or_else(…)`
abbrev pub or_else : {A : Type 0} → Option A → Option A → Option A
or_else none o = o
or_else (some a) o = some a

unfoldable pub resolve_version :
    LayerRegistry → Text → VersionConstraint → Result RegistryError Text
resolve_version r name (exact v) = ok v
resolve_version r name latest =
    let named = filter (λ m. text_eq m.name name) (all_metas r.index) in
    or_error (version_not_found name (codes "latest"))
      (or_else (find (λ m. m.default) named) (find (λ m. true) named))
    >>= λ m. ok m.version

abbrev pub type_eq : LayerType → LayerType → Bool
type_eq s t = text_eq (dirname s) (dirname t)

abbrev target_type : Text → Option LayerType
target_type lang =
    if text_eq lang (codes "python")
    then some pip
    else if text_eq lang (codes "node")
    then some npm
    else if text_eq lang (codes "javascript")
    then some npm
    else none

unfoldable pub find_layer_by_import :
    LayerRegistry → Text → Text → Result RegistryError (LayerType × Text)
find_layer_by_import r lang import_name = do
  let missing = import_not_mapped import_name lang
  target ← or_error missing (target_type lang)
  meta ← or_error missing (
      find (λ m. type_eq m.layer_type target && any (λ p. text_eq p import_name) m.provides)
        (all_metas r.index))
  ok (target, meta.name)

unfoldable pub resolve_import :
    LayerRegistry → Text → Text → VersionConstraint → Result RegistryError LayerRef
resolve_import r lang import_name version = do
  found ← find_layer_by_import r lang import_name
  resolved ← resolve_version r found.1 version
  get_layer r found.0 found.1 resolved

unfoldable pub metadata_for_layer : LayerRegistry → LayerRef → Option LayerMetadata
metadata_for_layer r layer = elim (lookup (key layer.layer_type layer.name) r.index) [
  | none ↦ none
  | some metas ↦ find (λ m. text_eq m.version layer.version) metas
]

-- a change of every entry
abbrev pub map_metas :
    (LayerMetadata → LayerMetadata) → Map (List LayerMetadata) → Map (List LayerMetadata)
map_metas f [] = []
map_metas f ((k, metas) ∷ index) = (k, map f metas) ∷ map_metas f index

abbrev pub set_default : Text → Text → LayerMetadata → LayerMetadata
set_default name version meta =
    if text_eq meta.name name then record meta { default = text_eq meta.version version } else meta

unfoldable pub update_latest : LayerRegistry → Text → Text → LayerRegistry
update_latest r name version = record r { index = map_metas (set_default name version) r.index }

unfoldable pub list_layers : LayerRegistry → Option LayerType → List LayerMetadata
list_layers r none = all_metas r.index
list_layers r (some layer_type) = filter (λ m. type_eq m.layer_type layer_type) (all_metas r.index)
