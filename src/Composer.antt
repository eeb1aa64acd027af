-- ===== src/Composer.antt =====
-- tinymachine-fork/src/composer.rs: `Composer::conflict_check`, with the layers of
-- tinymachine-fork/src/layer_registry.rs. The listing of an archive runs other
-- programs: it is a parameter, from the path to the set of files, as a list without order, or an error.
pub mod Conflicts
pub mod Eviction
mod Tests
use tinymachine.Common.{Option, none, some, List, [], ◌∷◌, ◌++◌, Text, codes, Result, ok, err}
use tinymachine.Common.Maps.{Map, lookup, insert}

pub data LayerType : Type 0 where
  base runtime pip npm cargo apt source : LayerType

unfoldable pub dirname : LayerType → Text
dirname base = codes "base"
dirname runtime = codes "runtime"
dirname pip = codes "pip"
dirname npm = codes "npm"
dirname cargo = codes "cargo"
dirname apt = codes "apt"
dirname source = codes "source"

pub record LayerRef : Type 0 where
  pub layer_type : LayerType
  pub name : Text
  pub version : Text
  pub hash : Text
  pub layer_path : Text

unfoldable pub display : LayerRef → Text
unfolding dirname
display layer =
    dirname layer.layer_type ++ (codes "/" ++ (layer.name ++ (codes "@" ++ layer.version)))

pub record ConflictError : Type 0 where
  pub path : Text
  pub layer_a : Text
  pub layer_b : Text

-- `all_files` and `conflicts` of the loop
pub record Seen : Type 0 where
  pub all_files : Map Text
  pub conflicts : List ConflictError

-- one file of the layer displayed as `shown`
unfoldable pub see : Text → Seen → Text → Option Text → Seen
see shown s file (some existing) = record s {
  conflicts = s.conflicts ++ record { path = file; layer_a = existing; layer_b = shown } ∷ [];
}
see shown s file none = record s { all_files = insert file shown s.all_files }

unfoldable pub see_files : Text → Seen → List Text → Seen
unfolding see
see_files shown s [] = s
see_files shown s (file ∷ files) =
    see_files shown (see shown s file (lookup file s.all_files)) files

unfoldable pub see_listing : {E : Type 0} → Text → Seen → Result E (List Text) → Seen
unfolding see_files
see_listing shown s (ok files) = see_files shown s files
see_listing shown s (err e) = s

-- `if conflicts.is_empty() { Ok(()) } else { Err(conflicts) }`
unfoldable pub verdict : List ConflictError → Result (List ConflictError) (Unit {0})
verdict [] = ok tt
verdict (c ∷ cs) = err (c ∷ cs)

module _ {E : Type 0} (list_cpio_files : Text → Result E (List Text)) where
  unfoldable pub see_layers : Seen → List LayerRef → Seen
  unfolding see_listing display
  see_layers s [] = s
  see_layers s (layer ∷ layers) =
      see_layers (see_listing (display layer) s (list_cpio_files layer.layer_path)) layers

  unfoldable pub conflict_check : List LayerRef → Result (List ConflictError) (Unit {0})
  unfolding see_layers verdict
  conflict_check layers =
      verdict (see_layers (record { all_files = []; conflicts = [] }) layers).conflicts
