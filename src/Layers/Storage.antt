-- ===== src/Layers/Storage.antt =====
-- The registry's file: `serialize_registry_toml` and `parse_registry_toml` of
-- tinymachine-fork/src/layer_registry.rs. Reading and writing the file is not modelled.
pub mod Reading
pub mod Reload
use tinymachine.Common.{
  ℕ, Bool, true, false, ◌&&◌, ◌||◌, not, ◌==◌, ltb, if◌then◌else◌, Option, none, some, List, [],
  ◌∷◌, ◌++◌, Text, codes, text_eq,
}
use tinymachine.Common.Maps.{Map}
use tinymachine.Cmdline.Lexer.{strip_prefix, split_once, trim}
use tinymachine.Composer.{LayerType, base, runtime, pip, npm, cargo, apt, source}
use tinymachine.Layers.{LayerMetadata, LayerRegistry, add_layer}
use tinymachine.Layers.Parsing.{lines, trim_matches}

unfoldable pub from_dirname : Text → Option LayerType
from_dirname s =
    if text_eq s (codes "base")
    then some base
    else if text_eq s (codes "runtime")
    then some runtime
    else if text_eq s (codes "pip")
    then some pip
    else if text_eq s (codes "npm")
    then some npm
    else if text_eq s (codes "cargo")
    then some cargo
    else if text_eq s (codes "apt")
    then some apt
    else if text_eq s (codes "source")
    then some source
    else none

-- the order of texts
unfoldable pub text_leb : Text → Text → Bool
text_leb [] t = true
text_leb (c ∷ cs) [] = false
text_leb (c ∷ cs) (d ∷ ds) = ltb c d || (c == d && text_leb cs ds)

abbrev pub Section : Type 0
Section = Text × LayerMetadata

abbrev section_leb : Section → Section → Bool
section_leb s t = if text_eq s.0 t.0 then text_leb s.1.version t.1.version else text_leb s.0 t.0

abbrev pub place : Section → List Section → List Section
place s [] = s ∷ []
place s (t ∷ ts) = let rest = place s ts in if section_leb s t then s ∷ t ∷ ts else t ∷ rest

abbrev pub sort : List Section → List Section
sort [] = []
sort (s ∷ ss) = place s (sort ss)

abbrev pub entries_of : Text → List LayerMetadata → List Section
entries_of k [] = []
entries_of k (meta ∷ metas) = (k, meta) ∷ entries_of k metas

abbrev pub sections : Map (List LayerMetadata) → List Section
sections [] = []
sections ((k, metas) ∷ index) = entries_of k metas ++ sections index

abbrev pub in_quotes : Text → Text
in_quotes t = 34 ∷ (t ++ 34 ∷ [])

abbrev comma_joined : List Text → Text
comma_joined [] = []
comma_joined (t ∷ []) = in_quotes t
comma_joined (t ∷ u ∷ ts) = in_quotes t ++ (codes ", " ++ comma_joined (u ∷ ts))

abbrev pub provides_line : List Text → List Text
provides_line [] = []
provides_line (t ∷ ts) = (codes "provides = [" ++ (comma_joined (t ∷ ts) ++ codes "]")) ∷ []

abbrev pub optional_line : Text → Option Text → List Text
optional_line name none = []
optional_line name (some t) = (name ++ (codes " = " ++ in_quotes t)) ∷ []

abbrev pub default_line : Bool → List Text
default_line true = codes "default = true" ∷ []
default_line false = []

-- the lines of a section behind its first two
abbrev pub detail_lines : LayerMetadata → List Text
detail_lines meta =
    (codes "hash = " ++ in_quotes meta.hash)
    ∷ (provides_line meta.provides
        ++ (optional_line (codes "requires_runtime") meta.requires_runtime
            ++ (optional_line (codes "kernel_profile") meta.kernel_profile
                ++ (default_line meta.default ++ [] ∷ []))))

abbrev pub section_lines : Section → List Text
section_lines s =
    (91 ∷ (in_quotes s.0 ++ 93 ∷ []))
    ∷ (codes "version = " ++ in_quotes s.1.version)
    ∷ detail_lines s.1

abbrev pub all_lines : List Section → List Text
all_lines [] = []
all_lines (s ∷ ss) = section_lines s ++ all_lines ss

abbrev pub registry_lines : LayerRegistry → List Text
registry_lines reg =
    codes "# TinyMachine Layer Registry"
    ∷ codes "# Auto-generated by layer_registry.rs"
    ∷ []
    ∷ all_lines (sort (sections reg.index))

-- `lines.join("\n")`
abbrev pub join_lines : List Text → Text
join_lines [] = []
join_lines (t ∷ []) = t
join_lines (t ∷ u ∷ ts) = t ++ 10 ∷ join_lines (u ∷ ts)

unfoldable pub serialize_registry_toml : LayerRegistry → Text
serialize_registry_toml reg = join_lines (registry_lines reg)

abbrev pub stub : LayerType → Text → Text → LayerMetadata
stub layer_type name version = record {
  layer_type = layer_type;
  name = name;
  version = version;
  provides = [];
  requires_runtime = none;
  size_bytes = 0;
  compressed_size = 0;
  hash = [];
  kernel_profile = none;
  memory_mb = 64;
  interpreter = none;
  interpreter_args = [];
  default = false;
}

-- the loop's state: the registry and `current_section`
abbrev pub Reader : Type 0
Reader = LayerRegistry × Text

-- what stands in front of a last `]`
abbrev pub up_to_bracket : Text → Option Text
up_to_bracket [] = none
up_to_bracket (c ∷ []) = if c == 93 then some [] else none
up_to_bracket (c ∷ d ∷ cs) = elim (up_to_bracket (d ∷ cs)) [ none ↦ none | some t ↦ some (c ∷ t) ]

-- `line[1..line.len() - 1]` where the line starts with `[` and ends with `]`
abbrev pub section_of : Text → Option Text
section_of [] = none
section_of (c ∷ cs) = let inner = up_to_bracket cs in if c == 91 then inner else none

abbrev typed : LayerRegistry → Text → Text → Option LayerType → LayerRegistry
typed reg name version none = reg
typed reg name version (some t) = add_layer reg (stub t name version)

abbrev pub versioned : LayerRegistry → Text → Text → Option (Text × Text) → LayerRegistry
versioned reg section version none = add_layer reg (stub runtime section version)
versioned reg section version (some (type_name, name)) =
    typed reg name version (from_dirname type_name)

abbrev pub with_value : Reader → Option (Text × Text) → Reader
with_value (reg, section) none = (reg, section)
with_value (reg, section) (some (name, value)) =
    (versioned reg section (trim_matches 34 (trim value)) (split_once 47 section), section)

abbrev pub is_empty : Text → Bool
is_empty [] = true
is_empty (c ∷ cs) = false

abbrev pub version_line : Reader → Text → Option Text → Reader
version_line r line none = r
version_line r line (some rest) = if is_empty r.1 then r else with_value r (split_once 61 line)

abbrev pub other_line : Reader → Text → Option Text → Reader
other_line r line none = version_line r line (strip_prefix (codes "version") line)
other_line r line (some section) = (r.0, section)

unfoldable pub read_line : Reader → Text → Reader
read_line r line = other_line r (trim line) (section_of (trim line))

unfoldable pub read_lines : Reader → List Text → Reader
read_lines r [] = r
read_lines r (line ∷ more) = read_lines (read_line r line) more

unfoldable pub parse_registry_toml : LayerRegistry → Text → LayerRegistry
parse_registry_toml reg content = (read_lines (reg, []) (lines content)).0
