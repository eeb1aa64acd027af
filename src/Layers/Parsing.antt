-- ===== src/Layers/Parsing.antt =====
-- What a program asks for, in tinymachine-fork/src/layer_registry.rs: version constraints, pragmas, and imports. The
-- methods of `str` are written out from the documentation of Rust's standard library.
use tinymachine.Common.{
  ℕ, Bool, true, false, ◌||◌, ◌==◌, if◌then◌else◌, Option, none, some, List, [], ◌∷◌, ◌++◌, drop,
  Text, codes, text_eq,
}
use tinymachine.Cmdline.Lexer.{is_whitespace, strip_prefix, split_once, trim}
use tinymachine.Layers.{VersionConstraint, exact, latest}

abbrev constraint_of : Text → Option (Text × Text) → Text × VersionConstraint
constraint_of s none = (s, latest)
constraint_of s (some (name, ver)) = (name, exact ver)

-- 64 is the sign `@`
unfoldable pub parse_version_constraint : Text → Text × VersionConstraint
parse_version_constraint s = constraint_of s (split_once 64 s)

-- the pieces between the separators that a test finds
abbrev pub push_char : ℕ → List Text → List Text
push_char c [] = (c ∷ []) ∷ []
push_char c (t ∷ ts) = (c ∷ t) ∷ ts

unfoldable pub split_on : (ℕ → Bool) → Text → List Text
split_on at [] = [] ∷ []
split_on at (c ∷ cs) = let rest = split_on at cs in if at c then [] ∷ rest else push_char c rest

abbrev non_empty : List Text → List Text
non_empty [] = []
non_empty ([] ∷ ts) = non_empty ts
non_empty ((c ∷ cs) ∷ ts) = (c ∷ cs) ∷ non_empty ts

unfoldable pub split_whitespace : Text → List Text
split_whitespace t = non_empty (split_on is_whitespace t)

-- `str::lines`, but for an empty line at the end, which no caller reads anything from; a carriage return in front
-- of a line's end is white space, which the callers trim
unfoldable pub lines : Text → List Text
lines t = split_on (λ c. c == 10) t

abbrev version_str : VersionConstraint → Text
version_str (exact v) = v
version_str latest = codes "latest"

abbrev pragma_dep : Text → Text × Text
pragma_dep part = let parsed = parse_version_constraint part in (parsed.0, version_str parsed.1)

abbrev pragma_deps : List Text → List (Text × Text)
pragma_deps [] = []
pragma_deps (part ∷ parts) = pragma_dep part ∷ pragma_deps parts

abbrev line_pragmas : Option Text → List (Text × Text)
line_pragmas none = []
line_pragmas (some rest) = pragma_deps (split_whitespace rest)

abbrev pragmas_of : List Text → List (Text × Text)
pragmas_of [] = []
pragmas_of (line ∷ more) =
    line_pragmas (strip_prefix (codes "# tinymachine:dep ") (trim line)) ++ pragmas_of more

unfoldable pub parse_pragmas : Text → List (Text × Text)
parse_pragmas code = pragmas_of (lines code)

abbrev first_of : List Text → Text → Text
first_of [] t = t
first_of (x ∷ xs) t = x

-- the part in front of the first dot
abbrev module_of : Text → Text
module_of part = first_of (split_on (λ c. c == 46) part) part

abbrev is_empty : Text → Bool
is_empty [] = true
is_empty (c ∷ cs) = false

abbrev is_comment : Text → Bool
is_comment [] = false
is_comment (c ∷ cs) = c == 35

abbrev import_parts : List Text → List Text
import_parts [] = []
import_parts (part ∷ parts) =
    let rest = import_parts parts in
    let name = trim (module_of part) in
    if text_eq part (codes "as") || is_comment part
    then rest
    else if is_empty name || text_eq name (codes "as")
    then rest
    else name ∷ rest

abbrev comma_parts : List Text → List Text
comma_parts [] = []
comma_parts (t ∷ ts) = split_whitespace t ++ comma_parts ts

abbrev import_line : Option Text → List Text
import_line none = []
import_line (some rest) = import_parts (comma_parts (split_on (λ c. c == 44) rest))

abbrev from_module : List Text → List Text
from_module [] = []
from_module (part ∷ parts) = if is_empty (module_of part) then [] else module_of part ∷ []

abbrev from_line : Option Text → List Text
from_line none = []
from_line (some rest) = from_module (split_whitespace rest)

unfoldable pub extract_python_imports : List Text → List Text
extract_python_imports [] = []
extract_python_imports (line ∷ more) =
    import_line (strip_prefix (codes "import ") (trim line))
    ++ (from_line (strip_prefix (codes "from ") (trim line)) ++ extract_python_imports more)

-- what follows the first place where a text stands, from that place on and behind it
unfoldable pub from_first : Text → Text → Option Text
from_first wanted [] = if is_empty wanted then some [] else none
from_first wanted (c ∷ cs) =
    let later = from_first wanted cs in
    elim (strip_prefix wanted (c ∷ cs)) [ none ↦ later | some rest ↦ some (c ∷ cs) ]

abbrev starts_path : Text → Bool
starts_path [] = false
starts_path (c ∷ cs) = c == 46 || c == 47

-- between two quotes, 39
abbrev quoted : Option (Text × Text) → List Text
quoted none = []
quoted (some (name, rest)) = if starts_path name then [] else name ∷ []

abbrev after_quote : Option (Text × Text) → List Text
after_quote none = []
after_quote (some (front, rest)) = quoted (split_once 39 rest)

abbrev require_call : Option Text → List Text
require_call none = []
require_call (some after) = after_quote (split_once 39 after)

-- `trim_matches` of one character
abbrev strip_start : ℕ → Text → Text
strip_start q [] = []
strip_start q (c ∷ cs) = let rest = strip_start q cs in if c == q then rest else c ∷ cs

abbrev strip_before : ℕ → ℕ → Text → Text
strip_before q c [] = if c == q then [] else c ∷ []
strip_before q c (d ∷ ds) = c ∷ d ∷ ds

abbrev strip_end : ℕ → Text → Text
strip_end q [] = []
strip_end q (c ∷ cs) = strip_before q c (strip_end q cs)

abbrev pub trim_matches : ℕ → Text → Text
trim_matches q t = strip_end q (strip_start q t)

abbrev imported_from : Option Text → List Text
imported_from none = []
imported_from (some at_from) =
    let name = trim_matches 34 (trim_matches 39 (trim (drop 6 at_from))) in
    if is_empty name || text_eq name (codes "from") then [] else name ∷ []

abbrev es_import : Option Text → List Text
es_import none = []
es_import (some rest) = imported_from (from_first (codes " from ") rest)

unfoldable pub extract_js_requires : List Text → List Text
extract_js_requires [] = []
extract_js_requires (line ∷ more) =
    require_call (from_first (codes "require(") (trim line))
    ++ (es_import (strip_prefix (codes "import ") (trim line)) ++ extract_js_requires more)

unfoldable pub extract_imports : Text → Text → List Text
extract_imports lang code =
    if text_eq lang (codes "python")
    then extract_python_imports (lines code)
    else if text_eq lang (codes "node") || text_eq lang (codes "javascript")
    then extract_js_requires (lines code)
    else []
