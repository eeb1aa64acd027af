-- ===== src/Layers/Storage/Reading.antt =====
-- The reading of the registry's lines: `parse_registry_toml` of tinymachine-fork/src/layer_registry.rs.
use tinymachine.Common.{
  ℕ, ◌≡◌, ◌⊎◌, inl, inr, refl, ap, ◌∙◌, Bool, Bool-cases, true, false, not, ◌&&◌, ◌==◌, Option,
  none, some, List, [], ◌∷◌, ◌++◌, any, All, Text, codes, text_eq, arith,
}
use tinymachine.Cmdline.Lexer.{
  is_whitespace, strip_prefix, split_once, trim, trim_start, trim_end, trim_before,
}
use tinymachine.Composer.{LayerType, base, runtime, pip, npm, cargo, apt, source, dirname}
use tinymachine.Layers.{LayerRegistry, key}
use tinymachine.Layers.Parsing.{lines, split_on, push_char, trim_matches}
use tinymachine.Layers.Storage.{
  in_quotes, join_lines, from_dirname, Reader, section_of, versioned, with_value, version_line,
  other_line, read_line, read_lines, is_empty,
}

abbrev pub newline : ℕ → Bool
newline c = c == 10

abbrev pub IsLine : Text → Type 0
IsLine t = any newline t ≡ false

split_on-line : (t : Text) → IsLine t → split_on newline t ≡ t ∷ []
unfolding split_on
split_on-line [] h = refl
split_on-line (c ∷ t) h =
    let here : newline c ≡ false = ground (arith, h) in
    rw here (ap (push_char c) (split_on-line t (ground (arith, h))))

split_on-newline :
    (t rest : Text) → IsLine t → split_on newline (t ++ 10 ∷ rest) ≡ t ∷ split_on newline rest
unfolding split_on
split_on-newline [] rest h = refl
split_on-newline (c ∷ t) rest h =
    let here : newline c ≡ false = ground (arith, h) in
    rw here (ap (push_char c) (split_on-newline t rest (ground (arith, h))))

-- The lines of a text are those that it was joined from.
pub lines-join_lines :
    (t : Text) (ts : List Text) → All IsLine (t ∷ ts) → lines (join_lines (t ∷ ts)) ≡ t ∷ ts
unfolding lines
lines-join_lines t [] h = split_on-line t h.0
lines-join_lines t (u ∷ ts) h =
    split_on-newline t (join_lines (u ∷ ts)) h.0 ∙ ap (λ l. t ∷ l) (lines-join_lines u ts h.1)

-- a section that adds no layer, whatever version follows it
abbrev pub IsInert : Text → Type 0
IsInert section =
    (section ≡ []) ⊎ ((t : LayerType) × (name : Text) × (section ≡ in_quotes (key t name)))

-- The name of a section keeps its quotes, so that what stands in front of the slash is the name of no type.
quoted_section :
    (reg : LayerRegistry) (t : LayerType) (name version : Text)
    → versioned reg (in_quotes (key t name)) version (split_once 47 (in_quotes (key t name))) ≡ reg
unfolding key dirname split_once from_dirname text_eq
quoted_section reg base name version = refl
quoted_section reg runtime name version = refl
quoted_section reg pip name version = refl
quoted_section reg npm name version = refl
quoted_section reg cargo name version = refl
quoted_section reg apt name version = refl
quoted_section reg source name version = refl

never_both : (section : Text) → section ≡ [] → is_empty section ≡ false → ⊥
never_both [] e h = ground (arith, h)
never_both (c ∷ cs) e h = cc

no_section : (c : ℕ) (cs : Text) → c == 91 ≡ false → section_of (c ∷ cs) ≡ none
no_section c cs h = rw h refl

inert_value :
    (reg : LayerRegistry) (section : Text) (parts : Option (Text × Text))
    → IsInert section
    → is_empty section ≡ false
    → with_value (reg, section) parts ≡ (reg, section)
inert_value reg section none h used = refl
inert_value reg section (some (name, value)) (inl blank) used =
    absurd (never_both section blank used)
inert_value reg section (some (name, value)) (inr (t, layer, e)) used =
    ap (λ r. (r, section))
      (ap (λ s. versioned reg s (trim_matches 34 (trim value)) (split_once 47 s)) e
        ∙ quoted_section reg t layer (trim_matches 34 (trim value)))

-- Below such a section, a line that is no section's changes nothing.
inert_line :
    (r : Reader) (line : Text) (prefixed : Option Text)
    → IsInert r.1
    → version_line r line prefixed ≡ r
inert_line r line none h = refl
inert_line r line (some rest) h = elim (Bool-cases (is_empty r.1)) [
  | inl blank ↦ rw blank refl
  | inr used ↦ rw used (inert_value r.0 r.1 (split_once 61 line) h used)
]

-- a line that is empty or begins with neither white space nor a bracket
abbrev pub is_detail : Text → Bool
is_detail [] = true
is_detail (c ∷ cs) = not (is_whitespace c) && not (c == 91)

trimmed_head :
    (c : ℕ) (cs : Text) → is_whitespace c ≡ false → (ds : Text) × (trim_before c cs ≡ c ∷ ds)
unfolding trim_before
trimmed_head c [] h = ([], rw h refl)
trimmed_head c (d ∷ ds) h = (d ∷ ds, refl)

trim-head : (c : ℕ) (cs : Text) → is_whitespace c ≡ false → (ds : Text) × (trim (c ∷ cs) ≡ c ∷ ds)
unfolding trim trim_start trim_end
trim-head c cs h = rw h (trimmed_head c (trim_end cs) h)

read_line-detail :
    (r : Reader) (line : Text) → IsInert r.1 → is_detail line ≡ true → read_line r line ≡ r
unfolding read_line trim strip_prefix
read_line-detail r [] h d = inert_line r [] (strip_prefix (codes "version") []) h
read_line-detail r (c ∷ cs) h d =
    let head = trim-head c cs (ground (arith, d)) in
    let outside : c == 91 ≡ false = ground (arith, d) in
    ap (λ t. other_line r t (section_of t)) head.1
    ∙ ap (other_line r (c ∷ head.0)) (no_section c head.0 outside)
    ∙ inert_line r (c ∷ head.0) (strip_prefix (codes "version") (c ∷ head.0)) h

pub read_lines-details :
    (r : Reader) (ls more : List Text)
    → IsInert r.1
    → All (λ l. is_detail l ≡ true) ls
    → read_lines r (ls ++ more) ≡ read_lines r more
unfolding read_lines
read_lines-details r [] more h d = refl
read_lines-details r (l ∷ ls) more h d =
    ap (λ q. read_lines q (ls ++ more)) (read_line-detail r l h d.0)
    ∙ read_lines-details r ls more h d.1
