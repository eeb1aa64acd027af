-- ===== src/Layers/Storage/Reload.antt =====
-- What is left of a registry that is written and read again: tinymachine-fork/src/layer_registry.rs.
use tinymachine.Common.{
  ℕ, ◌≡◌, inl, inr, refl, ap, ◌∙◌, Bool, Bool-cases, true, false, Option, none, some, List, [], ◌∷◌,
  ◌++◌, All, Text, codes,
}
use tinymachine.Common.Maps.{Map}
use tinymachine.Cmdline.Lexer.{is_whitespace, trim, trim_start, trim_end, trim_before}
use tinymachine.Composer.{LayerType}
use tinymachine.Layers.{LayerMetadata, LayerRegistry, key}
use tinymachine.Layers.Storage.{
  Section, place, sort, entries_of, sections, in_quotes, provides_line, optional_line, default_line,
  detail_lines, all_lines, registry_lines, serialize_registry_toml, Reader, up_to_bracket,
  section_of, other_line, read_line, read_lines, parse_registry_toml, section_leb,
}
use tinymachine.Layers.Storage.Reading.{
  IsLine, lines-join_lines, IsInert, is_detail, read_lines-details,
}

kept_by_bracket : (c : ℕ) (t : Text) → trim_before c (t ++ 93 ∷ []) ≡ c ∷ (t ++ 93 ∷ [])
unfolding trim_before
kept_by_bracket c [] = refl
kept_by_bracket c (d ∷ t) = refl

trim_end-bracket : (t : Text) → trim_end (t ++ 93 ∷ []) ≡ t ++ 93 ∷ []
unfolding trim_end trim_before is_whitespace
trim_end-bracket [] = refl
trim_end-bracket (c ∷ t) = ap (trim_before c) (trim_end-bracket t) ∙ kept_by_bracket c t

up_to_bracket_lem : (t : Text) → up_to_bracket (t ++ 93 ∷ []) ≡ some t
up_to_bracket_lem [] = refl
up_to_bracket_lem (c ∷ []) = refl
up_to_bracket_lem (c ∷ d ∷ t) = rw (up_to_bracket_lem (d ∷ t)) refl

read_line-section : (r : Reader) (t : Text) → read_line r (91 ∷ (t ++ 93 ∷ [])) ≡ (r.0, t)
unfolding read_line trim trim_start is_whitespace
read_line-section r t =
    ap (λ l. other_line r l (section_of l)) (trim_end-bracket (91 ∷ t))
    ∙ ap (other_line r (91 ∷ (t ++ 93 ∷ []))) (up_to_bracket_lem t)

abbrev IsDetail : Text → Type 0
IsDetail l = is_detail l ≡ true

append-All : (xs ys : List Text) → All IsDetail xs → All IsDetail ys → All IsDetail (xs ++ ys)
append-All [] ys h h' = h'
append-All (x ∷ xs) ys h h' = (h.0, append-All xs ys h.1 h')

provides-IsDetail : (ts : List Text) → All IsDetail (provides_line ts)
unfolding is_whitespace
provides-IsDetail [] = tt
provides-IsDetail (t ∷ ts) = (refl, tt)

runtime-IsDetail : (o : Option Text) → All IsDetail (optional_line (codes "requires_runtime") o)
unfolding is_whitespace
runtime-IsDetail none = tt
runtime-IsDetail (some t) = (refl, tt)

profile-IsDetail : (o : Option Text) → All IsDetail (optional_line (codes "kernel_profile") o)
unfolding is_whitespace
profile-IsDetail none = tt
profile-IsDetail (some t) = (refl, tt)

default-IsDetail : (b : Bool) → All IsDetail (default_line b)
unfolding is_whitespace
default-IsDetail true = (refl, tt)
default-IsDetail false = tt

-- every line of a section but its first
detail_lines-IsDetail :
    (s : Section) → All IsDetail ((codes "version = " ++ in_quotes s.1.version) ∷ detail_lines s.1)
unfolding is_whitespace
detail_lines-IsDetail s =
    let meta = s.1 in
    let defaults = default_line meta.default ++ [] ∷ [] in
    let profiles = optional_line (codes "kernel_profile") meta.kernel_profile in
    let runtimes = optional_line (codes "requires_runtime") meta.requires_runtime in
    (
      refl,
      (
        refl,
        append-All (provides_line meta.provides) (runtimes ++ (profiles ++ defaults))
            (provides-IsDetail meta.provides)
            (append-All runtimes (profiles ++ defaults) (runtime-IsDetail meta.requires_runtime) (
              append-All profiles defaults (profile-IsDetail meta.kernel_profile) (
                append-All (default_line meta.default) ([] ∷ []) (default-IsDetail meta.default)
                  (refl, tt)))),
      ),
    )

-- a section under a key that `add_layer` makes
abbrev IsKeyed : Section → Type 0
IsKeyed s = (t : LayerType) × (name : Text) × (s.0 ≡ key t name)

read_lines-sections :
    (r : Reader) (ss : List Section) → All IsKeyed ss → (read_lines r (all_lines ss)).0 ≡ r.0
unfolding read_lines
read_lines-sections r [] h = refl
read_lines-sections r (s ∷ ss) h =
    let section : Reader = (r.0, in_quotes s.0) in
    let inert : IsInert (in_quotes s.0) = inr (h.0.0, h.0.1, ap in_quotes h.0.2) in
    let details = (codes "version = " ++ in_quotes s.1.version) ∷ detail_lines s.1 in
    ap (λ q. (read_lines q (details ++ all_lines ss)).0) (read_line-section r (in_quotes s.0))
    ∙ ap (λ q. q.0)
        (read_lines-details section details (all_lines ss) inert (detail_lines-IsDetail s))
    ∙ read_lines-sections section ss h.1

place-keeps :
    (s : Section) (ss : List Section) → IsKeyed s → All IsKeyed ss → All IsKeyed (place s ss)
place-keeps s [] h h' = (h, tt)
place-keeps s (t ∷ ts) h h' = elim (Bool-cases (section_leb s t)) [
  | inl first ↦ rw first (h, h')
  | inr later ↦ rw later (h'.0, place-keeps s ts h h'.1)
]

sort-keeps : (ss : List Section) → All IsKeyed ss → All IsKeyed (sort ss)
sort-keeps [] h = tt
sort-keeps (s ∷ ss) h = place-keeps s (sort ss) h.0 (sort-keeps ss h.1)

entries-IsKeyed :
    (k : Text) (metas : List LayerMetadata) (more : List Section)
    → (t : LayerType) × (name : Text) × (k ≡ key t name)
    → All IsKeyed more
    → All IsKeyed (entries_of k metas ++ more)
entries-IsKeyed k [] more h h' = h'
entries-IsKeyed k (m ∷ metas) more h h' = (h, entries-IsKeyed k metas more h h')

abbrev pub HasKeys : Map (List LayerMetadata) → Type 0
HasKeys index = All (λ e. (t : LayerType) × (name : Text) × (e.0 ≡ key t name)) index

sections-IsKeyed : (index : Map (List LayerMetadata)) → HasKeys index → All IsKeyed (sections index)
sections-IsKeyed [] h = tt
sections-IsKeyed ((k, metas) ∷ index) h =
    entries-IsKeyed k metas (sections index) h.0 (sections-IsKeyed index h.1)

-- What a registry writes, where its keys are those of `add_layer` and no text in it has a line break, adds no layer to
-- the registry that reads it.
pub parse-serialize :
    (reg target : LayerRegistry)
    → HasKeys reg.index
    → All IsLine (registry_lines reg)
    → parse_registry_toml target (serialize_registry_toml reg) ≡ target
unfolding parse_registry_toml serialize_registry_toml is_whitespace
parse-serialize reg target keyed plain =
    let ss = sort (sections reg.index) in
    let comments : List Text =
      codes "# TinyMachine Layer Registry"
      ∷ codes "# Auto-generated by layer_registry.rs"
      ∷ []
      ∷ [] in
    ap (λ ls. (read_lines (target, []) ls).0)
      (lines-join_lines (codes "# TinyMachine Layer Registry")
        (codes "# Auto-generated by layer_registry.rs" ∷ [] ∷ all_lines ss) plain)
    ∙ ap (λ q. q.0)
        (read_lines-details (target, []) comments (all_lines ss) (inl refl)
          (refl, (refl, (refl, tt))))
    ∙ read_lines-sections (target, []) ss
        (sort-keeps (sections reg.index) (sections-IsKeyed reg.index keyed))
