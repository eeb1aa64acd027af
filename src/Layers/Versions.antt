-- ===== src/Layers/Versions.antt =====
-- The latest version of a layer, in tinymachine-fork/src/layer_registry.rs.
use tinymachine.Common.{
  ◌≡◌, ◌⊎◌, inl, inr, refl, ap, sym, ◌∙◌, Bool-cases, true, false, some, List, [], ◌∷◌, ◌++◌, map,
  Some, Text, text_eq, text_eq_iff, text_eq_sound, ok, arith,
}
use tinymachine.Common.Maps.{Map}
use tinymachine.Layers.{
  LayerRegistry, LayerMetadata, latest, find, filter, all_metas, map_metas, set_default,
  update_latest, resolve_version,
}

map-append :
    (f : LayerMetadata → LayerMetadata) (xs ys : List LayerMetadata)
    → map f (xs ++ ys) ≡ map f xs ++ map f ys
map-append f [] ys = refl
map-append f (x ∷ xs) ys = ap (λ l. f x ∷ l) (map-append f xs ys)

all_metas-map_metas :
    (f : LayerMetadata → LayerMetadata) (index : Map (List LayerMetadata))
    → all_metas (map_metas f index) ≡ map f (all_metas index)
all_metas-map_metas f [] = refl
all_metas-map_metas f ((k, metas) ∷ index) =
    ap (λ l. map f metas ++ l) (all_metas-map_metas f index)
    ∙ sym (map-append f metas (all_metas index))

-- the entries of a name after a change of its latest version
abbrev marked : Text → Text → List LayerMetadata → List LayerMetadata
marked name version metas = filter (λ m. text_eq m.name name) (map (set_default name version) metas)

abbrev pub IsVersion : Text → Text → LayerMetadata → Type 0
IsVersion name version m = (m.name ≡ name) × (m.version ≡ version)

elsewhere : {A B : Type 0} → A ⊎ B → (A → ⊥) → B
elsewhere (inl a) h = absurd (h a)
elsewhere (inr b) h = b

is_equal : (s t : Text) → s ≡ t → text_eq s t ≡ false → ⊥
is_equal s t e h = ground (arith, text_eq_iff s t, e, h)

marked_found :
    (name version : Text) (metas : List LayerMetadata)
    → Some (IsVersion name version) metas
    → (m : LayerMetadata) × (find (λ m. m.default) (marked name version metas) ≡ some m)
      × (m.version ≡ version)
marked_found name version [] h = absurd h
marked_found name version (x ∷ metas) h = elim (Bool-cases (text_eq x.name name)) [
  | inl named ↦ elim (Bool-cases (text_eq x.version version)) [
    | inl at ↦
        rw (named, named, at)
          (record x { default = true }, refl, text_eq_sound x.version version at)
    | inr other ↦
        rw (named, named, other)
          (marked_found name version metas
            (elsewhere h (λ v. is_equal x.version version v.1 other)))
  ]
  | inr apart ↦
      rw (apart, apart)
        (marked_found name version metas (elsewhere h (λ v. is_equal x.name name v.0 apart)))
]

-- After a version of a layer has been made the latest, where some entry has that name and that version, it is
-- what the constraint `latest` resolves to.
pub resolve_version-update_latest :
    (reg : LayerRegistry) (name version : Text)
    → Some (IsVersion name version) (all_metas reg.index)
    → resolve_version (update_latest reg name version) name latest ≡ ok version
unfolding resolve_version update_latest
resolve_version-update_latest reg name version h =
    let found = marked_found name version (all_metas reg.index) h in
    rw (all_metas-map_metas (set_default name version) reg.index, found.1) (ap (λ v. ok v) found.2)
