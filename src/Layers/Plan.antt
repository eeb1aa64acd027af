-- ===== src/Layers/Plan.antt =====
-- What a plan of `LayerRegistry::resolve`, in tinymachine-fork/src/layer_registry.rs, holds.
use tinymachine.Common.{
  ℕ, max, ◌≤◌, ◌≡◌, inl, inr, refl, ap, sym, ◌∙◌, subst, Bool, Bool-cases, true, false, ◌||◌,
  if◌then◌else◌, List, [], ◌∷◌, ◌++◌, any, All, Text, text_eq, text_eq_refl, text_eq_symm, Result,
  ok, bind_ok, Result-cases, arith,
}
use tinymachine.Common.Maps.{lookup}
use tinymachine.Composer.{LayerType, LayerRef, display}
use tinymachine.Layers.{
  LayerRegistry, VersionConstraint, exact, latest, key, find, or_error, get_layer, resolve_version,
  find_layer_by_import, resolve_import, metadata_for_layer,
}
use tinymachine.Layers.Resolve.{
  names, add_ref, add_found, add_imports, add_deps, memory_of, memory_from,
}

-- a reference that the registry gives for the layer that it names
abbrev pub IsRegistered : LayerRegistry → LayerRef → Type 0
IsRegistered reg r = get_layer reg r.layer_type r.name r.version ≡ ok r

abbrev pub includes : List LayerRef → LayerRef → Bool
includes refs r = any (λ q. text_eq (display q) (display r)) refs

-- no two references are displayed the same
abbrev pub IsDistinct : List LayerRef → Type 0
IsDistinct [] = Unit
IsDistinct (r ∷ refs) = (includes refs r ≡ false) × IsDistinct refs

-- the layers begin with these two, are all registered, and none stands there twice
abbrev pub IsLaid : LayerRegistry → LayerRef → LayerRef → List LayerRef → Type 0
IsLaid reg b u refs =
    ((rest : List LayerRef) × (refs ≡ b ∷ u ∷ rest)) × All (IsRegistered reg) refs × IsDistinct refs

pub same_value : {A : Type 0} {E : Type 0} (a b : A) (r : Result E A) → r ≡ ok a → r ≡ ok b → a ≡ b
same_value a b r e e' = cc

-- A reference has the type, the name and the version that it was asked for by.
pub get_layer_lem :
    (reg : LayerRegistry) (t : LayerType) (name version : Text) (r : LayerRef)
    → get_layer reg t name version ≡ ok r
    → (r.layer_type ≡ t) × (r.name ≡ name) × (r.version ≡ version)
unfolding get_layer
get_layer_lem reg t name version r h =
    let (metas, found, h') = bind_ok (or_error _ (lookup (key t name) reg.index)) _ r h in
    let (meta, found', h'') =
      bind_ok (or_error _ (find (λ m. text_eq m.version version) metas)) _ r h' in
    let same = same_value _ r _ refl h'' in
    (sym (ap (λ q. q.layer_type) same), sym (ap (λ q. q.name) same), sym (ap (λ q. q.version) same))

pub get_layer-IsRegistered :
    (reg : LayerRegistry) (t : LayerType) (name version : Text) (r : LayerRef)
    → get_layer reg t name version ≡ ok r
    → IsRegistered reg r
get_layer-IsRegistered reg t name version r h =
    let (kind, called, at) = get_layer_lem reg t name version r h in
    ap (λ x. get_layer reg x r.name r.version) kind
    ∙ ap (λ x. get_layer reg t x r.version) called
    ∙ ap (get_layer reg t name) at
    ∙ h

resolve_import-IsRegistered :
    (reg : LayerRegistry) (lang name : Text) (v : VersionConstraint) (r : LayerRef)
    → resolve_import reg lang name v ≡ ok r
    → IsRegistered reg r
unfolding resolve_import
resolve_import-IsRegistered reg lang name v r h =
    let (found, e, h') = bind_ok (find_layer_by_import reg lang name) _ r h in
    let (version, e', h'') = bind_ok (resolve_version reg found.1 v) _ r h' in
    get_layer-IsRegistered reg found.0 found.1 version r h''

-- a reference behind the others
includes-append :
    (refs : List LayerRef) (r q : LayerRef)
    → includes (refs ++ r ∷ []) q ≡ (includes refs q || text_eq (display r) (display q))
includes-append [] r q = ground arith
includes-append (x ∷ refs) r q = ground (arith, includes-append refs r q)

IsDistinct-append :
    (refs : List LayerRef) (r : LayerRef)
    → includes refs r ≡ false
    → IsDistinct refs
    → IsDistinct (refs ++ r ∷ [])
IsDistinct-append [] r new h = (refl, tt)
IsDistinct-append (x ∷ refs) r new h =
    let apart : text_eq (display x) (display r) ≡ false = ground (arith, new) in
    (
      includes-append refs r x ∙ ground (arith, h.0, text_eq_symm (display x) (display r) apart),
      IsDistinct-append refs r (ground (arith, new)) h.1,
    )

All-append_one :
    (reg : LayerRegistry) (refs : List LayerRef) (r : LayerRef)
    → All (IsRegistered reg) refs
    → IsRegistered reg r
    → All (IsRegistered reg) (refs ++ r ∷ [])
All-append_one reg [] r h h' = (h', tt)
All-append_one reg (x ∷ refs) r h h' = (h.0, All-append_one reg refs r h.1 h')

add_ref-IsLaid :
    (reg : LayerRegistry) (b u : LayerRef) (refs : List LayerRef) (r : LayerRef)
    → IsRegistered reg r
    → IsLaid reg b u refs
    → IsLaid reg b u (add_ref refs r)
unfolding add_ref
add_ref-IsLaid reg b u refs r known h = elim (Bool-cases (includes refs r)) [
  | inl there ↦ rw there h
  | inr new ↦ rw new (
    (h.0.0 ++ r ∷ [], ap (λ l. l ++ r ∷ []) h.0.1),
    All-append_one reg refs r h.1 known,
    IsDistinct-append refs r new h.2,
  )
]

add_ref-keeps :
    (refs : List LayerRef) (r q : LayerRef)
    → includes refs q ≡ true
    → includes (add_ref refs r) q ≡ true
unfolding add_ref
add_ref-keeps refs r q h = elim (Bool-cases (includes refs r)) [
  | inl there ↦ rw there h
  | inr new ↦ rw new (includes-append refs r q ∙ ground (arith, h))
]

add_ref-includes : (refs : List LayerRef) (r : LayerRef) → includes (add_ref refs r) r ≡ true
unfolding add_ref
add_ref-includes refs r = elim (Bool-cases (includes refs r)) [
  | inl there ↦ rw there there
  | inr new ↦ rw new (includes-append refs r r ∙ ground (arith, text_eq_refl (display r)))
]

pub add_imports-IsLaid :
    (reg : LayerRegistry) (lang : Text) (deps : List (Text × Text)) (b u : LayerRef)
    (refs : List LayerRef) (imports : List Text)
    → IsLaid reg b u refs
    → IsLaid reg b u (add_imports reg lang deps refs imports)
unfolding add_imports
add_imports-IsLaid reg lang deps b u refs [] h = h
add_imports-IsLaid reg lang deps b u refs (name ∷ imports) h =
    add_imports-IsLaid reg lang deps b u
      (if names name deps then refs else add_found refs (resolve_import reg lang name latest))
      imports
      (elim (Bool-cases (names name deps)) [
        | inl asked ↦ rw asked h
        | inr other ↦ rw other (elim (Result-cases (resolve_import reg lang name latest)) [
          | inl (r, found) ↦ rw found (
              add_ref-IsLaid reg b u refs r
                (resolve_import-IsRegistered reg lang name latest r found) h)
          | inr (e, missing) ↦ rw missing h
        ])
      ])

-- the layer of a dependency, with the version that was asked for, is among these
abbrev pub IsMet : LayerRegistry → Text → List LayerRef → Text × Text → Type 0
IsMet reg lang refs dep =
    (r : LayerRef) × (resolve_import reg lang dep.0 (exact dep.1) ≡ ok r) × (includes refs r ≡ true)

add_deps-keeps :
    (reg : LayerRegistry) (lang : Text) (refs final : List LayerRef) (deps : List (Text × Text))
    (q : LayerRef)
    → add_deps reg lang refs deps ≡ ok final
    → includes refs q ≡ true
    → includes final q ≡ true
unfolding add_deps
add_deps-keeps reg lang refs final [] q e h =
    let same = same_value refs final _ refl e in ap (λ l. includes l q) (sym same) ∙ h
add_deps-keeps reg lang refs final (dep ∷ deps) q e h =
    let (r, found, e') = bind_ok (resolve_import reg lang dep.0 (exact dep.1)) _ final e in
    add_deps-keeps reg lang (add_ref refs r) final deps q e' (add_ref-keeps refs r q h)

pub add_deps_lem :
    (reg : LayerRegistry) (lang : Text) (b u : LayerRef) (refs final : List LayerRef)
    (deps : List (Text × Text))
    → add_deps reg lang refs deps ≡ ok final
    → IsLaid reg b u refs
    → IsLaid reg b u final × All (IsMet reg lang final) deps
unfolding add_deps
add_deps_lem reg lang b u refs final [] e h =
    (subst (IsLaid reg b u) (same_value refs final _ refl e) h, tt)
add_deps_lem reg lang b u refs final (dep ∷ deps) e h =
    let (r, found, e') = bind_ok (resolve_import reg lang dep.0 (exact dep.1)) _ final e in
    let known = resolve_import-IsRegistered reg lang dep.0 (exact dep.1) r found in
    let rest =
      add_deps_lem reg lang b u (add_ref refs r) final deps e'
        (add_ref-IsLaid reg b u refs r known h) in
    (
      rest.0,
      (
        (
          r,
          found,
          add_deps-keeps reg lang (add_ref refs r) final deps r e' (add_ref-includes refs r),
        ),
        rest.1,
      ),
    )

pub memory_from-le :
    (reg : LayerRegistry) (mem : ℕ) (refs : List LayerRef)
    → (mem ≤ memory_from reg mem refs)
      × All (λ r. memory_of (metadata_for_layer reg r) ≤ memory_from reg mem refs) refs
unfolding memory_from
memory_from-le reg mem [] = (omega arith, tt)
memory_from-le reg mem (r ∷ refs) =
    let needed = memory_of (metadata_for_layer reg r) in
    let rest = memory_from-le reg (max mem needed) refs in
    (omega (arith, rest.0), (omega (arith, rest.0), rest.1))
