-- ===== src/Composer/Conflicts.antt =====
-- When `conflict_check` of tinymachine-fork/src/composer.rs accepts the layers.
use tinymachine.Common.{
  ◌≡◌, ◌↔◌, refl, sym, ap, ◌∙◌, inl, inr, Bool, true, false, not, ◌||◌, ◌&&◌, Bool-cases, Option,
  none, some, List, [], ◌∷◌, ◌++◌, Text, text_eq, text_eq_sound, Result, ok, err,
}
use tinymachine.Common.Maps.{lookup, lookup-insert}
use tinymachine.Composer.{
  LayerRef, display, ConflictError, Seen, see, see_files, see_listing, see_layers, verdict,
  conflict_check,
}

unfoldable pub contains : Text → List Text → Bool
contains file [] = false
contains file (f ∷ fs) = text_eq f file || contains file fs

-- No file stands twice in the list or is among those before it.
unfoldable pub new_among : List Text → List Text → Bool
unfolding contains
new_among before [] = true
new_among before (f ∷ fs) = let rest = new_among (f ∷ before) fs in not (contains f before) && rest

unfoldable pub listed : {E : Type 0} → Result E (List Text) → List Text
listed (ok files) = files
listed (err e) = []

module _ {E : Type 0} (list_cpio_files : Text → Result E (List Text)) where
  -- the files of all layers that can be listed, one layer after the other
  unfoldable pub all_listed : List LayerRef → List Text
  unfolding listed
  all_listed [] = []
  all_listed (layer ∷ layers) = listed (list_cpio_files layer.layer_path) ++ all_listed layers

abbrev is_some : Option Text → Bool
is_some none = false
is_some (some t) = true

-- The files seen are those before, and no conflict was found where `fine`.
record Stands (s : Seen) (before : List Text) (fine : Bool) : Type 0 where
  files : (f : Text) → is_some (lookup f s.all_files) ≡ contains f before
  clean : (s.conflicts ≡ []) ↔ (fine ≡ true)

pushed : List Text → List Text → List Text
pushed [] before = before
pushed (f ∷ fs) before = pushed fs (f ∷ before)

and_assoc : (a b c : Bool) → ((a && b) && c) ≡ (a && (b && c))
and_assoc true b c = refl
and_assoc false b c = refl

and_true : (a : Bool) → (a && true) ≡ a
and_true true = refl
and_true false = refl

not_both : (a b : Bool) → b ≡ true → (a && not b) ≡ true → ⊥
not_both true true e h = cc
not_both true false e h = cc
not_both false b e h = cc

not_nil : (cs : List ConflictError) (c : ConflictError) → cs ++ c ∷ [] ≡ [] → ⊥
not_nil [] c e = cc
not_nil (x ∷ xs) c e = cc

or_known :
    (f g : Text) (before : List Text)
    → contains f before ≡ true
    → contains g (f ∷ before) ≡ contains g before
unfolding contains
or_known f g before known = elim (Bool-cases (text_eq f g)) [
  | inl e ↦ rw e (sym known ∙ ap (λ h. contains h before) (text_eq_sound f g e))
  | inr ne ↦ rw ne
]

see-Stands :
    (shown : Text) (s : Seen) (file : Text) (before : List Text) (fine : Bool) (found : Option Text)
    → lookup file s.all_files ≡ found
    → Stands s before fine
    → Stands (see shown s file found) (file ∷ before) (fine && not (contains file before))
unfolding see contains
see-Stands shown s file before fine none e st =
    let absent : contains file before ≡ false = sym (st.files file) ∙ ap is_some e in
    record {
      files = λ g. rw lookup-insert (elim (Bool-cases (text_eq file g)) [
        | inl same ↦ rw same
        | inr other ↦ rw other (st.files g)
      ]);
      clean = rw (absent, and_true) st.clean;
    }
see-Stands shown s file before fine (some layer) e st =
    let known : contains file before ≡ true = sym (st.files file) ∙ ap is_some e in
    record {
      files = λ g. st.files g ∙ sym (or_known file g before known);
      clean = (
        λ h. absurd (not_nil s.conflicts _ h),
        λ h. absurd (not_both fine (contains file before) known h),
      );
    }

see_files-Stands :
    (shown : Text) (s : Seen) (files before : List Text) (fine : Bool)
    → Stands s before fine
    → Stands (see_files shown s files) (pushed files before) (fine && new_among before files)
unfolding see_files new_among pushed
see_files-Stands shown s [] before fine st = rw and_true st
see_files-Stands shown s (f ∷ fs) before fine st = rw and_assoc at (
    see_files-Stands shown (see shown s f (lookup f s.all_files)) fs (f ∷ before)
      (fine && not (contains f before))
      (see-Stands shown s f before fine (lookup f s.all_files) refl st))

new_among-append :
    (before xs ys : List Text)
    → new_among before (xs ++ ys) ≡ (new_among before xs && new_among (pushed xs before) ys)
unfolding new_among pushed
new_among-append before [] ys = refl
new_among-append before (x ∷ xs) ys = rw (new_among-append (x ∷ before) xs ys) (
    sym (
      and_assoc (not (contains x before)) (new_among (x ∷ before) xs)
        (new_among (pushed xs (x ∷ before)) ys)))

verdict_lem : (cs : List ConflictError) → (verdict cs ≡ ok tt) ↔ (cs ≡ [])
unfolding verdict
verdict_lem [] = (λ _. refl, λ _. refl)
verdict_lem (c ∷ cs) = (λ h. absurd (cc), λ h. absurd (cc))

module _ {E : Type 0} (list_cpio_files : Text → Result E (List Text)) where
  see_listing-Stands :
      (shown : Text) (s : Seen) (listing : Result E (List Text)) (before : List Text) (fine : Bool)
      → Stands s before fine
      → Stands
          (see_listing shown s listing)
          (pushed (listed listing) before)
          (fine && new_among before (listed listing))
  unfolding see_listing listed pushed new_among
  see_listing-Stands shown s (ok files) before fine st =
      see_files-Stands shown s files before fine st
  see_listing-Stands shown s (err e) before fine st = rw and_true st

  see_layers-clean :
      (s : Seen) (layers : List LayerRef) (before : List Text) (fine : Bool)
      → Stands s before fine
      → ((see_layers list_cpio_files s layers).conflicts ≡ [])
        ↔ ((fine && new_among before (all_listed list_cpio_files layers)) ≡ true)
  unfolding see_layers all_listed new_among
  see_layers-clean s [] before fine st = rw and_true st.clean
  see_layers-clean s (layer ∷ layers) before fine st =
      let listing = list_cpio_files layer.layer_path in
      rw (new_among-append before (listed listing) (all_listed list_cpio_files layers), ← and_assoc)
        (see_layers-clean (see_listing (display layer) s listing) layers
          (pushed (listed listing) before) (fine && new_among before (listed listing))
          (see_listing-Stands (display layer) s listing before fine st))

  -- `conflict_check` accepts the layers exactly where no path stands twice among the files of the
  -- layers that can be listed.
  pub conflict_check_lem :
      (layers : List LayerRef)
      → (conflict_check list_cpio_files layers ≡ ok tt)
        ↔ (new_among [] (all_listed list_cpio_files layers) ≡ true)
  unfolding conflict_check lookup contains
  conflict_check_lem layers =
      let start : Seen = record { all_files = []; conflicts = [] } in
      let clean =
        see_layers-clean start layers [] true
          (record { files = λ f. refl; clean = (λ _. refl, λ _. refl) }) in
      let (to, from) = verdict_lem (see_layers list_cpio_files start layers).conflicts in
      (λ h. clean.0 (to h), λ h. from (clean.1 h))
