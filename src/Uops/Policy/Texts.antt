-- ===== src/Uops/Policy/Texts.antt =====
-- What the tests of domains and paths in `PolicyEngine::check` of tinymachine-fork/src/uops.rs find.
use tinymachine.Common.{
  ◌-◌, ◌≡◌, ◌↔◌, refl, sym, ap, ◌∙◌, true, leb, List, [], ◌∷◌, ◌++◌, Text, text_eq_sound,
  text_eq_refl, length, length-append, take, drop, take-append-drop, arith,
}
use tinymachine.Uops.Policy.{ends_with, same_parts, starts_with}

drop-append : (xs ys : Text) → drop (length xs) (xs ++ ys) ≡ ys
drop-append [] ys = refl
drop-append (x ∷ xs) ys = drop-append xs ys

pub ends_with_lem : (s t : Text) → (ends_with s t ≡ true) ↔ ((front : Text) × (s ≡ front ++ t))
unfolding ends_with
ends_with_lem s t = (
  (λ h.
      let tail : drop (length s - length t) s ≡ t = text_eq_sound _ _ (ground (arith, h)) in
      (
        take (length s - length t) s,
        sym (
            ap (λ l. take (length s - length t) s ++ l) (sym tail)
            ∙ take-append-drop (length s - length t) s),
      )),
  λ (front, e).
      let skipped : length (front ++ t) - length t ≡ length front =
        omega (arith, length-append front t) in
      let fits : leb (length t) (length (front ++ t)) ≡ true =
        ground (arith, length-append front t) in
      rw (e, fits, skipped, drop-append front t) (text_eq_refl t),
)

pub starts_with_lem :
    (ps qs : List Text) → (starts_with ps qs ≡ true) ↔ ((rest : List Text) × (ps ≡ qs ++ rest))
unfolding starts_with
starts_with_lem ps [] = ((λ h. (ps, refl)), λ h. refl)
starts_with_lem [] (q ∷ qs) =
    ((λ h. absurd (ground arith)), λ (rest, e). absurd (omega (arith, ap length e)))
starts_with_lem (p ∷ ps) (q ∷ qs) =
    let (forth, back) = starts_with_lem ps qs in
    (
      (λ h.
          let same : p ≡ q = text_eq_sound p q (ground (arith, h)) in
          let (rest, e) = forth (ground (arith, h)) in (rest, cc)),
      λ (rest, e).
          let same : p ≡ q = cc in
          let others : starts_with ps qs ≡ true = back (rest, cc) in
          rw (same, text_eq_refl q, others) refl,
    )

pub same_parts-starts_with :
    (ps qs : List Text) → same_parts ps qs ≡ true → starts_with ps qs ≡ true
unfolding same_parts starts_with
same_parts-starts_with [] [] h = refl
same_parts-starts_with [] (q ∷ qs) h = h
same_parts-starts_with (p ∷ ps) [] h = refl
same_parts-starts_with (p ∷ ps) (q ∷ qs) h = ground (arith, same_parts-starts_with ps qs)
