-- ===== src/Cache/Entries.antt =====
-- The table of the cache: its keys are distinct, and dropping what has expired hides nothing else.
use tinymachine.Common.{
  ℕ, ◌≤◌, ◌≡◌, refl, inl, inr, none, [], ◌∷◌, false, Bool-cases, Text, text_eq, text_eq_iff,
  text_eq_symm, length, arith,
}
use tinymachine.Common.Maps.{Map, lookup, insert, lookup-insert}
use tinymachine.Cache.{CacheEntry, is_expired, retain_live, fresh}

abbrev pub Distinct : Map CacheEntry → Type 0
Distinct [] = Unit {0}
Distinct ((k, e) ∷ m) = (lookup k m ≡ none) × Distinct m

lookup-retain_live-none :
    (k : Text) (now : ℕ) (m : Map CacheEntry)
    → lookup k m ≡ none
    → lookup k (retain_live now m) ≡ none
unfolding lookup retain_live
lookup-retain_live-none k now [] h = refl
lookup-retain_live-none k now ((j, e) ∷ m) h = ground (arith, lookup-retain_live-none k now m)

pub retain_live-Distinct :
    (now : ℕ) (m : Map CacheEntry) → Distinct m → Distinct (retain_live now m)
unfolding retain_live
retain_live-Distinct now [] d = tt
retain_live-Distinct now ((k, e) ∷ m) (absent, d) = elim (Bool-cases (is_expired e now)) [
  | inl old ↦ rw old (retain_live-Distinct now m d)
  | inr live ↦ rw live (lookup-retain_live-none k now m absent, retain_live-Distinct now m d)
]

lookup-insert-none :
    (k j : Text) (e : CacheEntry) (m : Map CacheEntry)
    → text_eq k j ≡ false
    → lookup j m ≡ none
    → lookup j (insert k e m) ≡ none
lookup-insert-none k j e m ne h = rw lookup-insert (rw (ne, h))

pub insert-Distinct :
    (k : Text) (e : CacheEntry) (m : Map CacheEntry) → Distinct m → Distinct (insert k e m)
unfolding insert lookup
insert-Distinct k e [] d = (refl, tt)
insert-Distinct k e ((j, x) ∷ m) (absent, d) = elim (Bool-cases (text_eq j k)) [
  | inl same ↦ rw same (rw (← (text_eq_iff j k).0 same) absent, d)
  | inr ne ↦
      rw ne (lookup-insert-none k j e m (text_eq_symm j k ne) absent, insert-Distinct k e m d)
]

-- With distinct keys, what is not expired is found after the expired entries are dropped, and at any
-- later time nothing else is.
pub fresh-retain_live :
    (k : Text) (now later : ℕ) (m : Map CacheEntry)
    → Distinct m
    → now ≤ later
    → fresh (lookup k (retain_live now m)) later ≡ fresh (lookup k m) later
unfolding lookup retain_live fresh is_expired
fresh-retain_live k now later [] d le = refl
fresh-retain_live k now later ((j, e) ∷ m) (absent, d) le =
    ground (
      arith,
      fresh-retain_live k now later m d le,
      text_eq_iff j k,
      lookup-retain_live-none k now m,
    )

pub length-retain_live-le : (now : ℕ) (m : Map CacheEntry) → length (retain_live now m) ≤ length m
unfolding retain_live
length-retain_live-le now [] = omega arith
length-retain_live-le now ((k, e) ∷ m) = ground (arith, length-retain_live-le now m)
