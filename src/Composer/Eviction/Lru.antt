-- ===== src/Composer/Eviction/Lru.antt =====
-- What eviction from the composition cache leaves, in tinymachine-fork/src/composer.rs.
use tinymachine.Common.{
  ℕ, ◌+◌, ◌-◌, ◌≤◌, ◌<◌, ◌≡◌, refl, ◌∙◌, inl, inr, Bool, Bool-cases, List, [], ◌∷◌, leb,
  if◌then◌else◌, Text, arith,
}
use tinymachine.Composer.Eviction.{
  CacheEntry, Outcome, total_size, insert, sort, max_bytes, evict, enforce_max_size,
}

total_size-insert :
    (e : CacheEntry) (es : List CacheEntry) → total_size (insert e es) ≡ e.size + total_size es
unfolding total_size insert
total_size-insert e [] = refl
total_size-insert e (f ∷ fs) = elim (Bool-cases (leb e.last_access f.last_access)) [
  | inl le ↦ rw le
  | inr gt ↦ rw gt (omega (arith, total_size-insert e fs))
]

total_size-sort : (es : List CacheEntry) → total_size (sort es) ≡ total_size es
unfolding total_size sort
total_size-sort [] = refl
total_size-sort (e ∷ es) = omega (arith, total_size-insert e (sort es), total_size-sort es)

-- every entry of the list was last used at `t` or later
abbrev pub NotBefore : ℕ → List CacheEntry → Type 0
NotBefore t [] = Unit {0}
NotBefore t (e ∷ es) = (t ≤ e.last_access) × NotBefore t es

-- no entry of the first list was used after one of the second
abbrev pub OlderThan : List CacheEntry → List CacheEntry → Type 0
OlderThan [] kept = Unit {0}
OlderThan (e ∷ es) kept = NotBefore e.last_access kept × OlderThan es kept

abbrev IsSorted : List CacheEntry → Type 0
IsSorted [] = Unit {0}
IsSorted (e ∷ es) = NotBefore e.last_access es × IsSorted es

NotBefore-le : (s t : ℕ) (es : List CacheEntry) → s ≤ t → NotBefore t es → NotBefore s es
NotBefore-le s t [] le h = tt
NotBefore-le s t (e ∷ es) le (h, hs) = (omega arith, NotBefore-le s t es le hs)

insert-NotBefore :
    (t : ℕ) (e : CacheEntry) (es : List CacheEntry)
    → t ≤ e.last_access
    → NotBefore t es
    → NotBefore t (insert e es)
unfolding insert
insert-NotBefore t e [] le h = (le, tt)
insert-NotBefore t e (f ∷ fs) le (h, hs) = elim (Bool-cases (leb e.last_access f.last_access)) [
  | inl below ↦ rw below (le, (h, hs))
  | inr above ↦ rw above (h, insert-NotBefore t e fs le hs)
]

insert-IsSorted : (e : CacheEntry) (es : List CacheEntry) → IsSorted es → IsSorted (insert e es)
unfolding insert
insert-IsSorted e [] s = (tt, tt)
insert-IsSorted e (f ∷ fs) (h, hs) = elim (Bool-cases (leb e.last_access f.last_access)) [
  | inl below ↦
      rw below
        ((ground arith, NotBefore-le e.last_access f.last_access fs (ground arith) h), (h, hs))
  | inr above ↦
      rw above (insert-NotBefore f.last_access e fs (ground arith) h, insert-IsSorted e fs hs)
]

sort-IsSorted : (es : List CacheEntry) → IsSorted (sort es)
unfolding sort
sort-IsSorted [] = tt
sort-IsSorted (e ∷ es) = insert-IsSorted e (sort es) (sort-IsSorted es)

module _ (removes : Text → Bool) where
  -- the entries of a list whose removal fails
  abbrev pub stuck : List CacheEntry → List CacheEntry
  stuck [] = []
  stuck (e ∷ es) = if removes e.dir then stuck es else e ∷ stuck es

  -- The entries kept fit, no entry that is to be removed was used after one that is kept, and what is left
  -- has the bytes of those kept and of those whose removal failed.
  abbrev pub IsLru : ℕ → Outcome → Type 0
  IsLru limit o =
      (total_size o.kept ≤ limit)
      × OlderThan o.tried o.kept
      × (total_size o.left ≡ total_size (stuck o.tried) + total_size o.kept)

  evict-NotBefore :
      (t limit current : ℕ) (es : List CacheEntry)
      → NotBefore t es
      → NotBefore t (evict removes limit current es).kept
  unfolding evict
  evict-NotBefore t m current [] h = tt
  evict-NotBefore t m current (e ∷ es) (h, hs) = elim (Bool-cases (leb current m)) [
    | inl fits ↦ rw fits (h, hs)
    | inr over ↦ rw over (evict-NotBefore t m (current - e.size) es hs)
  ]

  evict-IsLru :
      (limit current : ℕ) (es : List CacheEntry)
      → total_size es ≡ current
      → IsSorted es
      → IsLru limit (evict removes limit current es)
  unfolding evict total_size
  evict-IsLru m current [] e s = (omega arith, tt, omega arith)
  evict-IsLru m current (x ∷ es) e (h, hs) = elim (Bool-cases (leb current m)) [
    | inl fits ↦ rw fits (ground arith, tt, omega arith)
    | inr over ↦
        let (small, older, sizes) = evict-IsLru m (current - x.size) es (omega arith) hs in
        rw over (
          small,
          (evict-NotBefore x.last_access m (current - x.size) es h, older),
          ground (arith, sizes),
        )
  ]

  -- Whatever the cache holds and whichever removals fail, the entries that `enforce_max_size` does not try to
  -- remove have no more bytes than the limit, and none of those it tries was used after one of them. What is
  -- left in the cache has the bytes of those entries and of the ones whose removal failed.
  pub enforce_max_size-IsLru :
      (max_size_gb : ℕ) (entries : List CacheEntry)
      → IsLru (max_bytes max_size_gb) (enforce_max_size removes max_size_gb entries)
  unfolding enforce_max_size total_size
  enforce_max_size-IsLru gb entries = elim (Bool-cases (leb (total_size entries) (max_bytes gb))) [
    | inl fits ↦ rw fits (ground arith, tt, omega arith)
    | inr over ↦ rw over (
        evict-IsLru _ (total_size entries) (sort entries) (total_size-sort entries)
          (sort-IsSorted entries))
  ]

-- With the last entry that is to be removed, the entries kept would not fit.
abbrev pub IsNeeded : ℕ → List CacheEntry → List CacheEntry → Type 0
IsNeeded limit [] kept = Unit {0}
IsNeeded limit (e ∷ []) kept = limit < e.size + total_size kept
IsNeeded limit (e ∷ f ∷ es) kept = IsNeeded limit (f ∷ es) kept

before-IsNeeded :
    (m : ℕ) (x : CacheEntry) (tried kept : List CacheEntry)
    → m < x.size + (total_size tried + total_size kept)
    → IsNeeded m tried kept
    → IsNeeded m (x ∷ tried) kept
unfolding total_size
before-IsNeeded m x [] kept lt h = omega arith
before-IsNeeded m x (f ∷ fs) kept lt h = h

module _ (removes : Text → Bool) where
  total_size-evict :
      (limit current : ℕ) (es : List CacheEntry)
      → total_size (evict removes limit current es).tried
          + total_size (evict removes limit current es).kept
        ≡ total_size es
  unfolding evict total_size
  total_size-evict m current [] = refl
  total_size-evict m current (e ∷ es) = elim (Bool-cases (leb current m)) [
    | inl fits ↦ rw fits (omega arith)
    | inr over ↦ rw over (omega (arith, total_size-evict m (current - e.size) es))
  ]

  evict-IsNeeded :
      (limit current : ℕ) (es : List CacheEntry)
      → total_size es ≡ current
      → IsNeeded limit (evict removes limit current es).tried (evict removes limit current es).kept
  unfolding evict total_size
  evict-IsNeeded m current [] e = tt
  evict-IsNeeded m current (x ∷ es) e = elim (Bool-cases (leb current m)) [
    | inl fits ↦ rw fits tt
    | inr over ↦
        let rest = evict removes m (current - x.size) es in
        rw over (
          before-IsNeeded m x rest.tried rest.kept
            (ground (arith, total_size-evict m (current - x.size) es))
            (evict-IsNeeded m (current - x.size) es (omega arith)))
  ]

  -- `enforce_max_size` tries to remove no more than it must: with the last entry that it tries, what it keeps
  -- would be over the limit. The bytes of those tried and of those kept add up to what was there.
  pub enforce_max_size-IsNeeded :
      (max_size_gb : ℕ) (entries : List CacheEntry)
      → IsNeeded
          (max_bytes max_size_gb)
          (enforce_max_size removes max_size_gb entries).tried
          (enforce_max_size removes max_size_gb entries).kept
        × (total_size (enforce_max_size removes max_size_gb entries).tried
              + total_size (enforce_max_size removes max_size_gb entries).kept
            ≡ total_size entries)
  unfolding enforce_max_size total_size
  enforce_max_size-IsNeeded gb entries =
      elim (Bool-cases (leb (total_size entries) (max_bytes gb))) [
        | inl fits ↦ rw fits (tt, omega arith)
        | inr over ↦ rw over (
          evict-IsNeeded _ (total_size entries) (sort entries) (total_size-sort entries),
          total_size-evict _ (total_size entries) (sort entries) ∙ total_size-sort entries,
        )
      ]
