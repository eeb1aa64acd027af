-- ===== src/Cache/Laws.antt =====
-- What `get` finds after `set` and the calls that follow it, and the bound on the number of entries.
use mathlib.Core.List.{append_assoc}
use native.Mathlib.Nat.{le_trans}
use tinymachine.Common.{
  ℕ, ◌+◌, ◌≤◌, ◌≡◌, ◌↔◌, refl, ◌∙◌, sym, ap, inl, inr, some, none, List, [], ◌∷◌, ◌++◌, false,
  Bool-cases, Text, All, ltb, if◌then◌else◌, codes, text_eq, text_eq_refl, length, arith, leb, ok,
  err,
}
use tinymachine.Common.Maps.{lookup, lookup-insert, length-insert-le}
use tinymachine.Cache.{
  full, ExecutionCache, is_expired, retain_live, fresh, key, get, set, clear, evict_expired,
}
use tinymachine.Cache.Entries.{
  Distinct, retain_live-Distinct, insert-Distinct, fresh-retain_live, length-retain_live-le,
}

-- The keys of the table are distinct, and there are no more entries than the maximum.
pub record IsValid (c : ExecutionCache) : Type 0 where
  pub distinct : Distinct c.entries
  pub bounded : length c.entries ≤ c.max_entries

pub data Call : Type 0 where
  stores : (code lang result : Text) (now : ℕ) → Call
  evicts : (now : ℕ) → Call
  clears : Call

module _ (blake3 : Text → Text) where
  -- After a storing that succeeded, the result is found before its time to live has passed, and not after.
  get-set_self :
      (c : ExecutionCache) (code lang result : Text) (now later : ℕ)
      → (set blake3 c code lang result now).0 ≡ ok tt
      → now ≤ later
      → get blake3 (set blake3 c code lang result now).1 code lang later
        ≡ (if ltb later (now + c.default_ttl) then some result else none)
  unfolding get set fresh is_expired
  get-set_self c code lang result now later stored le =
      elim (Bool-cases (leb c.max_entries (length (retain_live now c.entries)))) [
        | inl no_room ↦ ground arith
        | inr room ↦ rw room (rw lookup-insert (rw text_eq_refl (ground arith)))
      ]

  -- In a table of distinct keys, storing or failing to store under one key does not change what a
  -- request with another key finds, then or later.
  get-set_other :
      (c : ExecutionCache) (code lang result code' lang' : Text) (now later : ℕ)
      → Distinct c.entries
      → text_eq (key blake3 code lang) (key blake3 code' lang') ≡ false
      → now ≤ later
      → get blake3 (set blake3 c code lang result now).1 code' lang' later
        ≡ get blake3 c code' lang' later
  unfolding get set
  get-set_other c code lang result code' lang' now later d ne le =
      elim (Bool-cases (leb c.max_entries (length (retain_live now c.entries)))) [
        | inl no_room ↦ rw no_room (fresh-retain_live _ now later c.entries d le)
        | inr room ↦
            rw room (rw lookup-insert (rw ne (fresh-retain_live _ now later c.entries d le)))
      ]

  -- `set` fails exactly where the entries that have not expired fill the cache, and exactly there its
  -- whole effect is to drop the expired ones. So it fails in a full cache also for a key that is there.
  set_full :
      (c : ExecutionCache) (code lang result : Text) (now : ℕ)
      → (((set blake3 c code lang result now).0 ≡ err (full c.max_entries))
          ↔ (c.max_entries ≤ length (retain_live now c.entries)))
        × ((set blake3 c code lang result now ≡ (err (full c.max_entries), (evict_expired c now).1))
            ↔ (c.max_entries ≤ length (retain_live now c.entries)))
  unfolding set evict_expired
  set_full c code lang result now =
      ((λ h. ground arith, λ h. ground arith), (λ h. ground arith, λ h. ground arith))

  -- The request for `middle:code` in the language `lang` and the one for `code` in the language
  -- `lang:middle` share an entry: `get` gives both the same answer.
  get_shared :
      (c : ExecutionCache) (lang middle code : Text) (now : ℕ)
      → get blake3 c (middle ++ (codes ":" ++ code)) lang now
        ≡ get blake3 c code (lang ++ (codes ":" ++ middle)) now
  unfolding get key
  get_shared c lang middle code now =
      ap (λ t. fresh (lookup (blake3 t) c.entries) now)
        (sym (append_assoc lang (codes ":" ++ middle) (codes ":" ++ code)))

  set-IsValid :
      (c : ExecutionCache) (code lang result : Text) (now : ℕ)
      → IsValid c
      → IsValid (set blake3 c code lang result now).1
  unfolding set
  set-IsValid c code lang result now v =
      let live = retain_live now c.entries in
      let d = retain_live-Distinct now c.entries v.distinct in
      let l = length-retain_live-le now c.entries in
      elim (Bool-cases (leb c.max_entries (length (retain_live now c.entries)))) [
        | inl no_room ↦ rw no_room (record { distinct = d; bounded = le_trans l v.bounded })
        | inr room ↦ rw room (record {
          distinct = insert-Distinct (key blake3 code lang) _ _ d;
          bounded = ground (
            arith,
            length-insert-le (key blake3 code lang)
                (record { result = result; created_at = now; ttl = c.default_ttl })
                (retain_live now c.entries),
          );
        })
      ]

  pub step : ExecutionCache → Call → ExecutionCache
  step c (stores code lang result now) = (set blake3 c code lang result now).1
  step c (evicts now) = (evict_expired c now).1
  step c clears = clear c

  pub run : ExecutionCache → List Call → ExecutionCache
  run c [] = c
  run c (x ∷ xs) = run (step c x) xs

  step-IsValid : (c : ExecutionCache) (x : Call) → IsValid c → IsValid (step c x)
  unfolding step evict_expired clear
  step-IsValid c (stores code lang result now) v = set-IsValid c code lang result now v
  step-IsValid c (evicts now) v = record {
    distinct = retain_live-Distinct now c.entries v.distinct;
    bounded = le_trans (length-retain_live-le now c.entries) v.bounded;
  }
  step-IsValid c clears v = record { distinct = tt; bounded = omega arith }

  -- Whatever is stored, evicted and cleared, at whatever times, the keys of a valid cache stay
  -- distinct and it never holds more entries than its maximum.
  pub run-IsValid : (c : ExecutionCache) (xs : List Call) → IsValid c → IsValid (run c xs)
  unfolding run
  run-IsValid c [] v = v
  run-IsValid c (x ∷ xs) v = run-IsValid (step c x) xs (step-IsValid c x v)

  -- A call at `later` or before that neither clears the cache nor stores under the key of the request.
  abbrev pub IsApart : Text → Text → ℕ → Call → Type 0
  IsApart code lang later (stores code' lang' result now) =
      (text_eq (key blake3 code' lang') (key blake3 code lang) ≡ false) × (now ≤ later)
  IsApart code lang later (evicts now) = now ≤ later
  IsApart code lang later clears = ⊥

  get-step :
      (c : ExecutionCache) (x : Call) (code lang : Text) (later : ℕ)
      → IsValid c
      → IsApart code lang later x
      → get blake3 (step c x) code lang later ≡ get blake3 c code lang later
  unfolding step evict_expired get
  get-step c (stores code' lang' result now) code lang later v (ne, le) =
      get-set_other c code' lang' result code lang now later v.distinct ne le
  get-step c (evicts now) code lang later v le =
      fresh-retain_live (key blake3 code lang) now later c.entries v.distinct le
  get-step c clears code lang later v none_such = absurd none_such

  get-run :
      (c : ExecutionCache) (xs : List Call) (code lang : Text) (later : ℕ)
      → IsValid c
      → All (IsApart code lang later) xs
      → get blake3 (run c xs) code lang later ≡ get blake3 c code lang later
  unfolding run
  get-run c [] code lang later v apart = refl
  get-run c (x ∷ xs) code lang later v (here, more) =
      get-run (step c x) xs code lang later (step-IsValid c x v) more
      ∙ get-step c x code lang later v here

  -- In a valid cache, what a storing that succeeded put there is found at every later time before the
  -- default time to live has passed, and from then on it is not, whatever is evicted and stored under
  -- other keys in between, if no call in between clears the cache.
  pub get-run-set :
      (c : ExecutionCache) (code lang result : Text) (now later : ℕ) (xs : List Call)
      → IsValid c
      → (set blake3 c code lang result now).0 ≡ ok tt
      → All (IsApart code lang later) xs
      → now ≤ later
      → get blake3 (run (set blake3 c code lang result now).1 xs) code lang later
        ≡ (if ltb later (now + c.default_ttl) then some result else none)
  get-run-set c code lang result now later xs v stored apart le =
      get-run (set blake3 c code lang result now).1 xs code lang later
        (set-IsValid c code lang result now v) apart
      ∙ get-set_self c code lang result now later stored le
