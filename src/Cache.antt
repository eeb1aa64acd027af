-- ===== src/Cache.antt =====
-- tinymachine-fork/src/cache.rs: results of executions by the hash of language and code. `blake3` is
-- a parameter, from the bytes hashed to the hexadecimal digest that is the key. A text is the list of
-- its bytes, and the time of a call is its argument `now`, in any unit that durations share.
pub mod Entries
pub mod Laws
mod Tests
use tinymachine.Common.{
  ℕ, ◌-◌, ◌*◌, Option, none, some, List, [], ◌∷◌, ◌++◌, Bool, leb, ◌==◌, if◌then◌else◌, Text, codes,
  length, Result, ok, err,
}
use tinymachine.Common.Maps.{Map, lookup, insert}

pub data CacheError : Type 0 where
  full : (max_entries : ℕ) → CacheError

pub record CacheEntry : Type 0 where
  pub result : Text
  pub created_at : ℕ
  pub ttl : ℕ

-- `created_at.elapsed() >= ttl`; `elapsed` is zero where the clock has not advanced
unfoldable pub is_expired : CacheEntry → ℕ → Bool
is_expired e now = leb e.ttl (now - e.created_at)

pub record ExecutionCache : Type 0 where
  pub entries : Map CacheEntry
  pub max_entries : ℕ
  pub default_ttl : ℕ

-- ten thousand entries, and an hour of `second` units of time each
unfoldable pub new : ℕ → ExecutionCache
new second = record { entries = []; max_entries = 10_000; default_ttl = 3600 * second }

-- `entries.retain(|_, entry| !entry.is_expired())`
unfoldable pub retain_live : ℕ → Map CacheEntry → Map CacheEntry
retain_live now [] = []
retain_live now ((k, e) ∷ m) =
    let rest = retain_live now m in if is_expired e now then rest else (k, e) ∷ rest

unfoldable pub clear : ExecutionCache → ExecutionCache
clear c = record c { entries = [] }

unfoldable pub len : ExecutionCache → ℕ
len c = length c.entries

unfoldable pub is_empty : ExecutionCache → Bool
is_empty c = length c.entries == 0

unfoldable pub evict_expired : ExecutionCache → ℕ → ℕ × ExecutionCache
unfolding retain_live
evict_expired c now =
    let live = retain_live now c.entries in
    (length c.entries - length live, record c { entries = live })

unfoldable pub set_max_entries : ExecutionCache → ℕ → ExecutionCache
set_max_entries c max_entries = record c { max_entries = max_entries }

unfoldable pub set_default_ttl : ExecutionCache → ℕ → ExecutionCache
set_default_ttl c ttl = record c { default_ttl = ttl }

-- the result of an entry that is there and has not expired
unfoldable pub fresh : Option CacheEntry → ℕ → Option Text
fresh none now = none
fresh (some e) now = if is_expired e now then none else some e.result

module _ (blake3 : Text → Text) where
  unfoldable pub key : Text → Text → Text
  key code lang = blake3 (lang ++ (codes ":" ++ code))

  unfoldable pub get : ExecutionCache → Text → Text → ℕ → Option Text
  unfolding key
  get c code lang now = fresh (lookup (key code lang) c.entries) now

  unfoldable pub set :
      ExecutionCache → Text → Text → Text → ℕ → Result CacheError (Unit {0}) × ExecutionCache
  unfolding key
  set c code lang result now =
      let live = retain_live now c.entries in
      if leb c.max_entries (length live)
      then (err (full c.max_entries), record c { entries = live })
      else (
        ok tt,
        record c {
          entries =
              insert (key code lang)
                (record { result = result; created_at = now; ttl = c.default_ttl }) live;
        },
      )
