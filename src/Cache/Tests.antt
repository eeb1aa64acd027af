-- ===== src/Cache/Tests.antt =====
-- The theorems about the cache at work on a cache of two entries; a key is here the text itself.
use tinymachine.Common.{◌≡◌, refl, some, [], ◌∷◌, Text, codes, text_eq, arith, List}
use tinymachine.Common.Maps.{lookup}
use tinymachine.Cache.{ExecutionCache, retain_live, is_expired, get, set}
use tinymachine.Cache.Entries.{Distinct}
use tinymachine.Cache.Laws.{IsValid, stores, evicts, run, get-run-set, Call, run-IsValid}

abbrev digest : Text → Text
digest t = t

abbrev cache : ExecutionCache
cache = record {
  entries = (codes "py:1", record { result = codes "one"; created_at = 5; ttl = 10 }) ∷ [];
  max_entries = 2;
  default_ttl = 10;
}

cache-Distinct : Distinct cache.entries
unfolding lookup
cache-Distinct = (refl, tt)

cache-IsValid : IsValid cache
cache-IsValid = record { distinct = cache-Distinct; bounded = omega arith }

-- The entry that is there expires at 15, so the second storing finds room.
abbrev calls_between : List Call
calls_between = evicts 8 ∷ stores (codes "3") (codes "py") (codes "three") 16 ∷ []

get-run-set_example :
    get digest
      (run digest (set digest cache (codes "2") (codes "py") (codes "two") 7).1 calls_between)
      (codes "2")
      (codes "py")
      16
    ≡ some (codes "two")
unfolding set retain_live is_expired text_eq
get-run-set_example =
    get-run-set digest cache (codes "2") (codes "py") (codes "two") 7 16 calls_between cache-IsValid
      refl (omega arith, ((refl, omega arith), tt)) (omega arith)

run-IsValid_example :
    IsValid (run digest cache (stores (codes "2") (codes "py") (codes "two") 7 ∷ evicts 30 ∷ []))
run-IsValid_example =
    run-IsValid digest cache (stores (codes "2") (codes "py") (codes "two") 7 ∷ evicts 30 ∷ [])
      cache-IsValid
