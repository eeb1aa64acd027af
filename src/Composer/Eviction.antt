-- ===== src/Composer/Eviction.antt =====
-- `CompositionCache::enforce_max_size` of tinymachine-fork/src/composer.rs. What it reads from the cache's
-- directory is its argument: the entries with metadata, and the size of each initrd. So is whether the
-- removal of a directory takes its entry out of the cache. Sizes in bytes are taken to add up below 2^64.
pub mod Lru
use tinymachine.Common.{ℕ, ◌+◌, ◌-◌, ◌*◌, ◌%◌, ◌^◌, Bool, List, [], ◌∷◌, leb, if◌then◌else◌, Text}

pub record CacheEntry : Type 0 where
  pub dir : Text
  pub last_access : ℕ
  pub size : ℕ

unfoldable pub total_size : List CacheEntry → ℕ
total_size [] = 0
total_size (e ∷ es) = e.size + total_size es

-- `sort_by`, which keeps the order of equals
unfoldable pub insert : CacheEntry → List CacheEntry → List CacheEntry
insert e [] = e ∷ []
insert e (f ∷ fs) =
    let rest = insert e fs in if leb e.last_access f.last_access then e ∷ f ∷ fs else f ∷ rest

unfoldable pub sort : List CacheEntry → List CacheEntry
unfolding insert
sort [] = []
sort (e ∷ es) = insert e (sort es)

-- The entries whose directories the loop tries to remove, those that it does not come to, and those that
-- are in the cache afterwards.
pub record Outcome : Type 0 where
  pub tried : List CacheEntry
  pub kept : List CacheEntry
  pub left : List CacheEntry

abbrev pub untouched : List CacheEntry → Outcome
untouched es = record { tried = []; kept = es; left = es }

-- `max_size_gb * 1024 * 1024 * 1024` in a `u64`, as a release build computes it
unfoldable pub max_bytes : ℕ → ℕ
max_bytes max_size_gb = max_size_gb * 1024 * 1024 * 1024 % 2 ^ 64

module _ (removes : Text → Bool) where
  -- The loop. The size of a directory is subtracted also where `remove_dir_all(dir).ok()` drops an error.
  unfoldable pub evict : ℕ → ℕ → List CacheEntry → Outcome
  evict limit current_size [] = untouched []
  evict limit current_size (e ∷ es) =
      let rest = evict limit (current_size - e.size) es in
      if leb current_size limit then untouched (e ∷ es) else record {
        tried = e ∷ rest.tried;
        kept = rest.kept;
        left = if removes e.dir then rest.left else e ∷ rest.left;
      }

  unfoldable pub enforce_max_size : ℕ → List CacheEntry → Outcome
  unfolding evict sort total_size max_bytes
  enforce_max_size max_size_gb entries =
      if leb (total_size entries) (max_bytes max_size_gb)
      then untouched entries
      else evict (max_bytes max_size_gb) (total_size entries) (sort entries)
