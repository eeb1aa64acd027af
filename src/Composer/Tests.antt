-- ===== src/Composer/Tests.antt =====
-- The theorems about the composer at work on two layers and three cached compositions.
use tinymachine.Common.{
  ℕ, ◌*◌, ◌+◌, ◌≡◌, ◌↔◌, Bool, true, not, text_eq, List, [], ◌∷◌, Text, codes, Result, ok, err,
}
use tinymachine.Composer.{pip, LayerRef, conflict_check}
use tinymachine.Composer.Eviction.{CacheEntry, total_size, max_bytes, enforce_max_size}
use tinymachine.Composer.Eviction.Lru.{
  IsLru, IsNeeded, enforce_max_size-IsLru, enforce_max_size-IsNeeded,
}
use tinymachine.Composer.Conflicts.{new_among, all_listed, conflict_check_lem}

-- every archive holds its own path and one shared file; the empty path is missing
abbrev list_files : Text → Result Text (List Text)
list_files [] = err []
list_files (c ∷ cs) = ok ((c ∷ cs) ∷ codes "etc/x" ∷ [])

abbrev layers : List LayerRef
layers =
    record {
      layer_type = pip;
      name = codes "a";
      version = codes "1";
      hash = [];
      layer_path = codes "a";
    }
    ∷ record {
      layer_type = pip;
      name = codes "b";
      version = codes "2";
      hash = [];
      layer_path = codes "b";
    }
    ∷ []

conflict_check_lem_example :
    (conflict_check list_files layers ≡ ok tt)
    ↔ (new_among [] (all_listed list_files layers) ≡ true)
conflict_check_lem_example = conflict_check_lem list_files layers

abbrev gigabyte : ℕ
gigabyte = 1024 * 1024 * 1024

abbrev cached : List CacheEntry
cached =
    record { dir = codes "a"; last_access = 30; size = gigabyte }
    ∷ record { dir = codes "b"; last_access = 10; size = gigabyte }
    ∷ record { dir = codes "c"; last_access = 20; size = gigabyte }
    ∷ []

-- The directory of the oldest entry cannot be removed.
abbrev removes : Text → Bool
removes dir = not (text_eq dir (codes "b"))

enforce_max_size-IsLru_example : IsLru removes (max_bytes 2) (enforce_max_size removes 2 cached)
enforce_max_size-IsLru_example = enforce_max_size-IsLru removes 2 cached

enforce_max_size-IsNeeded_example :
    IsNeeded
      (max_bytes 2)
      (enforce_max_size removes 2 cached).tried
      (enforce_max_size removes 2 cached).kept
    × (total_size (enforce_max_size removes 2 cached).tried
          + total_size (enforce_max_size removes 2 cached).kept
        ≡ total_size cached)
enforce_max_size-IsNeeded_example = enforce_max_size-IsNeeded removes 2 cached
