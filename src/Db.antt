-- ===== src/Db.antt =====
-- src/db.cpp, include/keystone/db.h and version.h: files, versions and levels.
pub mod Retain
pub mod Collect
pub mod Collected
pub mod Get
pub mod Levels
pub mod Pick
pub mod Overlap
pub mod Commit
pub mod Snapshots
pub mod Store
mod Tests
use keystone_db.Prelude.{
  ℕ, zero, suc, ◌+◌, ◌-◌, ◌*◌, ◌%◌, ◌^◌, List, [], ◌∷◌, ◌++◌, Bool, true, false, not, length,
  get_or, ltb, leb, ◌==◌, if◌then◌else◌,
}
use keystone_db.Prelude.Keys.{Bytes}
use keystone_db.Wal.{SyncMode}
use keystone_db.Manifest.{ManifestEntry}
use keystone_db.Sstable.Reader.{Table}

pub record Options : Type 0 where
  pub sync : SyncMode
  pub flush_threshold_bytes : ℕ
  pub compaction_trigger : ℕ
  pub block_cache_bytes : ℕ
  pub target_file_size : ℕ
  pub l1_max_bytes : ℕ
  pub level_size_multiplier : ℕ

pub record FileMeta : Type 0 where
  pub number : ℕ
  pub level : ℕ
  pub smallest_key : Bytes
  pub largest_key : Bytes
  pub table : Table

abbrev pub k_max_levels : ℕ
k_max_levels = 7

-- The array `files` of a version is the list of its levels.
pub record Version : Type 0 where
  pub files : List (List FileMeta)

abbrev pub files_at : Version → ℕ → List FileMeta
files_at ver level = get_or ver.files level []

-- The sizes are `size_t`.
unfoldable pub level_bytes : List FileMeta → ℕ
level_bytes [] = 0
level_bytes (fm ∷ files) = (fm.table.footer.entry_count * 64 + level_bytes files) % 2 ^ 64

-- The limit of level `suc n`: level 1 has `l1_max_bytes`, and each further one is larger by the
-- multiplier.
unfoldable pub level_limit : Options → ℕ → ℕ
level_limit opts zero = opts.l1_max_bytes
level_limit opts (suc n) = level_limit opts n * opts.level_size_multiplier % 2 ^ 64

unfoldable pub max_level_bytes : Options → ℕ → ℕ
unfolding level_limit
max_level_bytes opts zero = 0
max_level_bytes opts (suc n) = level_limit opts n

-- The highest level below `n` that has a file; 0 if there is none.
unfoldable pub highest_populated : ℕ → Version → ℕ
highest_populated zero ver = 0
highest_populated (suc l) ver = elim (files_at ver l) [ [] ↦ highest_populated l ver | _ ∷ _ ↦ l ]

unfoldable pub max_populated_level : Version → ℕ
unfolding highest_populated
max_populated_level ver = highest_populated k_max_levels ver

-- The first of `n` levels from `level` on that is over its limit.
unfoldable pub first_overflow : ℕ → Options → Version → ℕ → Bool
first_overflow zero opts ver level = false
first_overflow (suc n) opts ver level =
    let rest = first_overflow n opts ver (level + 1) in
    if ltb (max_level_bytes opts level) (level_bytes (files_at ver level)) then true else rest

unfoldable pub needs_compaction : Options → Version → Bool
unfolding first_overflow
needs_compaction opts ver =
    if leb opts.compaction_trigger (length (files_at ver 0))
    then true
    else first_overflow (k_max_levels - 2) opts ver 1

unfoldable pub total_file_count : List (List FileMeta) → ℕ
total_file_count [] = 0
total_file_count (files ∷ levels) = length files + total_file_count levels

unfoldable pub files_to_manifest : List FileMeta → List ManifestEntry
files_to_manifest [] = []
files_to_manifest (fm ∷ files) =
    record {
      number = fm.number;
      level = fm.level;
      smallest_key = fm.smallest_key;
      largest_key = fm.largest_key;
    }
    ∷ files_to_manifest files

unfoldable pub version_to_manifest : List (List FileMeta) → List ManifestEntry
unfolding files_to_manifest
version_to_manifest [] = []
version_to_manifest (files ∷ levels) = files_to_manifest files ++ version_to_manifest levels
