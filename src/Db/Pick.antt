-- ===== src/Db/Pick.antt =====
-- DB::pick_compaction.
use keystone_db.Prelude.{
  ℕ, zero, suc, ◌+◌, ◌-◌, List, [], ◌∷◌, ◌++◌, Bool, true, false, Option, none, some, length, ltb,
  leb, ◌==◌, if◌then◌else◌,
}
use keystone_db.Prelude.Keys.{Bytes, key_lt}
use keystone_db.Sstable.Writer.{is_empty}
use keystone_db.Db.{
  Options, FileMeta, Version, files_at, k_max_levels, level_bytes, max_level_bytes,
  max_populated_level,
}

pub record CompactionJob : Type 0 where
  pub output_level : ℕ
  pub inputs : List FileMeta
  pub is_bottommost : Bool

abbrev pub no_job : CompactionJob
no_job = record { output_level = 0; inputs = []; is_bottommost = false }

unfoldable pub all_files : List (List FileMeta) → List FileMeta
all_files [] = []
all_files (files ∷ levels) = files ++ all_files levels

-- With `force_compact_` everything is merged.
unfoldable pub forced_job : Version → CompactionJob
unfolding all_files
forced_job ver =
    let inputs = all_files ver.files in
    if leb 2 (length inputs)
    then record { output_level = 1; inputs = inputs; is_bottommost = true }
    else record { output_level = 0; inputs = inputs; is_bottommost = false }

-- A bound of the range is replaced while it is the empty string.
abbrev pub lower_bound : Bytes → Bytes → Bytes
lower_bound range_min key =
    if is_empty range_min then key else if key_lt key range_min then key else range_min

abbrev pub upper_bound : Bytes → Bytes → Bytes
upper_bound range_max key =
    if is_empty range_max then key else if key_lt range_max key then key else range_max

-- The loop over the files of level 0, with `range_min` and `range_max`.
unfoldable pub range_loop : List FileMeta → Bytes → Bytes → Bytes × Bytes
range_loop [] range_min range_max = (range_min, range_max)
range_loop (fm ∷ files) range_min range_max =
    range_loop files (lower_bound range_min fm.smallest_key) (upper_bound range_max fm.largest_key)

-- The files of a level that are not left of the range and not right of it.
unfoldable pub overlapping : List FileMeta → Bytes → Bytes → List FileMeta
overlapping [] range_min range_max = []
overlapping (fm ∷ files) range_min range_max =
    let rest = overlapping files range_min range_max in
    if key_lt fm.largest_key range_min
    then rest
    else if key_lt range_max fm.smallest_key
    then rest
    else fm ∷ rest

unfoldable pub l0_job : Version → CompactionJob
unfolding range_loop overlapping
l0_job ver =
    let range = range_loop (files_at ver 0) [] [] in
    let max_level = max_populated_level ver in
    record {
      output_level = 1;
      inputs = files_at ver 0 ++ overlapping (files_at ver 1) range.0 range.1;
      is_bottommost = if leb max_level 1 then true else max_level == 0;
    }

-- The file of the lowest number, the first of them.
unfoldable pub oldest_file : Option FileMeta → List FileMeta → Option FileMeta
oldest_file pick [] = pick
oldest_file none (fm ∷ files) = oldest_file (some fm) files
oldest_file (some pick) (fm ∷ files) =
    oldest_file (if ltb fm.number pick.number then some fm else some pick) files

-- The loop over `n` levels from `level` on.
unfoldable pub overflow_job : ℕ → Options → Version → ℕ → CompactionJob
unfolding oldest_file overlapping
overflow_job zero opts ver level = no_job
overflow_job (suc n) opts ver level =
    let rest = overflow_job n opts ver (level + 1) in
    let next_level = level + 1 in
    if leb (level_bytes (files_at ver level)) (max_level_bytes opts level)
    then rest
    else elim (oldest_file none (files_at ver level)) [
      | none ↦ rest
      | some pick ↦ record {
        output_level = next_level;
        inputs = pick ∷ overlapping (files_at ver next_level) pick.smallest_key pick.largest_key;
        is_bottommost = leb (max_populated_level ver) next_level;
      }
    ]

unfoldable pub pick_compaction : Bool → Options → Version → CompactionJob
pick_compaction force_compact opts ver =
    if force_compact
    then forced_job ver
    else if leb opts.compaction_trigger (length (files_at ver 0))
    then l0_job ver
    else overflow_job (k_max_levels - 2) opts ver 1
