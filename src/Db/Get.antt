-- ===== src/Db/Get.antt =====
-- DB::get_impl: the memtable's answer, the files of level 0 from the newest on, and one file of
-- each further level. What Memtable::lookup returns is an argument.
use keystone_db.Prelude.{
  ℕ, ◌≡◌, List, [], ◌∷◌, Option, none, some, true, not, ◌⊎◌, All, drop, if◌then◌else◌,
}
use keystone_db.Prelude.Keys.{Bytes, key_lt, key_le}
use keystone_db.Sstable.{LookupResult, LookupStatus}
use keystone_db.Sstable.Reader.{GetResult, result, throws, nothing, table_may_contain, table_get}
use keystone_db.Db.{FileMeta, Version, files_at}

-- The value that `get` returns, or the checksum error that a table throws.
pub data Answer : Type 0 where
  answer : Option Bytes → Answer
  failed : Answer

-- A result that says something ends the search.
unfoldable pub or_next : GetResult → Answer → Answer
or_next throws next = failed
or_next (result r) next = elim r.status [
  | LookupStatus.found ↦ answer (some r.value)
  | LookupStatus.deleted ↦ answer none
  | LookupStatus.not_found ↦ next
]

unfoldable pub file_get : Bytes → ℕ → FileMeta → GetResult
file_get key snap_seq fm =
    if not (table_may_contain fm.table key) then result nothing else table_get fm.table key snap_seq

-- Level 0 from its last file on.
unfoldable pub search_l0 : Bytes → ℕ → List FileMeta → Answer → Answer
search_l0 key snap_seq [] next = next
search_l0 key snap_seq (fm ∷ files) next =
    search_l0 key snap_seq files (or_next (file_get key snap_seq fm) next)

-- The file in front of the first one that begins above the key.
unfoldable pub covering : Bytes → List FileMeta → Option FileMeta
covering key [] = none
covering key (fm ∷ files) =
    let later = covering key files in
    if key_lt key fm.smallest_key then none else elim later [ none ↦ some fm | some g ↦ some g ]

unfoldable pub search_level : Bytes → ℕ → List FileMeta → Answer → Answer
search_level key snap_seq files next = elim (covering key files) [
  | none ↦ next
  | some fm ↦ if key_le key fm.largest_key then or_next (file_get key snap_seq fm) next else next
]

unfoldable pub search_levels : Bytes → ℕ → List (List FileMeta) → Answer
search_levels key snap_seq [] = answer none
search_levels key snap_seq (files ∷ levels) =
    search_level key snap_seq files (search_levels key snap_seq levels)

unfoldable pub get_impl : LookupResult → Version → Bytes → ℕ → Answer
get_impl memtable_result ver key snap_seq =
    or_next (result memtable_result)
      (search_l0 key snap_seq (files_at ver 0) (search_levels key snap_seq (drop 1 ver.files)))

-- A file whose table says nothing of the keys outside its range.
pub record IsFile (fm : FileMeta) : Type 0 where
  pub range : key_le fm.smallest_key fm.largest_key ≡ true
  pub outside :
      (key : Bytes) (snap_seq : ℕ)
      → (key_lt key fm.smallest_key ≡ true) ⊎ (key_lt fm.largest_key key ≡ true)
      → table_get fm.table key snap_seq ≡ result nothing

-- The files of a level follow each other: no two of them share a key.
unfoldable pub IsLevel : List FileMeta → Type 0
IsLevel [] = Unit {0}
IsLevel (fm ∷ files) =
    IsFile fm × (All (λ g. key_lt fm.largest_key g.smallest_key ≡ true) files × IsLevel files)

unfoldable pub AreLevels : List (List FileMeta) → Type 0
unfolding IsLevel
AreLevels [] = Unit {0}
AreLevels (files ∷ levels) = IsLevel files × AreLevels levels

-- The search that asks every table in turn.
unfoldable pub ask_back : Bytes → ℕ → List FileMeta → Answer → Answer
ask_back key snap_seq [] next = next
ask_back key snap_seq (fm ∷ files) next =
    ask_back key snap_seq files (or_next (table_get fm.table key snap_seq) next)

unfoldable pub ask_each : Bytes → ℕ → List FileMeta → Answer → Answer
ask_each key snap_seq [] next = next
ask_each key snap_seq (fm ∷ files) next =
    or_next (table_get fm.table key snap_seq) (ask_each key snap_seq files next)

unfoldable pub ask_levels : Bytes → ℕ → List (List FileMeta) → Answer
ask_levels key snap_seq [] = answer none
ask_levels key snap_seq (files ∷ levels) =
    ask_each key snap_seq files (ask_levels key snap_seq levels)
