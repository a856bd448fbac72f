-- ===== src/Db/Tests.antt =====
-- The database's theorems at concrete inputs.
use keystone_db.Prelude.{
  ℕ, ◌+◌, ◌≡◌, refl, sym, ap, ◌∙◌, List, [], ◌∷◌, ◌++◌, append-nil, arith, none, true, false, inl,
  inr, ◌⊎◌, All, drop, length,
}
use keystone_db.Prelude.Keys.{Bytes, compare_keys, key_lt, compare_keys-swap_lt}
use keystone_db.Coding.{put_u32_le}
use keystone_db.Crc32.{crc32}
use keystone_db.Sstable.{Entry, IndexEntry, k_format_version, k_magic}
use keystone_db.Sstable.Writer.{encode_entry}
use keystone_db.Sstable.Reader.{
  Table, result, nothing, block, search_loop, find_block_idx, load_block, scan_block,
  table_may_contain, table_get,
}
use keystone_db.Sstable.Block.{
  IsEntry, encode_entries, lookup_entries, encode_entry-All, scan_block-encode_entries,
}
use keystone_db.Sstable.Load.{load_block-flushed}
use keystone_db.Db.{FileMeta, Version, files_at}
use keystone_db.Db.Retain.{retain_loop, retain, newest, forget, larger, older, IsMerged}
use keystone_db.Db.Collect.{retain-newest, retain-newest_later}
use keystone_db.Db.Get.{or_next, get_impl, IsLevel, AreLevels, ask_back, ask_levels}
use keystone_db.Db.Levels.{get_impl-ask}
use keystone_db.Db.Snapshots.{Snapshots, Event, take_snapshot, release, writes}
use keystone_db.Db.Pick.{l0_job}
use keystone_db.Db.Overlap.{IsIn, Apart, l0_job_complete}
use keystone_db.Db.Commit.{
  split_outputs, flatten, make_outputs, commit, split_outputs-flatten, commit_stuck,
}

abbrev put_a : ℕ → Entry
put_a n = record { key = 97 ∷ []; value = n ∷ []; tombstone = false; seq = n }

abbrev del_b : Entry
del_b = record { key = 98 ∷ []; value = []; tombstone = true; seq = 4 }

abbrev merged : List Entry
merged = put_a 5 ∷ put_a 3 ∷ put_a 2 ∷ del_b ∷ []

merged-IsMerged : IsMerged merged
unfolding IsMerged compare_keys
merged-IsMerged = (
  (older refl (omega arith), (older refl (omega arith), (larger refl, tt))),
  ((older refl (omega arith), (larger refl, tt)), ((larger refl, tt), (tt, tt))),
)

-- With a snapshot at 4 two versions of the first key stay, and the tombstone goes.
retain_run : retain true 4 merged ≡ put_a 5 ∷ put_a 3 ∷ []
unfolding retain retain_loop compare_keys
retain_run = refl

retain-newest_example :
    forget true (newest (97 ∷ []) 4 (retain true 4 merged))
    ≡ forget true (newest (97 ∷ []) 4 merged)
retain-newest_example = retain-newest true 4 4 (97 ∷ []) merged (omega arith) merged-IsMerged

retain-newest_later_example :
    forget true (newest (97 ∷ []) 6 (retain true 9 merged))
    ≡ forget true (newest (97 ∷ []) 6 merged)
retain-newest_later_example =
    retain-newest_later true 9 6 (97 ∷ []) merged (omega arith) merged-IsMerged

-- A table of one entry in one block.
abbrev only : Entry
only = put_a 5

only-IsEntry : IsEntry only
only-IsEntry = omega arith

abbrev only_index : IndexEntry
only_index = record { first_key = 97 ∷ []; offset = 0; length = length (encode_entry only) + 4 }

abbrev only_table : Table
only_table = record {
  file = [] ++ ((encode_entry only ++ put_u32_le (crc32 (encode_entry only))) ++ []);
  footer = record {
    index_offset = 0;
    bloom_offset = 0;
    entry_count = 1;
    max_seq = 5;
    format_version = k_format_version;
    magic = k_magic;
  };
  index = only_index ∷ [];
  bloom = none;
}

only_block : load_block only_table only_index ≡ block (encode_entry only)
only_block =
    load_block-flushed only_table only_index [] (encode_entry only) [] refl refl refl refl
      (encode_entry-All only only-IsEntry)

only_scan :
    (key : Bytes) (s : ℕ)
    → scan_block (length (encode_entry only)) k_format_version key s (encode_entry only)
      ≡ lookup_entries key s (only ∷ [])
only_scan key s =
    let one : encode_entries (only ∷ []) ≡ encode_entry only =
      unfold encode_entries in append-nil _ in
    ap (scan_block (length (encode_entry only)) k_format_version key s) (sym one)
    ∙ scan_block-encode_entries (length (encode_entry only)) key s (only ∷ []) (only-IsEntry, tt)
        (omega (arith, ap length one))

other_key :
    (key : Bytes) (s : ℕ) → key_lt (97 ∷ []) key ≡ true → lookup_entries key s (only ∷ []) ≡ nothing
unfolding lookup_entries
other_key key s h = ground arith

only_get :
    (key : Bytes) (s : ℕ)
    → (key_lt key (97 ∷ []) ≡ true) ⊎ (key_lt (97 ∷ []) key ≡ true)
    → table_get only_table key s ≡ result nothing
unfolding table_get table_may_contain find_block_idx search_loop
only_get key s (inl below) = rw below refl
only_get key s (inr above) =
    let after : key_lt key (97 ∷ []) ≡ false = ground (arith, compare_keys-swap_lt (97 ∷ []) key) in
    rw (after, only_block, only_scan key s, other_key key s above) refl

abbrev only_file : FileMeta
only_file = record {
  number = 7;
  level = 1;
  smallest_key = 97 ∷ [];
  largest_key = 97 ∷ [];
  table = only_table;
}

abbrev one_level : Version
one_level = record { files = [] ∷ (only_file ∷ []) ∷ [] }

one_level-AreLevels : AreLevels (drop 1 one_level.files)
unfolding AreLevels IsLevel compare_keys
one_level-AreLevels = ((record { range = refl; outside = only_get }, (tt, tt)), tt)

get_impl-ask_example :
    get_impl nothing one_level (97 ∷ []) 9
    ≡ or_next (result nothing) (
        ask_back
          (97 ∷ [])
          9
          (files_at one_level 0)
          (ask_levels (97 ∷ []) 9 (drop 1 one_level.files)))
get_impl-ask_example = get_impl-ask nothing one_level (97 ∷ []) 9 one_level-AreLevels

split_outputs-flatten_example : flatten (split_outputs 30 0 [] merged) ≡ [] ++ merged
split_outputs-flatten_example = split_outputs-flatten 30 0 [] merged

-- Two versions of a key get into two files when the first one fills its file up.
split_run : split_outputs 30 0 [] merged ≡ (put_a 5 ∷ put_a 3 ∷ []) ∷ (put_a 2 ∷ del_b ∷ []) ∷ []
unfolding split_outputs
split_run = refl

commit_stuck_example :
    commit
      (λ files. files)
      1
      (only_file ∷ [])
      (make_outputs (λ entries. only_file) (split_outputs 30 0 [] (retain true 4 (del_b ∷ []))))
      one_level
    ≡ one_level
commit_stuck_example =
    commit_stuck (λ files. files) (λ entries. only_file) 30 1 4 (only_file ∷ []) (del_b ∷ [])
      one_level ((refl, omega arith), tt)

abbrev two_levels : Version
two_levels = record { files = (only_file ∷ []) ∷ (only_file ∷ []) ∷ [] }

l0_job_complete_example :
    IsIn only_file (l0_job two_levels).inputs ⊎ All (λ f. Apart f only_file) (files_at two_levels 0)
l0_job_complete_example = l0_job_complete two_levels only_file (refl, tt) (unfold IsIn in inl refl)

abbrev some_snapshots : Snapshots
some_snapshots = record { next_seq = 8; live = 3 ∷ 7 ∷ [] }

abbrev some_events : List Event
some_events = writes 4 ∷ release 3 ∷ take_snapshot ∷ []
