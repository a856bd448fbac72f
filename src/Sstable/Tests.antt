-- ===== src/Sstable/Tests.antt =====
-- The SSTable's theorems at concrete inputs.
use keystone_db.Prelude.{
  ◌&&◌, zero, suc, All, ℕ, some, ◌>>=◌, ◌<◌, ◌≡◌, List, refl, [], ◌∷◌, ◌++◌, arith, true, false,
  none, length, replicate, length-replicate, length-append, leb, ◌⊎◌,
}
use keystone_db.Prelude.Keys.{Bytes, compare_keys, key_le, key_eq, IsByte}
use keystone_db.Coding.{put_u32_le, put_u64_le}
use keystone_db.Crc32.{crc32}
use keystone_db.Sstable.{Entry, IndexEntry, k_format_version, k_block_target_size}
use keystone_db.Sstable.Writer.{
  Writer, new_writer, add, add_entries, finish, encode_entry, flush_full, flush_block, put_entry,
  encode_header, is_empty, encode_index, encode_footer,
}
use keystone_db.Sstable.Reader.{
  Table, result, block, scan_block, load_block, table_get, search_loop, find_block_idx,
  first_key_at,
}
use keystone_db.Sstable.Block.{
  IsEntry, encode_entries, entry_result, lookup_entries, scan_block-encode_entries,
  length-encode_entry,
}
use keystone_db.Sstable.Load.{load_block-flushed}
use keystone_db.Sstable.Search.{find_block_idx-some}
use keystone_db.Bloom.{bits_for, new_bloom, add_all, add_loop, set_bit, serialize}
use keystone_db.Sstable.Open.{opened, open_table}
use keystone_db.Sstable.Finish.{
  IsWriter, new_writer-IsWriter, add_entries-IsWriter, open_table-finish, table_of,
}
use keystone_db.Sstable.Iterator.{iterate, iterate_loop, seek}
use keystone_db.Sstable.Seek.{skip_less, IsShort}
use keystone_db.Sstable.Passed.{IsBehind, IsSeekable}
use keystone_db.Sstable.Sought.{seek-finish}
use keystone_db.Sstable.EntryRead.{stored_all}
use keystone_db.Sstable.Iterate.{iterate-finish}
use keystone_db.Sstable.Split.{Splits, table_get_stale}

abbrev put_b2 : Entry
put_b2 = record { key = 98 ∷ []; value = 7 ∷ []; tombstone = false; seq = 2 }

abbrev put_b1 : Entry
put_b1 = record { key = 98 ∷ []; value = 5 ∷ []; tombstone = false; seq = 1 }

put_b2-IsEntry : IsEntry put_b2
put_b2-IsEntry = omega arith

put_b1-IsEntry : IsEntry put_b1
put_b1-IsEntry = omega arith

scan_block-encode_entries_example :
    scan_block 100 k_format_version (98 ∷ []) 1 (encode_entries (put_b2 ∷ put_b1 ∷ []))
    ≡ lookup_entries (98 ∷ []) 1 (put_b2 ∷ put_b1 ∷ [])
scan_block-encode_entries_example =
    scan_block-encode_entries 100 (98 ∷ []) 1 (put_b2 ∷ put_b1 ∷ [])
      (put_b2-IsEntry, (put_b1-IsEntry, tt))
      (unfold encode_entries encode_entry encode_header put_u32_le put_u64_le in omega arith)

-- A value that fills a block up; its bytes are not written out.
filler : ℕ → Bytes
filler n = replicate n 0

length-filler : (n : ℕ) → length (filler n) ≡ n
unfolding filler
length-filler n = length-replicate n 0

abbrev put_a : Entry
put_a = record { key = 97 ∷ []; value = filler 4060; tombstone = false; seq = 3 }

abbrev full_writer : Writer
full_writer = add (add new_writer put_a) put_b2

put_a_fits : leb k_block_target_size (length (encode_entry put_a)) ≡ false
put_a_fits = ground (arith, length-encode_entry put_a, length-filler 4060)

put_a_some : is_empty (encode_entry put_a) ≡ false
unfolding encode_entry encode_header
put_a_some = refl

full_writer-Splits : Splits full_writer (98 ∷ [])
unfolding add flush_full flush_block put_entry encode_header
full_writer-Splits =
    rw (put_a_some, put_a_fits)
      (record {
        full = omega (
          arith,
          length-append (encode_entry put_a) (encode_entry put_b2),
          length-encode_entry put_a,
          length-encode_entry put_b2,
          length-filler 4060,
        );
        other = unfold compare_keys in refl;
        offset = refl;
        below = tt;
        first = unfold compare_keys in refl;
      })

table_get_stale_example :
    (table_get (table_of (add full_writer put_b1)) (98 ∷ []) 9 ≡ result (entry_result put_b1))
    × (lookup_entries (98 ∷ []) 9 (put_b2 ∷ put_b1 ∷ []) ≡ entry_result put_b2)
table_get_stale_example =
    table_get_stale (add new_writer put_a) put_b2 put_b1 9 refl (omega arith) (omega arith)
      full_writer-Splits put_b1-IsEntry

abbrev two_blocks : List IndexEntry
two_blocks =
    record { first_key = 97 ∷ []; offset = 0; length = 50 }
    ∷ record { first_key = 99 ∷ []; offset = 50; length = 60 }
    ∷ []

find_block_idx-some_example :
    (0 < length two_blocks)
    × (key_le (first_key_at two_blocks 0) (98 ∷ []) ≡ true)
    × ((1 ≡ length two_blocks) ⊎ (key_le (first_key_at two_blocks 1) (98 ∷ []) ≡ false))
find_block_idx-some_example =
    find_block_idx-some two_blocks (98 ∷ []) 0
      (unfold find_block_idx search_loop compare_keys in refl)

abbrev one_block : Table
one_block = record {
  file = (1 ∷ 2 ∷ []) ++ (((8 ∷ 9 ∷ []) ++ put_u32_le (crc32 (8 ∷ 9 ∷ []))) ++ (4 ∷ []));
  footer = record {
    index_offset = 8;
    bloom_offset = 0;
    entry_count = 1;
    max_seq = 1;
    format_version = k_format_version;
    magic = 0;
  };
  index = [];
  bloom = none;
}

load_block-flushed_example :
    load_block one_block (record { first_key = []; offset = 2; length = 6 }) ≡ block (8 ∷ 9 ∷ [])
load_block-flushed_example =
    load_block-flushed one_block (record { first_key = []; offset = 2; length = 6 }) (1 ∷ 2 ∷ [])
      (8 ∷ 9 ∷ []) (4 ∷ []) refl refl refl refl (omega arith)

abbrev two_versions : List Entry
two_versions = put_b2 ∷ put_b1 ∷ []

two_versions-IsWriter : IsWriter (add_entries new_writer two_versions)
two_versions-IsWriter =
    add_entries-IsWriter new_writer two_versions (put_b2-IsEntry, (put_b1-IsEntry, tt))
      new_writer-IsWriter

writing : Unit {0}
unfolding add_entries add flush_full flush_block put_entry encode_entry encode_header put_u32_le
    put_u64_le
writing = tt

open_table-finish_example :
    open_table (finish (add_entries new_writer two_versions)).file
    ≡ opened (table_of (add_entries new_writer two_versions))
open_table-finish_example =
    open_table-finish (add_entries new_writer two_versions) two_versions-IsWriter
      (unfold writing in omega arith)
      (unfold writing finish put_u32_le put_u64_le encode_index encode_footer serialize add_all
          new_bloom bits_for add_loop set_bit in
        omega arith)
      (unfold writing in omega arith)
      (unfold writing new_bloom bits_for in record { k = omega arith; m_bits = omega arith })

iterate-finish_example :
    iterate (table_of (add_entries new_writer two_versions)) ≡ some (stored_all two_versions)
iterate-finish_example = iterate-finish two_versions (put_b2-IsEntry, (put_b1-IsEntry, tt))

abbrev put_c : Entry
put_c = record { key = 99 ∷ []; value = 4 ∷ []; tombstone = false; seq = 3 }

-- The sought entry stands in a second block.
abbrev with_c : List Entry
with_c = put_a ∷ put_b2 ∷ put_b1 ∷ put_c ∷ []

behind :
    (target : Bytes) (e x : Entry)
    → key_le e.key x.key ≡ true
    → (key_eq e.key target && key_eq x.key target) ≡ false
    → IsBehind target e x
behind target e x order once = record { order = order; once = once }

with_c-IsSeekable : IsSeekable (99 ∷ []) with_c
unfolding IsSeekable compare_keys
with_c-IsSeekable = (
  (behind _ _ _ refl refl, (behind _ _ _ refl refl, (behind _ _ _ refl refl, tt))),
  (
    (behind _ _ _ refl refl, (behind _ _ _ refl refl, tt)),
    ((behind _ _ _ refl refl, tt), (tt, tt)),
  ),
)

filler-All : (n : ℕ) → All IsByte (filler n)
unfolding filler
filler-All n = zeros-All n
  where
    zeros-All : (n : ℕ) → All IsByte (replicate n 0)
    zeros-All zero = tt
    zeros-All (suc n) = (omega arith, zeros-All n)

put_a-IsEntry : IsEntry put_a
put_a-IsEntry = record {
  seq = omega arith;
  key = omega arith;
  value = omega (arith, length-filler 4060);
  key_bytes = (omega arith, tt);
  value_bytes = filler-All 4060;
}

with_c-IsShort : All IsShort with_c
with_c-IsShort = omega (arith, length-filler 4060)

seek-finish_example :
    (seek (table_of (add_entries new_writer with_c)) (99 ∷ [])
      >>= iterate_loop
          (length (table_of (add_entries new_writer with_c)).file)
          (table_of (add_entries new_writer with_c)))
    ≡ some (stored_all (skip_less (99 ∷ []) with_c))
seek-finish_example =
    seek-finish with_c (99 ∷ [])
      (put_a-IsEntry, (put_b2-IsEntry, (put_b1-IsEntry, (omega arith, tt)))) with_c-IsShort
      with_c-IsSeekable
