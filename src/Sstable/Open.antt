-- ===== src/Sstable/Open.antt =====
-- SSTable::open: the footer, the index and the filter are read from a file.
use keystone_db.Prelude.{
  ℕ, zero, suc, ◌+◌, ◌-◌, ◌%◌, ◌^◌, List, [], ◌∷◌, Option, none, some, not, length, take, drop, ltb,
  ◌==◌, if◌then◌else◌,
}
use keystone_db.Prelude.Keys.{Bytes}
use keystone_db.Coding.{get_u32_le, get_u64_le}
use keystone_db.Bloom.{Loaded, loaded, too_short, truncated, load}
use keystone_db.Sstable.{IndexEntry, k_magic, k_footer_size}
use keystone_db.Sstable.Reader.{Footer, Table}

-- What `open` throws.
pub data OpenError : Type 0 where
  file_too_small : OpenError
  bad_magic : OpenError
  index_unread : OpenError
  bloom_unread : OpenError
  bloom_refused : OpenError

pub data Opened : Type 0 where
  opened : Table → Opened
  refused : OpenError → Opened

-- `pread` of a number of bytes, all of which must come.
unfoldable pub read_at : Bytes → ℕ → ℕ → Option Bytes
read_at file offset size =
    let got = take size (drop offset file) in if length got == size then some got else none

unfoldable pub decode_footer : Bytes → Footer
decode_footer bytes = record {
  index_offset = get_u64_le bytes;
  bloom_offset = get_u64_le (drop 8 bytes);
  entry_count = get_u64_le (drop 16 bytes);
  max_seq = get_u64_le (drop 24 bytes);
  format_version = get_u32_le (drop 32 bytes);
  magic = get_u32_le (drop 36 bytes);
}

-- The loop over the index; `rest` is the buffer from `pos` on, and its length is fuel enough.
unfoldable pub decode_index : ℕ → Bytes → List IndexEntry
decode_index zero rest = []
decode_index (suc fuel) rest =
    let keylen = get_u32_le rest in
    let after = drop 4 rest in
    let next = decode_index fuel (drop 8 (drop 8 (drop keylen after))) in
    if ltb (length rest) 4
    then []
    else if ltb (length after) (keylen + 16)
    then []
    else record {
      first_key = take keylen after;
      offset = get_u64_le (drop keylen after);
      length = get_u64_le (drop 8 (drop keylen after));
    }
      ∷ next

abbrev pub index_length : Bytes → Footer → ℕ
index_length file footer =
    let index_end =
      if footer.bloom_offset == 0 then length file - k_footer_size else footer.bloom_offset in
    (index_end + 2 ^ 64 - footer.index_offset) % 2 ^ 64

abbrev pub bloom_length : Bytes → Footer → ℕ
bloom_length file footer = (length file - k_footer_size + 2 ^ 64 - footer.bloom_offset) % 2 ^ 64

abbrev pub with_bloom : Bytes → Footer → List IndexEntry → Loaded → Opened
with_bloom file footer index (loaded b) =
    opened (record { file = file; footer = footer; index = index; bloom = some b })
with_bloom file footer index too_short = refused bloom_refused
with_bloom file footer index truncated = refused bloom_refused

unfoldable pub open_bloom : Bytes → Footer → List IndexEntry → Opened
open_bloom file footer index =
    if footer.bloom_offset == 0
    then opened (record { file = file; footer = footer; index = index; bloom = none })
    else elim (read_at file footer.bloom_offset (bloom_length file footer)) [
      | none ↦ refused bloom_unread
      | some bytes ↦ with_bloom file footer index (load bytes)
    ]

unfoldable pub open_table : Bytes → Opened
open_table file =
    let footer = decode_footer (drop (length file - k_footer_size) file) in
    if ltb (length file) k_footer_size
    then refused file_too_small
    else if not (footer.magic == k_magic)
    then refused bad_magic
    else elim (read_at file footer.index_offset (index_length file footer)) [
      | none ↦ refused index_unread
      | some bytes ↦ open_bloom file footer (decode_index (length bytes) bytes)
    ]
