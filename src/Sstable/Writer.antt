-- ===== src/Sstable/Writer.antt =====
-- SSTableWriter. The file is the list of the bytes written to the temporary path; `synced` says
-- whether it has been made durable and closed.
use keystone_db.Prelude.{
  ℕ, ◌+◌, ◌%◌, ◌^◌, List, [], ◌∷◌, ◌++◌, Bool, true, false, not, ◌&&◌, length, ltb, leb, ◌==◌,
  if◌then◌else◌,
}
use keystone_db.Prelude.Keys.{Bytes, key_eq}
use keystone_db.Coding.{put_u32_le, put_u64_le}
use keystone_db.Crc32.{crc32}
use keystone_db.Bloom.{new_bloom, add_all, serialize}
use keystone_db.Sstable.{Entry, IndexEntry, k_magic, k_format_version, k_block_target_size}

pub record Writer : Type 0 where
  pub file : Bytes
  pub block_buf : Bytes
  pub block_first_key : Bytes
  pub current_offset : ℕ
  pub index : List IndexEntry
  pub entry_count : ℕ
  pub max_seq : ℕ
  pub smallest_key : Bytes
  pub largest_key : Bytes
  pub keys : List Bytes
  pub synced : Bool

abbrev pub new_writer : Writer
new_writer = record {
  file = [];
  block_buf = [];
  block_first_key = [];
  current_offset = 0;
  index = [];
  entry_count = 0;
  max_seq = 0;
  smallest_key = [];
  largest_key = [];
  keys = [];
  synced = false;
}

abbrev pub is_empty : Bytes → Bool
is_empty [] = true
is_empty (b ∷ bytes) = false

-- A tombstone is written without a value.
abbrev pub stored_value : Entry → Bytes
stored_value e = if e.tombstone then [] else e.value

-- The bytes that `add` puts into the block: 17 bytes of header, the key, the value.
unfoldable pub encode_header : Entry → Bytes
encode_header e =
    (if e.tombstone then 1 else 0)
    ∷ (put_u64_le e.seq
        ++ (put_u32_le (length e.key % 2 ^ 32) ++ put_u32_le (length (stored_value e) % 2 ^ 32)))

unfoldable pub encode_entry : Entry → Bytes
encode_entry e = encode_header e ++ (e.key ++ stored_value e)

unfoldable pub flush_block : Writer → Writer
flush_block w =
    let total = length w.block_buf + 4 in
    if is_empty w.block_buf then w else record w {
      index =
          w.index
          ++ (record { first_key = w.block_first_key; offset = w.current_offset; length = total }
              ∷ []);
      file = (w.file ++ w.block_buf) ++ put_u32_le (crc32 w.block_buf);
      current_offset = w.current_offset + total;
      block_buf = [];
      block_first_key = [];
    }

-- The block is flushed in front of an entry when it has reached its size, unless the entry's key
-- is the block's first key.
unfoldable pub flush_full : Writer → Bytes → Writer
unfolding flush_block
flush_full w key =
    if not (is_empty w.block_buf)
      && (leb k_block_target_size (length w.block_buf) && not (key_eq key w.block_first_key))
    then flush_block w
    else w

-- The rest of `add`.
unfoldable pub put_entry : Writer → Entry → Writer
unfolding encode_entry
put_entry w e = record w {
  block_first_key = if is_empty w.block_buf then e.key else w.block_first_key;
  smallest_key = if w.entry_count == 0 then e.key else w.smallest_key;
  largest_key = e.key;
  block_buf = w.block_buf ++ encode_entry e;
  max_seq = if ltb w.max_seq e.seq then e.seq else w.max_seq;
  keys = w.keys ++ (e.key ∷ []);
  entry_count = w.entry_count + 1;
}

unfoldable pub add : Writer → Entry → Writer
add w e = put_entry (flush_full w e.key) e

unfoldable pub add_entries : Writer → List Entry → Writer
add_entries w [] = w
add_entries w (e ∷ entries) = add_entries (add w e) entries

unfoldable pub encode_index : List IndexEntry → Bytes
encode_index [] = []
encode_index (ie ∷ index) =
    put_u32_le (length ie.first_key % 2 ^ 32)
    ++ (ie.first_key ++ (put_u64_le ie.offset ++ (put_u64_le ie.length ++ encode_index index)))

-- The 40 bytes at the end.
unfoldable pub encode_footer : ℕ → ℕ → ℕ → ℕ → Bytes
encode_footer index_offset bloom_offset entry_count max_seq =
    put_u64_le index_offset
    ++ (put_u64_le bloom_offset
        ++ (put_u64_le entry_count
            ++ (put_u64_le max_seq ++ (put_u32_le k_format_version ++ put_u32_le k_magic))))

-- The default of 10 bits for a key.
unfoldable pub finish : Writer → Writer
finish w =
    let flushed = flush_block w in
    let index_block = encode_index flushed.index in
    let bloom_offset = flushed.current_offset + length index_block in
    let bloom_block = serialize (add_all (new_bloom (length flushed.keys) 10) flushed.keys) in
    record flushed {
      file =
          flushed.file
          ++ (index_block
              ++ (bloom_block
                  ++ encode_footer flushed.current_offset bloom_offset flushed.entry_count
                      flushed.max_seq));
      synced = true;
    }
