-- ===== src/Sstable/Finish.antt =====
-- What SSTableWriter keeps true, and that SSTable::open reads a finished file back.
use keystone_db.Prelude.{
  ℕ, ◌+◌, ◌^◌, ◌≤◌, ◌<◌, ◌≡◌, refl, sym, ap, ◌∙◌, List, [], ◌∷◌, ◌++◌, arith, some, Bool-cases, inl,
  inr, not, ◌&&◌, ltb, leb, append-nil, All, All-append, All-map, length, length-append,
}
use keystone_db.Prelude.Keys.{Bytes, key_eq}
use keystone_db.Coding.{IsU32, IsU64, put_u32_le}
use keystone_db.Coding.RoundTrip.{put_u32-length}
use keystone_db.Crc32.{crc32}
use keystone_db.Bloom.{Bloom, new_bloom, add_all, serialize, load, loaded}
use keystone_db.Sstable.{Entry, IndexEntry, k_block_target_size, k_format_version, k_magic}
use keystone_db.Sstable.Writer.{
  Writer, new_writer, is_empty, flush_block, flush_full, put_entry, add, add_entries, encode_index,
  encode_footer, finish,
}
use keystone_db.Sstable.Block.{IsEntry}
use keystone_db.Bloom.Contains.{new_bloom-IsBloom, add_all-IsBloom}
use keystone_db.Bloom.Serial.{IsSmall, add_all-IsSmall, load-serialize}
use keystone_db.Sstable.Reader.{Table}
use keystone_db.Sstable.Open.{opened, open_table}
use keystone_db.Sstable.Decode.{IsIndexEntry, decode_index-encode_index}
use keystone_db.Sstable.Opening.{file_of, open_table-file_of}

-- A block of the index lies in the file, and its key's length fits its field.
pub record IsInside (size : ℕ) (ie : IndexEntry) : Type 0 where
  pub key : IsU32 (length ie.first_key)
  pub inside : ie.offset + ie.length ≤ size

-- The offset is the file's length, and every block of the index lies in the file.
pub record IsWriter (w : Writer) : Type 0 where
  pub offset : w.current_offset ≡ length w.file
  pub index : All (IsInside w.current_offset) w.index
  pub first_key : IsU32 (length w.block_first_key)
  pub max_seq : IsU64 w.max_seq

pub new_writer-IsWriter : IsWriter new_writer
new_writer-IsWriter = omega arith

flush_block-IsWriter : (w : Writer) → IsWriter w → IsWriter (flush_block w)
unfolding flush_block
flush_block-IsWriter w h = elim (Bool-cases (is_empty w.block_buf)) [
  | inl e ↦ rw e h
  | inr e ↦
      let size = w.current_offset + (length w.block_buf + 4) in
      let grow : (ie : IndexEntry) → IsInside w.current_offset ie → IsInside size ie =
        λ ie i. record { key = i.key; inside = omega (arith, i.inside) } in
      rw e (record {
        offset = omega (
          arith,
          h.offset,
          length-append (w.file ++ w.block_buf) (put_u32_le (crc32 w.block_buf)),
          length-append w.file w.block_buf,
          put_u32-length (crc32 w.block_buf),
        );
        index =
            All-append (IsInside size) w.index _
              (All-map (IsInside w.current_offset) (IsInside size) grow w.index h.index)
              (record { key = h.first_key; inside = omega arith }, tt);
        first_key = omega arith;
        max_seq = h.max_seq;
      })
]

put_entry-IsWriter : (w : Writer) (e : Entry) → IsEntry e → IsWriter w → IsWriter (put_entry w e)
unfolding put_entry
put_entry-IsWriter w e he h = record {
  offset = h.offset;
  index = h.index;
  first_key = elim (Bool-cases (is_empty w.block_buf)) [
    | inl b ↦ rw b he.key
    | inr b ↦ rw b h.first_key
  ];
  max_seq = elim (Bool-cases (ltb w.max_seq e.seq)) [
    | inl b ↦ rw b he.seq
    | inr b ↦ rw b h.max_seq
  ];
}

flush_full-IsWriter : (w : Writer) (key : Bytes) → IsWriter w → IsWriter (flush_full w key)
unfolding flush_full
flush_full-IsWriter w key h =
    elim (Bool-cases (
      not (is_empty w.block_buf)
      && (leb k_block_target_size (length w.block_buf) && not (key_eq key w.block_first_key)))) [
        | inl b ↦ rw b (flush_block-IsWriter w h)
        | inr b ↦ rw b h
      ]

-- Adding an entry whose numbers fit their fields keeps the writer well formed.
pub add-IsWriter : (w : Writer) (e : Entry) → IsEntry e → IsWriter w → IsWriter (add w e)
unfolding add
add-IsWriter w e he h = put_entry-IsWriter (flush_full w e.key) e he (flush_full-IsWriter w e.key h)

pub add_entries-IsWriter :
    (w : Writer) (entries : List Entry)
    → All IsEntry entries
    → IsWriter w
    → IsWriter (add_entries w entries)
unfolding add_entries
add_entries-IsWriter w [] hs h = h
add_entries-IsWriter w (e ∷ entries) (he, hs) h =
    add_entries-IsWriter (add w e) entries hs (add-IsWriter w e he h)

-- The reader's view of a finished table: the numbers, the index and the filter that were written.
abbrev pub table_of : Writer → Table
table_of w = record {
  file = (finish w).file;
  footer = record {
    index_offset = (flush_block w).current_offset;
    bloom_offset = (flush_block w).current_offset + length (encode_index (flush_block w).index);
    entry_count = w.entry_count;
    max_seq = w.max_seq;
    format_version = k_format_version;
    magic = k_magic;
  };
  index = (flush_block w).index;
  bloom = some (add_all (new_bloom (length w.keys) 10) w.keys);
}

-- What `finish` writes behind the entry's block.
pub back : Writer → Bytes
back w =
    encode_index w.index
    ++ (serialize (add_all (new_bloom (length w.keys) 10) w.keys)
        ++ encode_footer w.current_offset (w.current_offset + length (encode_index w.index))
            w.entry_count w.max_seq)

pub finish_file : (w : Writer) → (finish w).file ≡ (flush_block w).file ++ back (flush_block w)
unfolding finish back
finish_file w = refl

-- Flushing leaves the keys and the numbers of the footer alone.
flush_rest :
    (w : Writer)
    → ((flush_block w).keys ≡ w.keys)
      × ((flush_block w).entry_count ≡ w.entry_count)
      × ((flush_block w).max_seq ≡ w.max_seq)
unfolding flush_block
flush_rest w = elim (Bool-cases (is_empty w.block_buf)) [
  | inl a ↦ rw a (refl, refl, refl)
  | inr a ↦ rw a (refl, refl, refl)
]

abbrev filter_of : Writer → Bloom
filter_of w = add_all (new_bloom (length w.keys) 10) w.keys

-- The file that a well-formed writer finishes opens as the table with the written numbers, index
-- and filter, if it holds a block and its size, its count and its filter fit their fields.
pub open_table-finish :
    (w : Writer)
    → IsWriter w
    → 0 < (flush_block w).current_offset
    → length (finish w).file < 2 ^ 64
    → IsU64 w.entry_count
    → IsSmall (new_bloom (length w.keys) 10)
    → open_table (finish w).file ≡ opened (table_of w)
open_table-finish w h pos small count bits =
    let hb = add_all-IsBloom _ w.keys (new_bloom-IsBloom (length w.keys) 10) in
    let hs = add_all-IsSmall _ w.keys bits in
    let f = flush_block w in
    let hf = flush_block-IsWriter w h in
    let (keys, entries, seq) = flush_rest w in
    let filter_bytes = serialize (filter_of w) in
    let same : (finish w).file
        ≡ file_of f.file (encode_index f.index) filter_bytes w.entry_count w.max_seq =
      unfold finish in rw (keys, entries, seq, hf.offset) refl in
    let room : length f.file ≤ length (finish w).file =
      omega (arith, ap length (finish_file w), length-append f.file (back f)) in
    let fits : All IsIndexEntry f.index =
      All-map (IsInside f.current_offset) IsIndexEntry
        (λ ie i. record {
          key = i.key;
          offset = omega (arith, i.inside, room, small, hf.offset);
          length = omega (arith, i.inside, room, small, hf.offset);
        })
        f.index hf.index in
    let loads : load filter_bytes ≡ loaded (filter_of w) =
      ap load (sym (append-nil filter_bytes)) ∙ load-serialize (filter_of w) [] hb hs in
    rw (same, hf.offset)
      (open_table-file_of f.file (encode_index f.index) filter_bytes w.entry_count w.max_seq
        (omega (arith, ap length same, small)) (omega (arith, hf.offset, pos)) (count, h.max_seq)
        f.index (filter_of w)
        (decode_index-encode_index (length (encode_index f.index)) f.index fits (omega arith))
        loads)
