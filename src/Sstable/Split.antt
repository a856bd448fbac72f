-- ===== src/Sstable/Split.antt =====
-- Two versions of a key on both sides of a block's end: the reader finds the older one.
use keystone_db.Prelude.{
  ℕ, ◌+◌, ◌≤◌, ◌<◌, ◌≡◌, refl, sym, ap, ◌∙◌, List, [], ◌∷◌, ◌++◌, append_assoc, append-nil, arith,
  some, Bool-cases, get_or-append_last, inl, inr, true, false, All, All-append, length,
  length-append, get_or, leb,
}
use keystone_db.Prelude.Keys.{Bytes, key_eq, key_le, key_eq_refl, key_le_refl}
use keystone_db.Coding.{put_u32_le}
use keystone_db.Coding.RoundTrip.{put_u32-length}
use keystone_db.Crc32.{crc32}
use keystone_db.Bloom.Contains.{new_bloom-IsBloom, may_contain-add_all}
use keystone_db.Sstable.{Entry, IndexEntry, k_format_version, k_block_target_size}
use keystone_db.Sstable.Writer.{
  Writer, is_empty, encode_header, encode_entry, flush_block, flush_full, put_entry, add,
}
use keystone_db.Sstable.Reader.{
  result, no_entry, table_may_contain, find_block_idx, load_block, scan_block, table_get, block,
}
use keystone_db.Sstable.Block.{
  IsEntry, entry_result, lookup_entries, encode_entries, encode_entry-All,
  scan_block-encode_entries,
}
use keystone_db.Sstable.Load.{load_block-flushed}
use keystone_db.Sstable.Finish.{table_of, back, finish_file}
use keystone_db.Sstable.Search.{find_block_idx_last}

-- The block in hand is full, and the next entry's key is not the block's first key.
pub record Splits (w : Writer) (key : Bytes) : Type 0 where
  pub full : k_block_target_size ≤ length w.block_buf
  pub other : key_eq key w.block_first_key ≡ false
  pub offset : w.current_offset ≡ length w.file
  pub below : All (λ ie. key_le ie.first_key key ≡ true) w.index
  pub first : key_le w.block_first_key key ≡ true

is_empty-false : (bytes : Bytes) → 0 < length bytes → is_empty bytes ≡ false
is_empty-false [] h = absurd (omega arith)
is_empty-false (b ∷ bytes) h = refl

leb-true : (a b : ℕ) → a ≤ b → leb a b ≡ true
leb-true a b h = ground arith

-- The index after the entry's block is flushed too, and what stands in the file in front of it.
abbrev old_index : Writer → List IndexEntry
old_index w =
    w.index
    ++ (record {
      first_key = w.block_first_key;
      offset = w.current_offset;
      length = length w.block_buf + 4;
    }
        ∷ [])

abbrev front : Writer → Bytes
front w = (w.file ++ w.block_buf) ++ put_u32_le (crc32 w.block_buf)

abbrev own_block : Writer → Entry → IndexEntry
own_block w e = record {
  first_key = e.key;
  offset = w.current_offset + (length w.block_buf + 4);
  length = length (encode_entry e) + 4;
}

-- The entry begins a block of its own.
add-Splits :
    (w : Writer) (e : Entry)
    → Splits w e.key
    → (flush_block (add w e)).index ≡ old_index w ++ (own_block w e ∷ [])
unfolding add flush_full flush_block put_entry encode_entry encode_header
add-Splits w e s =
    rw
      (
        is_empty-false w.block_buf (omega (arith, s.full)),
        leb-true k_block_target_size (length w.block_buf) s.full,
        s.other,
      )
      refl

add_file :
    (w : Writer) (e : Entry)
    → Splits w e.key
    → (flush_block (add w e)).file
      ≡ front w ++ (encode_entry e ++ put_u32_le (crc32 (encode_entry e)))
unfolding add flush_full flush_block put_entry encode_entry encode_header
add_file w e s =
    rw
      (
        is_empty-false w.block_buf (omega (arith, s.full)),
        leb-true k_block_target_size (length w.block_buf) s.full,
        s.other,
      )
      (append_assoc (front w) (encode_entry e) (put_u32_le (crc32 (encode_entry e))))

add_keys : (w : Writer) (e : Entry) → (add w e).keys ≡ w.keys ++ (e.key ∷ [])
unfolding add flush_full flush_block put_entry
add_keys w e = elim (Bool-cases (is_empty w.block_buf)) [ inl a ↦ rw a refl | inr a ↦ ground arith ]

length-front :
    (w : Writer) (e : Entry)
    → Splits w e.key
    → length (front w) ≡ w.current_offset + (length w.block_buf + 4)
length-front w e s = omega (
  arith,
  s.offset,
  length-append (w.file ++ w.block_buf) (put_u32_le (crc32 w.block_buf)),
  length-append w.file w.block_buf,
  put_u32-length (crc32 w.block_buf),
)

length-old_index : (w : Writer) → length (old_index w) ≡ length w.index + 1
length-old_index w = length-append w.index _

-- The table's filter knows the last key that was added.
filter_knows : (w : Writer) (e : Entry) → table_may_contain (table_of (add w e)) e.key ≡ true
unfolding table_may_contain
filter_knows w e =
    rw (add_keys w e) (may_contain-add_all _ w.keys [] e.key (new_bloom-IsBloom _ 10))

-- The last block is the one that is read.
find_own :
    (w : Writer) (e : Entry)
    → Splits w e.key
    → find_block_idx (table_of (add w e)).index e.key ≡ some (length (old_index w))
find_own w e s = rw (add-Splits w e s) (
    find_block_idx_last (old_index w) (own_block w e) e.key (
      All-append (λ (x : IndexEntry). key_le x.first_key e.key ≡ true) (old_index w) _
        (All-append (λ (x : IndexEntry). key_le x.first_key e.key ≡ true) w.index _ s.below
          (s.first, tt))
        (key_le_refl e.key, tt)))

-- It holds the entry.
load_own :
    (w : Writer) (e : Entry)
    → Splits w e.key
    → IsEntry e
    → load_block (table_of (add w e)) (own_block w e) ≡ block (encode_entry e)
load_own w e s h =
    load_block-flushed (table_of (add w e)) (own_block w e) (front w) (encode_entry e)
      (back (flush_block (add w e)))
      (finish_file (add w e)
        ∙ ap (λ f. f ++ back (flush_block (add w e))) (add_file w e s)
        ∙ append_assoc (front w) _ _)
      (sym (length-front w e s)) refl refl (encode_entry-All e h)

lookup_one :
    (e : Entry) (snapshot_seq : ℕ)
    → e.seq ≤ snapshot_seq
    → lookup_entries e.key snapshot_seq (e ∷ []) ≡ entry_result e
unfolding lookup_entries
lookup_one e snapshot_seq l = rw (key_eq_refl e.key, leb-true e.seq snapshot_seq l) refl

scan_own :
    (e : Entry) (snapshot_seq : ℕ)
    → IsEntry e
    → e.seq ≤ snapshot_seq
    → scan_block (length (encode_entry e)) k_format_version e.key snapshot_seq (encode_entry e)
      ≡ entry_result e
scan_own e snapshot_seq h l =
    let one : encode_entries (e ∷ []) ≡ encode_entry e = unfold encode_entries in append-nil _ in
    ap (scan_block (length (encode_entry e)) k_format_version e.key snapshot_seq) (sym one)
    ∙ scan_block-encode_entries (length (encode_entry e)) e.key snapshot_seq (e ∷ []) (h, tt)
        (omega (arith, ap length one))
    ∙ lookup_one e snapshot_seq l

-- Where the last entry added begins a block of its own, the lookup of its key answers with that
-- entry.
pub table_get-add-Splits :
    (w : Writer) (e : Entry) (snapshot_seq : ℕ)
    → Splits w e.key
    → IsEntry e
    → e.seq ≤ snapshot_seq
    → table_get (table_of (add w e)) e.key snapshot_seq ≡ result (entry_result e)
unfolding table_get
table_get-add-Splits w e snapshot_seq s h l =
    let at : get_or (table_of (add w e)).index (length (old_index w)) no_entry ≡ own_block w e =
      ap (λ i. get_or i (length (old_index w)) no_entry) (add-Splits w e s)
      ∙ get_or-append_last (old_index w) (own_block w e) no_entry in
    rw (filter_knows w e, find_own w e s, at, load_own w e s h, scan_own e snapshot_seq h l) refl

-- If a newer version of a key, visible to the snapshot, fills a block up that starts with another
-- key, and an older version is added next, then the lookup answers with the older version, where
-- the lookup in the list of the two entries answers with the newer one.
pub table_get_stale :
    (w : Writer) (newer older : Entry) (snapshot_seq : ℕ)
    → newer.key ≡ older.key
    → older.seq < newer.seq
    → newer.seq ≤ snapshot_seq
    → Splits (add w newer) older.key
    → IsEntry older
    → (table_get (table_of (add (add w newer) older)) older.key snapshot_seq
        ≡ result (entry_result older))
      × (lookup_entries older.key snapshot_seq (newer ∷ older ∷ []) ≡ entry_result newer)
unfolding lookup_entries
table_get_stale w newer older snapshot_seq same order l s h = (
  table_get-add-Splits (add w newer) older snapshot_seq s h (omega arith),
  rw (same, key_eq_refl older.key, leb-true newer.seq snapshot_seq l) refl,
)
