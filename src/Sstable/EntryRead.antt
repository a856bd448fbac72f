-- ===== src/Sstable/EntryRead.antt =====
-- What the iterator reads of one encoded entry, and how iterations begin and end.
use keystone_db.Prelude.{
  ℕ, zero, suc, ◌≤◌, ◌<◌, ◌≡◌, refl, ap, ◌∙◌, List, [], ◌∷◌, ◌++◌, arith, true, false, some,
  if◌then◌else◌, All, All-append, length, length-append, take-length-append, drop-length-append,
  ◌==◌, ◌>>=◌,
}
use keystone_db.Prelude.Keys.{Bytes, IsByte}
use keystone_db.Coding.{put_u32_le}
use keystone_db.Crc32.{crc32}
use keystone_db.Sstable.{Entry, IndexEntry, k_format_version}
use keystone_db.Sstable.Writer.{stored_value, encode_header, encode_entry}
use keystone_db.Sstable.Reader.{Table, block}
use keystone_db.Sstable.Block.{
  IsEntry, encode_entries, header_fields, entry_split, length-encode_entry, encode_entry-All,
}
use keystone_db.Sstable.Iterator.{
  Iterator, end_iterator, with_block, enter_block, read_entry, parse_entry, begin_of, begin,
  iterate_loop,
}
use keystone_db.Sstable.Blocks.{chunk, encode_blocks, all_entries}

-- A tombstone's value is not written.
unfoldable pub stored : Entry → Entry
stored e = record e { value = stored_value e }

unfoldable pub stored_all : List Entry → List Entry
stored_all [] = []
stored_all (e ∷ entries) = stored e ∷ stored_all entries

-- Reading an entry.
pub read_entry-encode_entry :
    (it : Iterator) (e : Entry) (rest : Bytes)
    → IsEntry e
    → it.rest ≡ encode_entry e ++ rest
    → read_entry k_format_version it ≡ record it { rest = rest; current = stored e }
unfolding read_entry stored
read_entry-encode_entry it e rest h q =
    let more = e.key ++ (stored_value e ++ rest) in
    let (e₁, e₂, e₃, e₄, e₅) = header_fields e more h in
    let k₁ = take-length-append e.key (stored_value e ++ rest) (length e.key) refl in
    let k₂ = drop-length-append e.key (stored_value e ++ rest) (length e.key) refl in
    let v₁ = take-length-append (stored_value e) rest (length (stored_value e)) refl in
    let v₂ = drop-length-append (stored_value e) rest (length (stored_value e)) refl in
    let tag : ((if e.tombstone then 1 else 0) == 1) ≡ e.tombstone = ground arith in
    rw (q ∙ entry_split e rest h, e₁, e₂, e₃, e₄, e₅, k₁, k₂, v₁, v₂, tag) refl

pub encode_entries-All :
    (entries : List Entry) → All IsEntry entries → All IsByte (encode_entries entries)
unfolding encode_entries
encode_entries-All [] h = tt
encode_entries-All (e ∷ entries) (he, hs) =
    All-append IsByte (encode_entry e) (encode_entries entries) (encode_entry-All e he)
      (encode_entries-All entries hs)

pub encode_entries_cons :
    (e : Entry) (es : List Entry) → encode_entries (e ∷ es) ≡ encode_entry e ++ encode_entries es
unfolding encode_entries
encode_entries_cons e es = refl

pub with_block-encode_entries :
    (it : Iterator) (e : Entry) (es : List Entry)
    → with_block it (block (encode_entries (e ∷ es)))
      ≡ some (record it { rest = encode_entries (e ∷ es) })
unfolding encode_entries encode_entry encode_header
with_block-encode_entries it e es = refl

abbrev pub at : ℕ → Bytes → Entry → Iterator
at i rest c = record { block_idx = i; rest = rest; valid = true; current = c }

pub encode_entries_nil : encode_entries [] ≡ []
unfolding encode_entries
encode_entries_nil = refl

pub iterate_loop-end :
    (fuel : ℕ) (t : Table) (it : Iterator) → it.valid ≡ false → iterate_loop fuel t it ≡ some []
unfolding iterate_loop
iterate_loop-end zero t it v = refl
iterate_loop-end (suc fuel) t it v = rw v refl

-- Every entry takes bytes.
pub length-encode_entries :
    (entries : List Entry) → length entries ≤ length (encode_entries entries)
unfolding encode_entries
length-encode_entries [] = omega arith
length-encode_entries (e ∷ entries) = omega (
  arith,
  length-encode_entries entries,
  length-append (encode_entry e) (encode_entries entries),
  length-encode_entry e,
)

pub length-all_entries :
    (blocks : List (List Entry)) → length (all_entries blocks) ≤ length (encode_blocks blocks)
unfolding all_entries encode_blocks
length-all_entries [] = omega arith
length-all_entries (b ∷ blocks) = omega (
  arith,
  length-all_entries blocks,
  length-encode_entries b,
  length-append b (all_entries blocks),
  length-append (chunk b) (encode_blocks blocks),
  length-append (encode_entries b) (put_u32_le (crc32 (encode_entries b))),
)

pub begin-index :
    (t : Table) (index : List IndexEntry)
    → t.index ≡ index
    → 0 < length index
    → begin t ≡ (enter_block t (at 0 [] end_iterator.current) >>= parse_entry t)
unfolding begin begin_of
begin-index t [] e n = absurd (omega (arith, n))
begin-index t (ie ∷ index) e n = ap (begin_of t) e

pub begin-nil :
    (t : Table) (index : List IndexEntry)
    → t.index ≡ index
    → length index ≡ 0
    → begin t ≡ some end_iterator
unfolding begin begin_of
begin-nil t [] e n = ap (begin_of t) e
begin-nil t (ie ∷ index) e n = absurd (omega (arith, n))
