-- ===== src/Sstable/Range.antt =====
-- SSTableWriter::smallest_key and largest_key: the keys of the first and of the last added entry.
use keystone_db.Prelude.{
  ◌<◌, ◌≡◌, refl, ◌∙◌, List, [], ◌∷◌, arith, Bool-cases, inl, inr, false, not, ◌&&◌, ◌==◌, leb,
  length,
}
use keystone_db.Prelude.Keys.{Bytes, key_eq}
use keystone_db.Sstable.{Entry, k_block_target_size}
use keystone_db.Sstable.Writer.{
  Writer, new_writer, is_empty, flush_block, flush_full, put_entry, add, add_entries, finish,
}
use keystone_db.Sstable.Blocks.{first_key_of}

-- The last entry's key, and `key` where there is no entry.
unfoldable pub last_key_of : Bytes → List Entry → Bytes
last_key_of key [] = key
last_key_of key (e ∷ entries) = last_key_of e.key entries

-- Two writers with the same range and count.
record IsAlike (w w' : Writer) : Type 0 where
  pub smallest : w'.smallest_key ≡ w.smallest_key
  pub largest : w'.largest_key ≡ w.largest_key
  pub count : w'.entry_count ≡ w.entry_count

flush_block-IsAlike : (w : Writer) → IsAlike w (flush_block w)
unfolding flush_block
flush_block-IsAlike w = elim (Bool-cases (is_empty w.block_buf)) [
  | inl e ↦ rw e (record { smallest = refl; largest = refl; count = refl })
  | inr e ↦ rw e (record { smallest = refl; largest = refl; count = refl })
]

flush_full-IsAlike : (w : Writer) (key : Bytes) → IsAlike w (flush_full w key)
unfolding flush_full
flush_full-IsAlike w key =
    elim (Bool-cases (
      not (is_empty w.block_buf)
      && (leb k_block_target_size (length w.block_buf) && not (key_eq key w.block_first_key)))) [
        | inl e ↦ rw e (flush_block-IsAlike w)
        | inr e ↦ rw e (record { smallest = refl; largest = refl; count = refl })
      ]

-- Behind a first entry the smallest key stays, and the largest is the last one's.
add_entries_range :
    (w : Writer) (entries : List Entry)
    → 0 < w.entry_count
    → ((add_entries w entries).smallest_key ≡ w.smallest_key)
      × ((add_entries w entries).largest_key ≡ last_key_of w.largest_key entries)
unfolding add_entries add put_entry last_key_of
add_entries_range w [] h = (refl, refl)
add_entries_range w (e ∷ entries) h =
    let f = flush_full w e.key in
    let alike = flush_full-IsAlike w e.key in
    let some_entry : (f.entry_count == 0) ≡ false = ground (arith, alike.count, h) in
    let (smallest, largest) = add_entries_range (put_entry f e) entries (omega arith) in
    (smallest ∙ rw some_entry alike.smallest, largest)

-- The range of a finished table is from the first entry's key to the last one's.
pub finish-range :
    (entries : List Entry)
    → ((finish (add_entries new_writer entries)).smallest_key ≡ first_key_of entries)
      × ((finish (add_entries new_writer entries)).largest_key ≡ last_key_of [] entries)
unfolding finish add_entries add put_entry flush_full last_key_of
finish-range [] =
    ((flush_block-IsAlike new_writer).smallest, (flush_block-IsAlike new_writer).largest)
finish-range (e ∷ entries) =
    let alike = flush_block-IsAlike (add_entries new_writer (e ∷ entries)) in
    let (smallest, largest) = add_entries_range (add new_writer e) entries (omega arith) in
    (alike.smallest ∙ smallest, alike.largest ∙ largest)
