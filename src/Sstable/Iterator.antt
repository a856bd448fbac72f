-- ===== src/Sstable/Iterator.antt =====
-- SSTable::Iterator. `rest` is the block from `pos_` on; an exception that read_block throws is
-- `none`. parse_entry does not compare the lengths of an entry with its block: where they are too
-- large the source reads past the block, and here less is read.
use keystone_db.Prelude.{
  ◌%◌, ◌^◌, ℕ, zero, suc, ◌+◌, ◌-◌, List, [], ◌∷◌, Bool, true, false, not, Option, none, some,
  length, get_or, take, drop, ltb, leb, ◌==◌, if◌then◌else◌, ◌>>=◌,
}
use keystone_db.Prelude.Keys.{Bytes, key_lt}
use keystone_db.Coding.{get_u32_le, byte_at}
use keystone_db.Sstable.{Entry, IndexEntry}
use keystone_db.Sstable.Reader.{
  Table, BlockResult, block, checksum_mismatch, no_entry, find_block_idx, load_block, entry_hdr,
  entry_seq,
}

pub record Iterator : Type 0 where
  pub block_idx : ℕ
  pub rest : Bytes
  pub valid : Bool
  pub current : Entry

abbrev pub end_iterator : Iterator
end_iterator = record {
  block_idx = 0;
  rest = [];
  valid = false;
  current = record { key = []; value = []; tombstone = false; seq = 0 };
}

abbrev pub with_block : Iterator → BlockResult → Option Iterator
with_block it checksum_mismatch = none
with_block it (block []) = some (record it { valid = false })
with_block it (block (b ∷ bytes)) = some (record it { rest = b ∷ bytes })

-- Iterator::load_block.
unfoldable pub enter_block : Table → Iterator → Option Iterator
unfolding load_block
enter_block t it =
    if leb (length t.index) it.block_idx
    then some (record it { valid = false })
    else with_block it (load_block t (get_or t.index it.block_idx no_entry))

-- The second half of parse_entry.
unfoldable pub read_entry : ℕ → Iterator → Iterator
read_entry version it =
    let hdr = entry_hdr version in
    let keylen = get_u32_le (drop (hdr - 8) it.rest) in
    let vallen = get_u32_le (drop (hdr - 4) it.rest) in
    let after = drop hdr it.rest in
    record it {
      rest = drop vallen (drop keylen after);
      current = record {
        key = take keylen after;
        value = take vallen (drop keylen after);
        tombstone = byte_at it.rest 0 == 1;
        seq = entry_seq version it.rest;
      };
    }

abbrev pub read_valid : ℕ → Iterator → Option Iterator
read_valid version it = if it.valid then some (read_entry version it) else some it

-- parse_entry, which is `++`: at the end of a block the next one is loaded.
unfoldable pub parse_entry : Table → Iterator → Option Iterator
unfolding enter_block read_entry
parse_entry t it =
    let version = t.footer.format_version in
    if not it.valid
    then some it
    else if ltb (length it.rest) (entry_hdr version)
    then (enter_block t (record it { block_idx = it.block_idx + 1 }) >>= read_valid version)
    else some (read_entry version it)

unfoldable pub begin_of : Table → List IndexEntry → Option Iterator
unfolding parse_entry
begin_of t [] = some end_iterator
begin_of t (_ ∷ _) = do it ← enter_block t (record end_iterator { valid = true }); parse_entry t it

unfoldable pub begin : Table → Option Iterator
unfolding begin_of
begin t = begin_of t t.index

-- The entries of `for (it = begin(); it != end(); ++it)`. An entry takes bytes of the file, so the file's
-- length is fuel enough.
unfoldable pub iterate_loop : ℕ → Table → Iterator → Option (List Entry)
iterate_loop zero t it = some []
iterate_loop (suc fuel) t it =
    let later = (parse_entry t it >>= iterate_loop fuel t) in
    if it.valid then (later >>= λ entries. some (it.current ∷ entries)) else some []

unfoldable pub iterate : Table → Option (List Entry)
unfolding iterate_loop begin
iterate t = do it ← begin t; iterate_loop (length t.file) t it

-- A round of the loop of the seeking constructor, behind the check for the block's end: `later` is the
-- rest of the loop, `hdr` the local entry_hdr.
unfoldable pub seek_entry :
    (Iterator → Option Iterator) → ℕ → Table → Bytes → Iterator → Option Iterator
seek_entry later hdr t seek_target it =
    let keylen = get_u32_le (drop (hdr - 8) it.rest) in
    let vallen = get_u32_le (drop (hdr - 4) it.rest) in
    let after = drop hdr it.rest in
    if not it.valid
    then some it
    else if ltb (length after) (keylen + vallen)
    then some (record it { valid = false })
    else if key_lt (take keylen after) seek_target
    then later (record it { rest = drop ((keylen + vallen) % 2 ^ 32) after })
    else parse_entry t it

unfoldable pub seek_loop : ℕ → ℕ → Table → Bytes → Iterator → Option Iterator
seek_loop zero hdr t seek_target it = some it
seek_loop (suc fuel) hdr t seek_target it =
    (if ltb (length it.rest) hdr
      then enter_block t (record it { block_idx = it.block_idx + 1 })
      else some it)
    >>= seek_entry (seek_loop fuel hdr t seek_target) hdr t seek_target

-- The seeking constructor; its loop takes bytes of the file in every round.
abbrev pub seek_valid : Table → Bytes → Iterator → Option Iterator
seek_valid t seek_target it =
    if it.valid
    then seek_loop (length t.file) (entry_hdr t.footer.format_version) t seek_target it
    else some it

abbrev pub block_or_first : Option ℕ → ℕ
block_or_first none = 0
block_or_first (some bi) = bi

unfoldable pub seek_of : Table → Bytes → List IndexEntry → Option Iterator
seek_of t target [] = some end_iterator
seek_of t target (_ ∷ _) =
    enter_block t (record end_iterator {
      block_idx = block_or_first (find_block_idx t.index target);
      valid = true;
    })
    >>= seek_valid t target

unfoldable pub seek : Table → Bytes → Option Iterator
seek t target = seek_of t target t.index
