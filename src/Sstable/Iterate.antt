-- ===== src/Sstable/Iterate.antt =====
-- Iterating over a finished table gives back the entries that were written.
use keystone_db.Prelude.{
  ℕ, zero, suc, ◌+◌, ◌<◌, ◌≡◌, refl, sym, ap, ◌∙◌, List, [], ◌∷◌, ◌++◌, append_assoc, append-nil,
  arith, true, false, Option, some, All, All-split, length, length-append, get_or, ltb, leb, ◌>>=◌,
}
use keystone_db.Prelude.Keys.{Bytes}
use keystone_db.Sstable.{Entry, k_format_version}
use keystone_db.Sstable.Writer.{new_writer, encode_entry, add_entries, flush_block}
use keystone_db.Sstable.Reader.{Table, block, load_block, no_entry}
use keystone_db.Sstable.Block.{IsEntry, encode_entries, length-encode_entry}
use keystone_db.Sstable.Load.{load_block-flushed}
use keystone_db.Sstable.Finish.{table_of, back, finish_file}
use keystone_db.Sstable.Iterator.{
  Iterator, end_iterator, enter_block, read_valid, parse_entry, iterate_loop, iterate,
}
use keystone_db.Sstable.Holds.{flush_block-Holds, add_entries-Holds, new_writer-Holds}
use keystone_db.Sstable.Blocks.{
  chunk, encode_blocks, all_entries, Indexed, encode_blocks-append, Indexed-at, Indexed-length,
}
use keystone_db.Sstable.EntryRead.{
  stored, stored_all, read_entry-encode_entry, encode_entries-All, encode_entries_cons,
  with_block-encode_entries, at, encode_entries_nil, iterate_loop-end, length-all_entries,
  begin-index, begin-nil,
}

-- The table's file holds the blocks, and its index has them.
module _ (t : Table) (blocks : List (List Entry)) (behind : Bytes)
    (file : t.file ≡ encode_blocks blocks ++ behind) (index : Indexed 0 t.index blocks)
    (version : t.footer.format_version ≡ k_format_version) where
  pub enter_block-at :
      (front : List (List Entry)) (e : Entry) (es : List Entry) (rest : List (List Entry))
      (bytes : Bytes) (c : Entry)
      → blocks ≡ front ++ ((e ∷ es) ∷ rest)
      → All IsEntry (e ∷ es)
      → enter_block t (at (length front) bytes c)
        ≡ some (at (length front) (encode_entries (e ∷ es)) c)
  unfolding enter_block encode_blocks
  enter_block-at front e es rest bytes c split fits =
      let ie = get_or t.index (length front) no_entry in
      let (offset, len, _) = Indexed-at 0 t.index front (e ∷ es) rest (rw split at index) in
      let parts : t.file
          ≡ encode_blocks front ++ (chunk (e ∷ es) ++ (encode_blocks rest ++ behind)) =
        file
        ∙ ap (λ b. encode_blocks b ++ behind) split
        ∙ ap (λ (b : Bytes). b ++ behind) (encode_blocks-append front ((e ∷ es) ∷ rest))
        ∙ append_assoc (encode_blocks front) (chunk (e ∷ es) ++ encode_blocks rest) behind
        ∙ ap (λ b. encode_blocks front ++ b)
            (append_assoc (chunk (e ∷ es)) (encode_blocks rest) behind) in
      let loaded : load_block t ie ≡ block (encode_entries (e ∷ es)) =
        load_block-flushed t ie (encode_blocks front) (encode_entries (e ∷ es))
          (encode_blocks rest ++ behind) parts (omega (arith, offset)) len version
          (encode_entries-All (e ∷ es) fits) in
      let room : length t.index ≡ length front + (1 + length rest) = omega (
        arith,
        Indexed-length 0 t.index blocks index,
        ap length split,
        length-append front ((e ∷ es) ∷ rest),
      ) in
      let more : leb (length t.index) (length front) ≡ false = ground (arith, room) in
      rw (enter_block, more, loaded) (with_block-encode_entries (at (length front) bytes c) e es)

  pub parse_entry-inside :
      (i : ℕ) (c e : Entry) (es : List Entry)
      → IsEntry e
      → parse_entry t (at i (encode_entries (e ∷ es)) c)
        ≡ some (at i (encode_entries es) (stored e))
  unfolding parse_entry
  parse_entry-inside i c e es fits =
      let r = encode_entries_cons e es in
      let long : ltb (length (encode_entries (e ∷ es))) 17 ≡ false = ground (
        arith,
        ap length r,
        length-append (encode_entry e) (encode_entries es),
        length-encode_entry e,
      ) in
      rw (parse_entry, version, long)
        (ap some
          (read_entry-encode_entry (at i (encode_entries (e ∷ es)) c) e (encode_entries es) fits r))

  -- Behind the last entry of a block.
  parse_entry-over :
      (i : ℕ) (c : Entry)
      → parse_entry t (at i [] c)
        ≡ (enter_block t (at (i + 1) [] c) >>= read_valid k_format_version)
  unfolding parse_entry
  parse_entry-over i c = rw (parse_entry, version) refl

  parse_entry-next :
      (front : List (List Entry)) (c e : Entry) (es : List Entry) (rest : List (List Entry)) (i : ℕ)
      → blocks ≡ front ++ ((e ∷ es) ∷ rest)
      → All IsEntry (e ∷ es)
      → i + 1 ≡ length front
      → parse_entry t (at i [] c) ≡ some (at (length front) (encode_entries es) (stored e))
  parse_entry-next front c e es rest i split fits q =
      parse_entry-over i c
      ∙ ap (λ n. enter_block t (at n [] c) >>= read_valid k_format_version) q
      ∙ ap (λ (o : Option Iterator). o >>= read_valid k_format_version)
          (enter_block-at front e es rest [] c split fits)
      ∙ ap some (
          read_entry-encode_entry (at (length front) (encode_entries (e ∷ es)) c) e
            (encode_entries es) fits.0 (encode_entries_cons e es))

  parse_entry-end :
      (i : ℕ) (c : Entry)
      → i + 1 ≡ length blocks
      → parse_entry t (at i [] c) ≡ some (record (at (i + 1) [] c) { valid = false })
  unfolding enter_block
  parse_entry-end i c q =
      let over : leb (length t.index) (i + 1) ≡ true =
        ground (arith, q, Indexed-length 0 t.index blocks index) in
      parse_entry-over i c ∙ rw (enter_block, over) refl

  -- The iteration from an entry on.
  pub iterate_loop-at :
      (fuel : ℕ) (front : List (List Entry)) (c : Entry) (es : List Entry)
      (rest : List (List Entry)) (i : ℕ)
      → blocks ≡ front ++ rest
      → i + 1 ≡ length front
      → All IsEntry es
      → All IsEntry (all_entries rest)
      → length (es ++ all_entries rest) < fuel
      → iterate_loop fuel t (at i (encode_entries es) c)
        ≡ some (c ∷ stored_all (es ++ all_entries rest))
  unfolding iterate_loop all_entries stored_all
  iterate_loop-at zero front c es rest i split q hs hr l = absurd (omega (arith, l))
  iterate_loop-at (suc fuel) front c (e ∷ es) rest i split q (he, hs) hr l =
      let ih = iterate_loop-at fuel front (stored e) es rest i split q hs hr (omega (arith, l)) in
      rw (parse_entry-inside i c e es he, ih) refl
  iterate_loop-at (suc fuel) front c [] [] i split q hs hr l =
      let whole : blocks ≡ front = split ∙ append-nil front in
      let over : i + 1 ≡ length blocks = q ∙ ap length (sym whole) in
      rw
        (
          encode_entries_nil,
          parse_entry-end i c over,
          iterate_loop-end fuel t (record (at (i + 1) [] c) { valid = false }) refl,
        )
        refl
  iterate_loop-at (suc fuel) front c [] ([] ∷ rest) i split q hs hr l =
      let (_, _, some_entry) = Indexed-at 0 t.index front [] rest (rw split at index) in
      absurd (omega (arith, some_entry))
  iterate_loop-at (suc fuel) front c [] ((e ∷ es) ∷ rest) i split q hs hr l =
      let (he, hes) = All-split IsEntry (e ∷ es) (all_entries rest) hr in
      let ih =
        iterate_loop-at fuel (front ++ ((e ∷ es) ∷ [])) (stored e) es rest (length front)
          (split ∙ sym (append_assoc front ((e ∷ es) ∷ []) rest))
          (omega (arith, length-append front ((e ∷ es) ∷ []))) he.1 hes (omega (arith, l)) in
      rw (encode_entries_nil, parse_entry-next front c e es rest i split he q, ih) refl

-- Iterating over a table gives the entries of its blocks, whose first block has an entry.
iterate-blocks :
    (t : Table) (blocks : List (List Entry)) (behind : Bytes)
    → t.file ≡ encode_blocks blocks ++ behind
    → Indexed 0 t.index blocks
    → t.footer.format_version ≡ k_format_version
    → All IsEntry (all_entries blocks)
    → iterate t ≡ some (stored_all (all_entries blocks))
unfolding iterate all_entries stored_all
iterate-blocks t [] behind file index version fits =
    rw
      (
        begin-nil t t.index refl (Indexed-length 0 t.index [] index),
        iterate_loop-end (length t.file) t end_iterator refl,
      )
      refl
iterate-blocks t ([] ∷ blocks) behind file index version fits =
    absurd (omega (arith, (Indexed-at 0 t.index [] [] blocks index).2))
iterate-blocks t ((e ∷ es) ∷ blocks) behind file index version fits =
    let all = (e ∷ es) ∷ blocks in
    let (he, hr) = All-split IsEntry (e ∷ es) (all_entries blocks) fits in
    let entered =
      enter_block-at t all behind file index version [] e es blocks [] end_iterator.current refl
        he in
    let first =
      parse_entry-inside t all behind file index version 0 end_iterator.current e es he.0 in
    let long : length (es ++ all_entries blocks) < length t.file =
      omega
        (arith, length-all_entries all, ap length file, length-append (encode_blocks all) behind) in
    let rest =
      iterate_loop-at t all behind file index version (length t.file) ((e ∷ es) ∷ []) (stored e) es
        blocks 0 refl (omega arith) he.1 hr long in
    rw
      (
        begin-index t t.index refl (omega (arith, Indexed-length 0 t.index all index)),
        entered,
        first,
        rest,
      )
      refl

-- Iterating over the table that a writer finished gives back the entries that were added, in order, all of
-- them and each once, a tombstone without its value, where their numbers fit their fields.
pub iterate-finish :
    (entries : List Entry)
    → All IsEntry entries
    → iterate (table_of (add_entries new_writer entries)) ≡ some (stored_all entries)
iterate-finish entries fits =
    let w = add_entries new_writer entries in
    let (blocks, pending, h, same) = add_entries-Holds new_writer [] [] entries new_writer-Holds in
    let (blocks', h', same') = flush_block-Holds w blocks pending h in
    let all : all_entries blocks' ≡ entries = same' ∙ same ∙ unfold all_entries in refl in
    iterate-blocks (table_of w) blocks' (back (flush_block w))
      (finish_file w ∙ ap (λ (b : Bytes). b ++ back (flush_block w)) h'.file) h'.index refl
      (rw all fits)
    ∙ ap (λ es. some (stored_all es)) all
