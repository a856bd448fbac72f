-- ===== src/Sstable/Sought.antt =====
-- Seeking in a whole table: the block that the search finds, and the iteration from there.
use keystone_db.Prelude.{
  ℕ, zero, suc, ◌<◌, ◌≡◌, refl, sym, ap, ◌∙◌, List, [], ◌∷◌, ◌++◌, append_assoc, arith, Option,
  some, inl, inr, All, All-split, Option-cases, length, length-append, length-take, take, drop,
  take-append-drop, ◌>>=◌,
}
use keystone_db.Prelude.Keys.{Bytes}
use keystone_db.Coding.{put_u32_le}
use keystone_db.Sstable.{Entry, IndexEntry, k_format_version}
use keystone_db.Sstable.Writer.{new_writer, add_entries, flush_block}
use keystone_db.Sstable.Reader.{Table, find_block_idx, entry_hdr}
use keystone_db.Coding.RoundTrip.{put_u32-length}
use keystone_db.Crc32.{crc32}
use keystone_db.Sstable.Search.{find_block_idx-some}
use keystone_db.Sstable.Block.{IsEntry, encode_entries}
use keystone_db.Sstable.Finish.{table_of, back, finish_file}
use keystone_db.Sstable.Iterator.{
  Iterator, end_iterator, enter_block, iterate_loop, seek_loop, seek_valid, block_or_first, seek_of,
  seek,
}
use keystone_db.Sstable.Holds.{flush_block-Holds, add_entries-Holds, new_writer-Holds}
use keystone_db.Sstable.Blocks.{
  encode_blocks, all_entries, Indexed, chunk, encode_blocks-append, all_entries-append, Indexed-at,
  Indexed-length,
}
use keystone_db.Sstable.EntryRead.{
  stored_all, at, iterate_loop-end, length-encode_entries, length-all_entries,
}
use keystone_db.Sstable.Iterate.{enter_block-at}
use keystone_db.Sstable.Seek.{skip_less, seek_loop-at, IsShort}
use keystone_db.Sstable.Passed.{IsSeekable, drop-cons, passed}

block_or_first-find_block_idx :
    (index : List IndexEntry) (target : Bytes)
    → 0 < length index
    → block_or_first (find_block_idx index target) < length index
block_or_first-find_block_idx index target n = elim (Option-cases (find_block_idx index target)) [
  | inl e ↦ rw e n
  | inr (i, e) ↦ rw e (find_block_idx-some index target i e).0
]

drop-nil : (n : ℕ) → ◌≡◌ {A = List (List Entry)} (drop n []) []
drop-nil zero = refl
drop-nil (suc n) = refl

seek-index :
    (t : Table) (target : Bytes) (index : List IndexEntry)
    → t.index ≡ index
    → 0 < length index
    → seek t target ≡ (
        enter_block t (at (block_or_first (find_block_idx t.index target)) [] end_iterator.current)
        >>= seek_valid t target)
unfolding seek seek_of
seek-index t target [] e n = absurd (omega (arith, n))
seek-index t target (ie ∷ index) e n = ap (seek_of t target) e

seek-nil :
    (t : Table) (target : Bytes) (index : List IndexEntry)
    → t.index ≡ index
    → length index ≡ 0
    → seek t target ≡ some end_iterator
unfolding seek seek_of
seek-nil t target [] e n = ap (seek_of t target) e
seek-nil t target (ie ∷ index) e n = absurd (omega (arith, n))

-- Fewer entries than bytes are left of blocks of which one is left.
length-left :
    (b : List Entry) (rest : List (List Entry))
    → length (b ++ all_entries rest) < length (encode_blocks (b ∷ rest))
unfolding encode_blocks
length-left b rest = omega (
  arith,
  length-all_entries rest,
  length-encode_entries b,
  length-append b (all_entries rest),
  length-append (chunk b) (encode_blocks rest),
  length-append (encode_entries b) (put_u32_le (crc32 (encode_entries b))),
  put_u32-length (crc32 (encode_entries b)),
)

-- The iteration from a sought iterator on, over a table that has a block.
seek_from :
    (t : Table) (blocks : List (List Entry)) (behind target : Bytes) (n : ℕ) (b : List Entry)
    (rest : List (List Entry))
    → t.file ≡ encode_blocks blocks ++ behind
    → Indexed 0 t.index blocks
    → t.footer.format_version ≡ k_format_version
    → All IsEntry (all_entries blocks)
    → All IsShort (all_entries blocks)
    → n < length blocks
    → drop n blocks ≡ b ∷ rest
    → ((enter_block t (at n [] end_iterator.current) >>= seek_valid t target)
        >>= iterate_loop (length t.file) t)
      ≡ some (stored_all (skip_less target (all_entries (drop n blocks))))
unfolding all_entries
seek_from t blocks behind target n [] rest file index version fits short l d =
    let split : blocks ≡ take n blocks ++ ([] ∷ rest) =
      sym (take-append-drop n blocks) ∙ ap (λ r. take n blocks ++ r) d in
    absurd (omega (arith, (Indexed-at 0 t.index (take n blocks) [] rest (rw split at index)).2))
seek_from t blocks behind target n (e ∷ es) rest file index version fits short l d =
    let front = take n blocks in
    let split : blocks ≡ front ++ ((e ∷ es) ∷ rest) =
      sym (take-append-drop n blocks) ∙ ap (λ r. front ++ r) d in
    let i : length front ≡ n = omega (arith, length-take n blocks, l) in
    let every : All IsEntry (all_entries front ++ all_entries ((e ∷ es) ∷ rest)) =
      rw (ap all_entries split ∙ all_entries-append front ((e ∷ es) ∷ rest)) at fits in
    let left = (All-split IsEntry (all_entries front) (all_entries ((e ∷ es) ∷ rest)) every).1 in
    let every_short : All IsShort (all_entries front ++ all_entries ((e ∷ es) ∷ rest)) =
      rw (ap all_entries split ∙ all_entries-append front ((e ∷ es) ∷ rest)) at short in
    let left_short =
      (All-split IsShort (all_entries front) (all_entries ((e ∷ es) ∷ rest)) every_short).1 in
    let (se, sr) = All-split IsShort (e ∷ es) (all_entries rest) left_short in
    let (he, hr) = All-split IsEntry (e ∷ es) (all_entries rest) left in
    let bytes : length ((e ∷ es) ++ all_entries rest) < length t.file = omega (
      arith,
      length-left (e ∷ es) rest,
      ap length file,
      length-append (encode_blocks blocks) behind,
      ap (λ bs. length (encode_blocks bs)) split,
      ap length (encode_blocks-append front ((e ∷ es) ∷ rest)),
      length-append (encode_blocks front) (encode_blocks ((e ∷ es) ∷ rest)),
    ) in
    let entered =
      enter_block-at t blocks behind file index version front e es rest [] end_iterator.current
        split he in
    let looped =
      seek_loop-at t blocks behind file index version target (length t.file) (length t.file)
        (front ++ ((e ∷ es) ∷ [])) end_iterator.current (e ∷ es) rest (length front)
        (split ∙ sym (append_assoc front ((e ∷ es) ∷ []) rest))
        (omega (arith, length-append front ((e ∷ es) ∷ []))) he se hr sr bytes bytes in
    ap
      (λ m.
        (enter_block t (at m [] end_iterator.current) >>= seek_valid t target)
        >>= iterate_loop (length t.file) t)
      (sym i)
    ∙ ap (λ (o : Option Iterator). (o >>= seek_valid t target) >>= iterate_loop (length t.file) t)
        entered
    ∙ ap
        (λ v.
          seek_loop (length t.file) (entry_hdr v) t target
            (at (length front) (encode_entries (e ∷ es)) end_iterator.current)
          >>= iterate_loop (length t.file) t)
        version
    ∙ looped
    ∙ ap (λ bs. some (stored_all (skip_less target (all_entries bs)))) (sym d)

seek-blocks :
    (t : Table) (blocks : List (List Entry)) (behind target : Bytes)
    → t.file ≡ encode_blocks blocks ++ behind
    → Indexed 0 t.index blocks
    → t.footer.format_version ≡ k_format_version
    → All IsEntry (all_entries blocks)
    → All IsShort (all_entries blocks)
    → (seek t target >>= iterate_loop (length t.file) t)
      ≡ some (
          stored_all (
            skip_less target
              (all_entries (drop (block_or_first (find_block_idx t.index target)) blocks))))
unfolding all_entries skip_less stored_all
seek-blocks t [] behind target file index version fits short =
    rw
      (
        seek-nil t target t.index refl (Indexed-length 0 t.index [] index),
        iterate_loop-end (length t.file) t end_iterator refl,
        drop-nil,
      )
      refl
seek-blocks t (b ∷ blocks) behind target file index version fits short =
    let n = block_or_first (find_block_idx t.index target) in
    let count = Indexed-length 0 t.index (b ∷ blocks) index in
    let some_block : 0 < length t.index = omega (arith, count) in
    let inside : n < length (b ∷ blocks) =
      omega (arith, count, block_or_first-find_block_idx t.index target some_block) in
    let (b', rest, d) = drop-cons n (b ∷ blocks) inside in
    ap (λ (o : Option Iterator). o >>= iterate_loop (length t.file) t)
      (seek-index t target t.index refl some_block)
    ∙ seek_from t (b ∷ blocks) behind target n b' rest file index version fits short inside d

-- On the table that a writer finished from entries in key order, of which one at most has the target's
-- key, seeking the target and iterating from there gives the entries from the first one on whose key is
-- not less than the target, all of them and each once, a tombstone without its value, if the entries'
-- numbers fit their fields and no key together with its value has 2 ^ 32 bytes.
pub seek-finish :
    (entries : List Entry) (target : Bytes)
    → All IsEntry entries
    → All IsShort entries
    → IsSeekable target entries
    → (seek (table_of (add_entries new_writer entries)) target
        >>= iterate_loop
            (length (table_of (add_entries new_writer entries)).file)
            (table_of (add_entries new_writer entries)))
      ≡ some (stored_all (skip_less target entries))
seek-finish entries target fits short order =
    let w = add_entries new_writer entries in
    let t = table_of w in
    let (blocks, pending, h, same) = add_entries-Holds new_writer [] [] entries new_writer-Holds in
    let (blocks', h', same') = flush_block-Holds w blocks pending h in
    let all : all_entries blocks' ≡ entries = same' ∙ same ∙ unfold all_entries in refl in
    seek-blocks t blocks' (back (flush_block w)) target
      (finish_file w ∙ ap (λ (b : Bytes). b ++ back (flush_block w)) h'.file) h'.index refl
      (rw all fits) (rw all short)
    ∙ ap (λ es. some (stored_all es))
        (passed t.index blocks' target h'.index (rw all order) ∙ ap (skip_less target) all)
