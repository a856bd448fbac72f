-- ===== src/Sstable/Seek.antt =====
-- The loop of the iterator that seeks a key.
use keystone_db.Prelude.{
  ◌%◌, ◌^◌, ℕ, zero, suc, ◌+◌, ◌<◌, ◌≡◌, refl, sym, ap, ◌∙◌, List, [], ◌∷◌, ◌++◌, append_assoc,
  append-nil, arith, true, false, Option, some, if◌then◌else◌, Bool-cases, inl, inr, All, All-split,
  length, length-append, take, drop, take-length-append, drop-length-append, ltb, leb, ◌>>=◌,
}
use keystone_db.Prelude.Keys.{Bytes, key_lt}
use keystone_db.Coding.{IsU32}
use keystone_db.Sstable.{Entry, k_format_version}
use keystone_db.Sstable.Writer.{stored_value, encode_header, encode_entry}
use keystone_db.Sstable.Reader.{Table}
use keystone_db.Sstable.Block.{
  IsEntry, encode_entries, header_fields, entry_split, length-encode_entry,
}
use keystone_db.Sstable.Iterator.{
  Iterator, enter_block, parse_entry, iterate_loop, seek_entry, seek_loop,
}
use keystone_db.Sstable.Blocks.{encode_blocks, all_entries, Indexed, Indexed-at, Indexed-length}
use keystone_db.Sstable.EntryRead.{
  stored, stored_all, encode_entries_cons, at, encode_entries_nil, iterate_loop-end,
}
use keystone_db.Sstable.Iterate.{enter_block-at, parse_entry-inside, iterate_loop-at}

-- The entries from the first one on whose key is not less than the target.
unfoldable pub skip_less : Bytes → List Entry → List Entry
skip_less target [] = []
skip_less target (e ∷ entries) =
    let rest = skip_less target entries in if key_lt e.key target then rest else e ∷ entries

-- The key and the stored value are together shorter than the loop's 32-bit sum of their lengths can hold.
pub record IsShort (e : Entry) : Type 0 where
  pub short : IsU32 (length e.key + length (stored_value e))

module _ (t : Table) (blocks : List (List Entry)) (behind : Bytes)
    (file : t.file ≡ encode_blocks blocks ++ behind) (index : Indexed 0 t.index blocks)
    (version : t.footer.format_version ≡ k_format_version) (target : Bytes) where
  seek_entry-at :
      (later : Iterator → Option Iterator) (i : ℕ) (c e : Entry) (es : List Entry)
      → IsEntry e
      → IsShort e
      → seek_entry later 17 t target (at i (encode_entries (e ∷ es)) c) ≡ (
          if key_lt e.key target
          then later (at i (encode_entries es) c)
          else some (at i (encode_entries es) (stored e)))
  unfolding seek_entry
  seek_entry-at later i c e es h s =
      let rest = encode_entries es in
      let more = e.key ++ (stored_value e ++ rest) in
      let (e₁, e₂, e₃, e₄, e₅) = header_fields e more h in
      let split : encode_entries (e ∷ es) ≡ encode_header e ++ more =
        encode_entries_cons e es ∙ entry_split e rest h in
      let room : length more ≡ length e.key + (length (stored_value e) + length rest) = omega (
        arith,
        length-append e.key (stored_value e ++ rest),
        length-append (stored_value e) rest,
      ) in
      let fits : ltb (length more) (length e.key + length (stored_value e)) ≡ false =
        ground (arith, room) in
      let k : take (length e.key) more ≡ e.key =
        take-length-append e.key (stored_value e ++ rest) (length e.key) refl in
      let sum : (length e.key + length (stored_value e)) % 2 ^ 32
          ≡ length e.key + length (stored_value e) =
        omega (arith, s.short) in
      let d : drop (length e.key + length (stored_value e)) more ≡ rest =
        ap (drop (length e.key + length (stored_value e)))
          (sym (append_assoc e.key (stored_value e) rest))
        ∙ drop-length-append (e.key ++ stored_value e) rest _
            (sym (length-append e.key (stored_value e))) in
      let p = parse_entry-inside t blocks behind file index version i c e es h in
      let p' : parse_entry t (at i (encode_header e ++ more) c) ≡ some (at i rest (stored e)) =
        ap (λ b. parse_entry t (at i b c)) (sym split) ∙ p in
      ap (λ b. seek_entry later 17 t target (at i b c)) split
      ∙ rw (e₃, e₄, e₅, fits, k, sum, d)
          (ap (λ o. if key_lt e.key target then later (at i rest c) else o) p')

  -- A round at an entry, where the rest of the loop does what it should.
  seek_round :
      (fuel again : ℕ) (front : List (List Entry)) (c e : Entry) (es : List Entry)
      (rest : List (List Entry)) (i : ℕ)
      → blocks ≡ front ++ rest
      → i + 1 ≡ length front
      → All IsEntry (e ∷ es)
      → IsShort e
      → All IsEntry (all_entries rest)
      → length (es ++ all_entries rest) < again
      → (seek_loop fuel 17 t target (at i (encode_entries es) c) >>= iterate_loop again t)
        ≡ some (stored_all (skip_less target (es ++ all_entries rest)))
      → (seek_entry (seek_loop fuel 17 t target) 17 t target (at i (encode_entries (e ∷ es)) c)
          >>= iterate_loop again t)
        ≡ some (stored_all (skip_less target (e ∷ (es ++ all_entries rest))))
  unfolding skip_less stored_all
  seek_round fuel again front c e es rest i split q (he, hs) s hr a ih =
      let at_entry = seek_entry-at (seek_loop fuel 17 t target) i c e es he s in
      elim (Bool-cases (key_lt e.key target)) [
        | inl k ↦ rw (at_entry, k) ih
        | inr k ↦
            rw (at_entry, k)
              (iterate_loop-at t blocks behind file index version again front (stored e) es rest i
                split q hs hr a)
      ]

  enter_block-end :
      (i : ℕ) (c : Entry)
      → i + 1 ≡ length blocks
      → enter_block t (at (i + 1) [] c) ≡ some (record (at (i + 1) [] c) { valid = false })
  unfolding enter_block
  enter_block-end i c q =
      let over : leb (length t.index) (i + 1) ≡ true =
        ground (arith, q, Indexed-length 0 t.index blocks index) in
      rw (enter_block, over) refl

  seek_entry-end :
      (later : Iterator → Option Iterator) (it : Iterator)
      → it.valid ≡ false
      → seek_entry later 17 t target it ≡ some it
  unfolding seek_entry
  seek_entry-end later it v = rw (seek_entry, v) refl

  -- The loop from a place on, and the iteration from the iterator that it gives.
  pub seek_loop-at :
      (fuel again : ℕ) (front : List (List Entry)) (c : Entry) (es : List Entry)
      (rest : List (List Entry)) (i : ℕ)
      → blocks ≡ front ++ rest
      → i + 1 ≡ length front
      → All IsEntry es
      → All IsShort es
      → All IsEntry (all_entries rest)
      → All IsShort (all_entries rest)
      → length (es ++ all_entries rest) < fuel
      → length (es ++ all_entries rest) < again
      → (seek_loop fuel 17 t target (at i (encode_entries es) c) >>= iterate_loop again t)
        ≡ some (stored_all (skip_less target (es ++ all_entries rest)))
  unfolding seek_loop all_entries stored_all skip_less
  seek_loop-at zero again front c es rest i split q hs ss hr sr l a = absurd (omega (arith, l))
  seek_loop-at (suc fuel) again front c (e ∷ es) rest i split q (he, hs) (se, ss) hr sr l a =
      let r = encode_entries_cons e es in
      let long : ltb (length (encode_entries (e ∷ es))) 17 ≡ false = ground (
        arith,
        ap length r,
        length-append (encode_entry e) (encode_entries es),
        length-encode_entry e,
      ) in
      let ih =
        seek_loop-at fuel again front c es rest i split q hs ss hr sr (omega (arith, l))
          (omega (arith, a)) in
      rw long
        (seek_round fuel again front c e es rest i split q (he, hs) se hr (omega (arith, a)) ih)
  seek_loop-at (suc fuel) again front c [] [] i split q hs ss hr sr l a =
      let over : i + 1 ≡ length blocks = q ∙ ap length (sym (split ∙ append-nil front)) in
      let it : Iterator = record (at (i + 1) [] c) { valid = false } in
      rw
        (
          encode_entries_nil,
          enter_block-end i c over,
          seek_entry-end (seek_loop fuel 17 t target) it refl,
          iterate_loop-end again t it refl,
        )
        refl
  seek_loop-at (suc fuel) again front c [] ([] ∷ rest) i split q hs ss hr sr l a =
      let (_, _, some_entry) = Indexed-at 0 t.index front [] rest (rw split at index) in
      absurd (omega (arith, some_entry))
  seek_loop-at (suc fuel) again front c [] ((e ∷ es) ∷ rest) i split q hs ss hr sr l a =
      let (he, hes) = All-split IsEntry (e ∷ es) (all_entries rest) hr in
      let (se, ses) = All-split IsShort (e ∷ es) (all_entries rest) sr in
      let split' = split ∙ sym (append_assoc front ((e ∷ es) ∷ []) rest) in
      let q' : length front + 1 ≡ length (front ++ ((e ∷ es) ∷ [])) =
        omega (arith, length-append front ((e ∷ es) ∷ [])) in
      let ih =
        seek_loop-at fuel again (front ++ ((e ∷ es) ∷ [])) c es rest (length front) split' q' he.1
          se.1 hes ses (omega (arith, l)) (omega (arith, a)) in
      let entered =
        enter_block-at t blocks behind file index version front e es rest [] c split he in
      rw (encode_entries_nil, q, entered)
        (seek_round fuel again (front ++ ((e ∷ es) ∷ [])) c e es rest (length front) split' q' he
          se.0 hes (omega (arith, a)) ih)
