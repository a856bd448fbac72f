-- ===== src/Sstable/Holds.antt =====
-- The blocks that the writer's file and index hold, and the entries of its block in hand.
use keystone_db.Prelude.{
  ◌≡◌, refl, sym, ap, ◌∙◌, List, [], ◌∷◌, ◌++◌, append_assoc, append-nil, arith, true, false, not,
  ◌&&◌, Bool-cases, inl, inr, length, length-append, leb,
}
use keystone_db.Prelude.Keys.{key_eq}
use keystone_db.Coding.{put_u32_le}
use keystone_db.Coding.RoundTrip.{put_u32-length}
use keystone_db.Crc32.{crc32}
use keystone_db.Sstable.{Entry, k_block_target_size}
use keystone_db.Sstable.Writer.{
  Writer, new_writer, is_empty, flush_block, flush_full, put_entry, add, add_entries, encode_header,
  encode_entry,
}
use keystone_db.Sstable.Block.{encode_entries}
use keystone_db.Sstable.Blocks.{
  chunk, first_key_of, encode_blocks, all_entries, Indexed, encode_blocks-append,
  all_entries-append, encode_entries-append, Indexed-append,
}

pub record Holds (w : Writer) (blocks : List (List Entry)) (pending : List Entry) : Type 0 where
  pub file : w.file ≡ encode_blocks blocks
  pub offset : w.current_offset ≡ length (encode_blocks blocks)
  pub index : Indexed 0 w.index blocks
  pub buf : w.block_buf ≡ encode_entries pending
  pub first_key : w.block_first_key ≡ first_key_of pending

-- A block in hand is empty when no entry is in it.
is_empty-encode_entries :
    (e : Entry) (entries : List Entry) → is_empty (encode_entries (e ∷ entries)) ≡ false
unfolding encode_entries encode_entry encode_header
is_empty-encode_entries e entries = refl

buf_full :
    (w : Writer) (e : Entry) (pending : List Entry)
    → w.block_buf ≡ encode_entries (e ∷ pending)
    → is_empty w.block_buf ≡ false
buf_full w e pending h = ap is_empty h ∙ is_empty-encode_entries e pending

-- Flushing makes the entries in hand a block.
pub flush_block-Holds :
    (w : Writer) (blocks : List (List Entry)) (pending : List Entry)
    → Holds w blocks pending
    → (blocks' : List (List Entry)) × Holds (flush_block w) blocks' []
      × (all_entries blocks' ≡ all_entries blocks ++ pending)
unfolding flush_block encode_entries all_entries encode_blocks
flush_block-Holds w blocks [] h =
    let empty : is_empty w.block_buf ≡ true = ap is_empty h.buf in
    (blocks, rw (flush_block, empty) h, sym (append-nil _))
flush_block-Holds w blocks (e ∷ pending) h =
    let full = buf_full w e pending h.buf in
    let bytes = encode_entries (e ∷ pending) in
    let all = encode_blocks-append blocks ((e ∷ pending) ∷ []) in
    let size : length w.block_buf ≡ length bytes = ap length h.buf in
    (
      blocks ++ ((e ∷ pending) ∷ []),
      rw (flush_block, full)
          (record {
            file =
                append_assoc w.file w.block_buf (put_u32_le (crc32 w.block_buf))
                ∙ ap (λ t. t ++ (w.block_buf ++ put_u32_le (crc32 w.block_buf))) h.file
                ∙ ap (λ t. encode_blocks blocks ++ (t ++ put_u32_le (crc32 t))) h.buf
                ∙ ap (λ t. encode_blocks blocks ++ t) (sym (append-nil (chunk (e ∷ pending))))
                ∙ sym all;
            offset = omega (
              arith,
              h.offset,
              size,
              ap length all,
              length-append (encode_blocks blocks) (encode_blocks ((e ∷ pending) ∷ [])),
              ap length (append-nil (chunk (e ∷ pending))),
              length-append bytes (put_u32_le (crc32 bytes)),
              put_u32-length (crc32 bytes),
            );
            index =
                Indexed-append 0 w.index blocks _ (e ∷ pending) h.index (omega (arith, h.offset))
                  (omega (arith, size)) (omega arith) h.first_key;
            buf = refl;
            first_key = refl;
          }),
      all_entries-append blocks ((e ∷ pending) ∷ [])
          ∙ ap (λ t. all_entries blocks ++ t) (append-nil (e ∷ pending)),
    )

-- The first entry of a block in hand sets the block's first key, and the others keep it.
put_entry-first_key :
    (w : Writer) (blocks : List (List Entry)) (pending : List Entry) (e : Entry)
    → Holds w blocks pending
    → (put_entry w e).block_first_key ≡ first_key_of (pending ++ (e ∷ []))
unfolding put_entry encode_entries
put_entry-first_key w blocks [] e h = rw (ap is_empty h.buf) refl
put_entry-first_key w blocks (x ∷ pending) e h = rw (buf_full w x pending h.buf) h.first_key

put_entry-Holds :
    (w : Writer) (blocks : List (List Entry)) (pending : List Entry) (e : Entry)
    → Holds w blocks pending
    → Holds (put_entry w e) blocks (pending ++ (e ∷ []))
unfolding put_entry encode_entries
put_entry-Holds w blocks pending e h = record {
  file = h.file;
  offset = h.offset;
  index = h.index;
  buf =
      ap (λ t. t ++ encode_entry e) h.buf
      ∙ ap (λ t. encode_entries pending ++ t) (sym (append-nil (encode_entry e)))
      ∙ sym (encode_entries-append pending (e ∷ []));
  first_key = put_entry-first_key w blocks pending e h;
}

add-Holds :
    (w : Writer) (blocks : List (List Entry)) (pending : List Entry) (e : Entry)
    → Holds w blocks pending
    → (blocks' : List (List Entry)) × (pending' : List Entry) × Holds (add w e) blocks' pending'
      × (all_entries blocks' ++ pending' ≡ (all_entries blocks ++ pending) ++ (e ∷ []))
unfolding add flush_full
add-Holds w blocks pending e h =
    elim (Bool-cases (
      not (is_empty w.block_buf)
      && (leb k_block_target_size (length w.block_buf) && not (key_eq e.key w.block_first_key)))) [
        | inl t ↦
            let (blocks', h', same) = flush_block-Holds w blocks pending h in
            (
              blocks',
              e ∷ [],
              rw (flush_full, t) (put_entry-Holds (flush_block w) blocks' [] e h'),
              ap (λ t. t ++ (e ∷ [])) same,
            )
        | inr t ↦ (
          blocks,
          pending ++ (e ∷ []),
          rw (flush_full, t) (put_entry-Holds w blocks pending e h),
          sym (append_assoc (all_entries blocks) pending (e ∷ [])),
        )
      ]

-- The writer holds the entries that were added, in order.
pub add_entries-Holds :
    (w : Writer) (blocks : List (List Entry)) (pending entries : List Entry)
    → Holds w blocks pending
    → (blocks' : List (List Entry)) × (pending' : List Entry) × Holds
        (add_entries w entries)
        blocks'
        pending'
      × (all_entries blocks' ++ pending' ≡ (all_entries blocks ++ pending) ++ entries)
unfolding add_entries
add_entries-Holds w blocks pending [] h = (blocks, pending, h, sym (append-nil _))
add_entries-Holds w blocks pending (e ∷ entries) h =
    let (blocks₁, pending₁, h₁, same₁) = add-Holds w blocks pending e h in
    let (blocks', pending', h', same) = add_entries-Holds (add w e) blocks₁ pending₁ entries h₁ in
    (
      blocks',
      pending',
      h',
      same
          ∙ ap (λ t. t ++ entries) same₁
          ∙ append_assoc (all_entries blocks ++ pending) (e ∷ []) entries,
    )

pub new_writer-Holds : Holds new_writer [] []
unfolding encode_blocks encode_entries Indexed
new_writer-Holds = record { file = refl; offset = refl; index = tt; buf = refl; first_key = refl }
