-- ===== src/Sstable/Blocks.antt =====
-- Lists of blocks: their bytes in the file, and the index that has them.
use keystone_db.Prelude.{
  ℕ, suc, ◌+◌, ◌<◌, ◌≡◌, refl, sym, ap, ◌∙◌, List, [], ◌∷◌, ◌++◌, append_assoc, arith, length,
  length-append, get_or,
}
use keystone_db.Prelude.Keys.{Bytes}
use keystone_db.Coding.{put_u32_le}
use keystone_db.Crc32.{crc32}
use keystone_db.Sstable.{Entry, IndexEntry}
use keystone_db.Sstable.Writer.{encode_entry}
use keystone_db.Sstable.Block.{encode_entries}
use keystone_db.Sstable.Reader.{no_entry, first_key_at}

abbrev pub chunk : List Entry → Bytes
chunk entries = encode_entries entries ++ put_u32_le (crc32 (encode_entries entries))

unfoldable pub encode_blocks : List (List Entry) → Bytes
encode_blocks [] = []
encode_blocks (entries ∷ blocks) = chunk entries ++ encode_blocks blocks

unfoldable pub all_entries : List (List Entry) → List Entry
all_entries [] = []
all_entries (entries ∷ blocks) = entries ++ all_entries blocks

abbrev pub first_key_of : List Entry → Bytes
first_key_of [] = []
first_key_of (e ∷ _) = e.key

-- The index has the offset, the length and the first key of each block; no block is empty.
unfoldable pub Indexed : ℕ → List IndexEntry → List (List Entry) → Type 0
Indexed offset [] [] = Unit {0}
Indexed offset [] (entries ∷ blocks) = ⊥
Indexed offset (ie ∷ index) [] = ⊥
Indexed offset (ie ∷ index) (entries ∷ blocks) =
    (ie.offset ≡ offset)
    × (ie.length ≡ length (encode_entries entries) + 4)
    × (0 < length entries)
    × (ie.first_key ≡ first_key_of entries)
    × Indexed (offset + length (chunk entries)) index blocks

pub encode_blocks-append :
    (xs ys : List (List Entry)) → encode_blocks (xs ++ ys) ≡ encode_blocks xs ++ encode_blocks ys
unfolding encode_blocks
encode_blocks-append [] ys = refl
encode_blocks-append (b ∷ xs) ys =
    ap (λ t. chunk b ++ t) (encode_blocks-append xs ys)
    ∙ sym (append_assoc (chunk b) (encode_blocks xs) (encode_blocks ys))

pub all_entries-append :
    (xs ys : List (List Entry)) → all_entries (xs ++ ys) ≡ all_entries xs ++ all_entries ys
unfolding all_entries
all_entries-append [] ys = refl
all_entries-append (b ∷ xs) ys =
    ap (λ t. b ++ t) (all_entries-append xs ys)
    ∙ sym (append_assoc b (all_entries xs) (all_entries ys))

pub encode_entries-append :
    (xs ys : List Entry) → encode_entries (xs ++ ys) ≡ encode_entries xs ++ encode_entries ys
unfolding encode_entries
encode_entries-append [] ys = refl
encode_entries-append (e ∷ xs) ys =
    ap (λ t. encode_entry e ++ t) (encode_entries-append xs ys)
    ∙ sym (append_assoc (encode_entry e) (encode_entries xs) (encode_entries ys))

-- One more block at the end.
pub Indexed-append :
    (offset : ℕ) (index : List IndexEntry) (blocks : List (List Entry)) (ie : IndexEntry)
    (entries : List Entry)
    → Indexed offset index blocks
    → ie.offset ≡ offset + length (encode_blocks blocks)
    → ie.length ≡ length (encode_entries entries) + 4
    → 0 < length entries
    → ie.first_key ≡ first_key_of entries
    → Indexed offset (index ++ (ie ∷ [])) (blocks ++ (entries ∷ []))
unfolding Indexed encode_blocks
Indexed-append offset [] [] ie entries h o l n k = (omega (arith, o), l, n, k, tt)
Indexed-append offset [] (b ∷ blocks) ie entries h o l n k = absurd h
Indexed-append offset (i ∷ index) [] ie entries h o l n k = absurd h
Indexed-append offset (i ∷ index) (b ∷ blocks) ie entries (o', l', n', k', h) o l n k = (
  o',
  l',
  n',
  k',
  Indexed-append (offset + length (chunk b)) index blocks ie entries h
      (omega (arith, o, length-append (chunk b) (encode_blocks blocks))) l n k,
)

-- The entry of the block behind `front`.
pub Indexed-at :
    (offset : ℕ) (index : List IndexEntry) (front : List (List Entry)) (entries : List Entry)
    (back : List (List Entry))
    → Indexed offset index (front ++ (entries ∷ back))
    → ((get_or index (length front) no_entry).offset ≡ offset + length (encode_blocks front))
      × ((get_or index (length front) no_entry).length ≡ length (encode_entries entries) + 4)
      × (0 < length entries)
unfolding Indexed encode_blocks
Indexed-at offset [] [] entries back h = absurd h
Indexed-at offset [] (b ∷ front) entries back h = absurd h
Indexed-at offset (i ∷ index) [] entries back (o, l, n, k, h) = (omega (arith, o), l, n)
Indexed-at offset (i ∷ index) (b ∷ front) entries back (o, l, n, k, h) =
    let (o', l', n') = Indexed-at (offset + length (chunk b)) index front entries back h in
    (omega (arith, o', length-append (chunk b) (encode_blocks front)), l', n')

-- The key of the index for the block behind `front` is its first entry's.
pub Indexed-first_key :
    (offset : ℕ) (index : List IndexEntry) (front : List (List Entry)) (entries : List Entry)
    (back : List (List Entry))
    → Indexed offset index (front ++ (entries ∷ back))
    → first_key_at index (length front) ≡ first_key_of entries
unfolding Indexed
Indexed-first_key offset [] [] entries back h = absurd h
Indexed-first_key offset [] (b ∷ front) entries back h = absurd h
Indexed-first_key offset (i ∷ index) [] entries back (_, _, _, k, _) = k
Indexed-first_key offset (i ∷ index) (b ∷ front) entries back (_, _, _, _, h) =
    Indexed-first_key (offset + length (chunk b)) index front entries back h

pub Indexed-length :
    (offset : ℕ) (index : List IndexEntry) (blocks : List (List Entry))
    → Indexed offset index blocks
    → length index ≡ length blocks
unfolding Indexed
Indexed-length offset [] [] h = refl
Indexed-length offset [] (b ∷ blocks) h = absurd h
Indexed-length offset (i ∷ index) [] h = absurd h
Indexed-length offset (i ∷ index) (b ∷ blocks) (_, _, _, _, h) =
    ap suc (Indexed-length (offset + length (chunk b)) index blocks h)
