-- ===== src/Sstable/Block.antt =====
-- The scan of `SSTable::get` over the bytes of a block is a lookup in the list of its entries.
use keystone_db.Prelude.{
  ℕ, zero, suc, ◌+◌, ◌%◌, ◌^◌, ◌≤◌, ◌≡◌, refl, sym, ap, ◌∙◌, List, [], ◌∷◌, ◌++◌, append_assoc,
  arith, false, Bool-cases, inl, inr, length, length-append, drop, All, All-append,
  take-length-append, drop-length-append, ltb, leb, ◌==◌, if◌then◌else◌,
}
use keystone_db.Prelude.Keys.{Bytes, IsByte, key_eq, key_lt}
use keystone_db.Coding.{IsU32, IsU64, put_u32_le, get_u32_le, put_u64_le, get_u64_le, byte_at}
use keystone_db.Coding.RoundTrip.{get-put_u32, get-put_u64}
use keystone_db.Sstable.{Entry, LookupStatus, LookupResult, k_format_version}
use keystone_db.Sstable.Writer.{stored_value, encode_header, encode_entry}
use keystone_db.Sstable.Reader.{nothing, scan_block}

-- An entry whose numbers fit their fields.
pub record IsEntry (e : Entry) : Type 0 where
  pub seq : IsU64 e.seq
  pub key : IsU32 (length e.key)
  pub value : IsU32 (length e.value)
  pub key_bytes : All IsByte e.key
  pub value_bytes : All IsByte e.value

-- What an entry says of its key.
abbrev pub entry_result : Entry → LookupResult
entry_result e =
    if e.tombstone
    then record { status = LookupStatus.deleted; value = [] }
    else record { status = LookupStatus.found; value = e.value }

-- The first entry of the key that is not newer than the snapshot, as long as no larger key comes.
unfoldable pub lookup_entries : Bytes → ℕ → List Entry → LookupResult
lookup_entries key snapshot_seq [] = nothing
lookup_entries key snapshot_seq (e ∷ entries) =
    let next = lookup_entries key snapshot_seq entries in
    if key_eq e.key key
    then (if leb e.seq snapshot_seq then entry_result e else next)
    else if key_lt key e.key
    then nothing
    else next

unfoldable pub encode_entries : List Entry → Bytes
encode_entries [] = []
encode_entries (e ∷ entries) = encode_entry e ++ encode_entries entries

pub length-encode_entry :
    (e : Entry) → length (encode_entry e) ≡ 17 + length e.key + length (stored_value e)
unfolding encode_entry encode_header put_u32_le put_u64_le
length-encode_entry e = omega (arith, length-append e.key (stored_value e))

length-stored_value : (e : Entry) → length (stored_value e) ≤ length e.value
length-stored_value e = ground arith

header-All : (e : Entry) → All IsByte (encode_header e)
unfolding encode_header put_u32_le put_u64_le
header-All e = ground arith

stored-All : (e : Entry) → IsEntry e → All IsByte (stored_value e)
stored-All e h = elim (Bool-cases e.tombstone) [ inl t ↦ rw t tt | inr t ↦ rw t h.value_bytes ]

module _ (e : Entry) (rest : Bytes) (h : IsEntry e) where
  pub header_fields :
      (byte_at (encode_header e ++ rest) 0 ≡ (if e.tombstone then 1 else 0))
      × (get_u64_le (drop 1 (encode_header e ++ rest)) ≡ e.seq)
      × (get_u32_le (drop 9 (encode_header e ++ rest)) ≡ length e.key)
      × (get_u32_le (drop 13 (encode_header e ++ rest)) ≡ length (stored_value e))
      × (drop 17 (encode_header e ++ rest) ≡ rest)
  unfolding encode_header put_u64_le put_u32_le
  header_fields = (
    refl,
    unfold put_u64_le in get-put_u64 e.seq _ h.seq,
    unfold put_u32_le in (get-put_u32 (length e.key % 2 ^ 32) _ (omega arith) ∙ omega arith),
    unfold put_u32_le in
        (get-put_u32 (length (stored_value e) % 2 ^ 32) rest (omega arith)
          ∙ omega (arith, length-stored_value e)),
    refl,
  )

  pub entry_split :
      (encode_entry e ++ rest ≡ encode_header e ++ (e.key ++ (stored_value e ++ rest)))
  unfolding encode_entry
  entry_split = simp append_assoc

tag_result :
    (e : Entry)
    → (if (if e.tombstone then 1 else 0) == 1
        then (record { status = LookupStatus.deleted; value = [] })
        else (record { status = LookupStatus.found; value = stored_value e }))
      ≡ entry_result e
tag_result e = ground arith

-- One round of the scan reads one entry.
scan_block-encode_entry :
    (fuel : ℕ) (key : Bytes) (snapshot_seq : ℕ) (e : Entry) (rest : Bytes)
    → IsEntry e
    → scan_block (suc fuel) k_format_version key snapshot_seq (encode_entry e ++ rest) ≡ (
        let next = scan_block fuel k_format_version key snapshot_seq rest in
        if key_eq e.key key
        then (if leb e.seq snapshot_seq then entry_result e else next)
        else if key_lt key e.key
        then nothing
        else next)
unfolding scan_block
scan_block-encode_entry fuel key snapshot_seq e rest h =
    let more = e.key ++ (stored_value e ++ rest) in
    let (e₁, e₂, e₃, e₄, e₅) = header_fields e more h in
    let split = entry_split e rest h in
    let long : 17 ≤ length (encode_header e ++ more) =
      omega (arith, ap length split, length-append (encode_entry e) rest, length-encode_entry e) in
    let room : length more ≡ length e.key + (length (stored_value e) + length rest) =
      omega (
        arith,
        length-append e.key (stored_value e ++ rest),
        length-append (stored_value e) rest,
      ) in
    let k₁ = take-length-append e.key (stored_value e ++ rest) (length e.key) refl in
    let k₂ = drop-length-append e.key (stored_value e ++ rest) (length e.key) refl in
    let v₁ = take-length-append (stored_value e) rest (length (stored_value e)) refl in
    let n : drop (length e.key + length (stored_value e)) more ≡ rest =
      ap (drop (length e.key + length (stored_value e)))
        (sym (append_assoc e.key (stored_value e) rest))
      ∙ drop-length-append (e.key ++ stored_value e) rest _
          (sym (length-append e.key (stored_value e))) in
    let t₁ : ltb (length (encode_header e ++ more)) 17 ≡ false = ground (arith, long) in
    let t₂ : ltb (length more) (length e.key + length (stored_value e)) ≡ false =
      ground (arith, room) in
    rw (split, e₁, e₂, e₃, e₄, e₅, k₁, k₂, v₁, n, t₁, t₂, tag_result e) refl

-- On a block that holds encoded entries the scan finds what the list of the entries holds.
pub scan_block-encode_entries :
    (fuel : ℕ) (key : Bytes) (snapshot_seq : ℕ) (entries : List Entry)
    → All IsEntry entries
    → length (encode_entries entries) ≤ fuel
    → scan_block fuel k_format_version key snapshot_seq (encode_entries entries)
      ≡ lookup_entries key snapshot_seq entries
unfolding encode_entries lookup_entries
scan_block-encode_entries zero key snapshot_seq [] h l = unfold scan_block in refl
scan_block-encode_entries (suc fuel) key snapshot_seq [] h l = unfold scan_block in refl
scan_block-encode_entries zero key snapshot_seq (e ∷ entries) h l =
    absurd (
      omega (arith, length-append (encode_entry e) (encode_entries entries), length-encode_entry e))
scan_block-encode_entries (suc fuel) key snapshot_seq (e ∷ entries) (he, hs) l =
    rw
      (
        scan_block-encode_entry fuel key snapshot_seq e (encode_entries entries) he,
        scan_block-encode_entries fuel key snapshot_seq entries hs (
            omega (
              arith,
              length-append (encode_entry e) (encode_entries entries),
              length-encode_entry e,
            )),
      )
      refl

pub encode_entry-All : (e : Entry) → IsEntry e → All IsByte (encode_entry e)
unfolding encode_entry
encode_entry-All e h =
    All-append IsByte (encode_header e) _ (header-All e)
      (All-append IsByte e.key (stored_value e) h.key_bytes (stored-All e h))
