-- ===== src/Manifest/Read.antt =====
-- One entry and one snapshot: what was written is read, as long as the buffer's size allows it.
use keystone_db.Prelude.{
  ℕ, suc, ◌+◌, ◌%◌, ◌^◌, ◌≤◌, ◌<◌, ◌≡◌, refl, sym, ap, ◌∙◌, List, [], ◌∷◌, ◌++◌, append-nil,
  append_assoc, none, some, arith, length, length-append, All, All-append,
}
use native.Mathlib.Decide.{dec_lt}
use keystone_db.Prelude.Keys.{Bytes, IsByte}
use keystone_db.Prelude.Files.{read_fully-append}
use keystone_db.Coding.{put_u32_le, get_u32_le, IsU32}
use keystone_db.Coding.RoundTrip.{get-put_u32, put_u32-length, put_u32-All}
use keystone_db.Manifest.{
  ManifestEntry, encode_entry, encode_entries, Reader, read_u32, read_bytes, read_entry,
  read_entries,
}

pub record IsEntry (e : ManifestEntry) : Type 0 where
  pub number : IsU32 e.number
  pub level : IsU32 e.level
  pub smallest : IsU32 (length e.smallest_key)
  pub largest : IsU32 (length e.largest_key)
  pub smallest_bytes : All IsByte e.smallest_key
  pub largest_bytes : All IsByte e.largest_key

pub get-put : (v : ℕ) → IsU32 v → get_u32_le (put_u32_le (v % 2 ^ 32)) ≡ v
get-put v h =
    ap get_u32_le (sym (append-nil (put_u32_le (v % 2 ^ 32))))
    ∙ get-put_u32 (v % 2 ^ 32) [] (omega arith)
    ∙ omega arith

-- A number is read where the buffer has room for it.
read_u32-put :
    (v : ℕ) (more rest : Bytes) (size : ℕ)
    → IsU32 v
    → length rest + 4 ≤ size
    → read_u32 (record { file = put_u32_le (v % 2 ^ 32) ++ more; rest = rest; size = size })
      ≡ some (v, record { file = more; rest = rest ++ put_u32_le (v % 2 ^ 32); size = size })
unfolding read_u32
read_u32-put v more rest size h room = ground (
  arith,
  read_fully-append 4 (put_u32_le (v % 2 ^ 32)) more (sym (put_u32-length _)),
  get-put v h,
)

-- Where it has none, the reader gives up, although the file holds the number.
read_u32_full : (r : Reader) → r.size < length r.rest + 4 → read_u32 r ≡ none
unfolding read_u32
read_u32_full r h = ground arith

read_bytes-append :
    (s more rest : Bytes) (size : ℕ)
    → length rest + length s ≤ size
    → read_bytes (length s) (record { file = s ++ more; rest = rest; size = size })
      ≡ some (s, record { file = more; rest = rest ++ s; size = size })
unfolding read_bytes
read_bytes-append [] more rest size h = rw append-nil
read_bytes-append (x ∷ s) more rest size h =
    ground (arith, read_fully-append (suc (length s)) (x ∷ s) more refl)

-- A key that does not fit makes the buffer exactly as long as what has been read.
read_bytes_grows :
    (s more rest : Bytes) (size : ℕ)
    → size < length rest + length s
    → length rest ≤ size
    → read_bytes (length s) (record { file = s ++ more; rest = rest; size = size })
      ≡ some (s, record { file = more; rest = rest ++ s; size = length rest + length s })
unfolding read_bytes
read_bytes_grows [] more rest size h k = absurd (omega arith)
read_bytes_grows (x ∷ s) more rest size h k =
    ground (arith, read_fully-append (suc (length s)) (x ∷ s) more refl)

pub length-encode_entry :
    (e : ManifestEntry)
    → length (encode_entry e) ≡ 16 + length e.smallest_key + length e.largest_key
unfolding encode_entry put_u32_le
length-encode_entry e = omega (
  arith,
  length-append e.smallest_key (put_u32_le (length e.largest_key % 2 ^ 32) ++ e.largest_key),
)

-- The fields of an entry, bracketed to the right.
encode_entry-append :
    (e : ManifestEntry) (more : Bytes)
    → encode_entry e ++ more
      ≡ put_u32_le (e.number % 2 ^ 32)
        ++ (put_u32_le (e.level % 2 ^ 32)
            ++ (put_u32_le (length e.smallest_key % 2 ^ 32)
                ++ (e.smallest_key
                    ++ (put_u32_le (length e.largest_key % 2 ^ 32) ++ (e.largest_key ++ more)))))
unfolding encode_entry
encode_entry-append e more = simp append_assoc

module _ (e : ManifestEntry) (h : IsEntry e) (more rest : Bytes) (size : ℕ) where
  -- An entry is read where the buffer has room for all of it.
  read_entry-encode :
      length rest + length (encode_entry e) ≤ size
      → read_entry (record { file = encode_entry e ++ more; rest = rest; size = size })
        ≡ some (e, record { file = more; rest = rest ++ encode_entry e; size = size })
  unfolding read_entry
  read_entry-encode room =
      let n = put_u32_le (e.number % 2 ^ 32) in
      let l = put_u32_le (e.level % 2 ^ 32) in
      let s = put_u32_le (length e.smallest_key % 2 ^ 32) in
      let t = put_u32_le (length e.largest_key % 2 ^ 32) in
      rw
        (
          encode_entry-append e more,
          read_u32-put e.number _ rest size h.number (omega (arith, length-encode_entry e)),
          read_u32-put e.level _ (rest ++ n) size h.level
              (omega (arith, length-encode_entry e, length-append {0}, put_u32-length)),
          read_u32-put (length e.smallest_key) _ ((rest ++ n) ++ l) size h.smallest
              (omega (arith, length-encode_entry e, length-append {0}, put_u32-length)),
          read_bytes-append e.smallest_key _ (((rest ++ n) ++ l) ++ s) size
              (omega (arith, length-encode_entry e, length-append {0}, put_u32-length)),
          read_u32-put (length e.largest_key) _ ((((rest ++ n) ++ l) ++ s) ++ e.smallest_key) size
              h.largest (omega (arith, length-encode_entry e, length-append {0}, put_u32-length)),
          read_bytes-append e.largest_key more (((((rest ++ n) ++ l) ++ s) ++ e.smallest_key) ++ t)
              size (omega (arith, length-encode_entry e, length-append {0}, put_u32-length)),
        )
        (unfold encode_entry in simp append_assoc)

  -- An entry whose smallest key fills the buffer up is not read: the length of its largest key is
  -- refused.
  read_entry_full :
      length rest + 12 ≤ size
      → size < length rest + 16 + length e.smallest_key
      → read_entry (record { file = encode_entry e ++ more; rest = rest; size = size }) ≡ none
  unfolding read_entry
  read_entry_full room over =
      let n = put_u32_le (e.number % 2 ^ 32) in
      let l = put_u32_le (e.level % 2 ^ 32) in
      let s = put_u32_le (length e.smallest_key % 2 ^ 32) in
      let before : length (((rest ++ n) ++ l) ++ s) ≡ length rest + 12 =
        omega (arith, length-append {0}, put_u32-length) in
      rw
        (
          encode_entry-append e more,
          read_u32-put e.number _ rest size h.number (omega arith),
          read_u32-put e.level _ (rest ++ n) size h.level
              (omega (arith, length-append {0}, put_u32-length)),
          read_u32-put (length e.smallest_key) _ ((rest ++ n) ++ l) size h.smallest
              (omega (arith, length-append {0}, put_u32-length)),
        )
        (elim (dec_lt size (length (((rest ++ n) ++ l) ++ s) + length e.smallest_key)) [
          | yes grows ↦ rw (
            read_bytes_grows e.smallest_key _ (((rest ++ n) ++ l) ++ s) size grows (omega arith),
            read_u32_full
                (record {
                  file = put_u32_le (length e.largest_key % 2 ^ 32) ++ (e.largest_key ++ more);
                  rest = (((rest ++ n) ++ l) ++ s) ++ e.smallest_key;
                  size = length (((rest ++ n) ++ l) ++ s) + length e.smallest_key;
                })
                (omega (arith, length-append {0})),
          )
          | no fits ↦ rw (
            read_bytes-append e.smallest_key _ (((rest ++ n) ++ l) ++ s) size (omega arith),
            read_u32_full
                (record {
                  file = put_u32_le (length e.largest_key % 2 ^ 32) ++ (e.largest_key ++ more);
                  rest = (((rest ++ n) ++ l) ++ s) ++ e.smallest_key;
                  size = size;
                })
                (omega (arith, length-append {0})),
          )
        ])

pub encode_entries-append :
    (xs ys : List ManifestEntry)
    → encode_entries (xs ++ ys) ≡ encode_entries xs ++ encode_entries ys
unfolding encode_entries
encode_entries-append [] ys = refl
encode_entries-append (e ∷ xs) ys = simp (encode_entries-append xs ys, append_assoc)

pub read_entries-encode :
    (files : List ManifestEntry) (more rest : Bytes) (size : ℕ)
    → All IsEntry files
    → length rest + length (encode_entries files) ≤ size
    → read_entries
        (length files)
        (record { file = encode_entries files ++ more; rest = rest; size = size })
      ≡ some (files, record { file = more; rest = rest ++ encode_entries files; size = size })
unfolding read_entries encode_entries
read_entries-encode [] more rest size h room = rw append-nil
read_entries-encode (e ∷ files) more rest size (he, hs) room =
    let l = length-append (encode_entry e) (encode_entries files) in
    rw (
      append_assoc (encode_entry e) (encode_entries files) more,
      read_entry-encode e he (encode_entries files ++ more) rest size (omega arith),
      read_entries-encode files more (rest ++ encode_entry e) size hs
          (omega (arith, length-append rest (encode_entry e))),
      append_assoc,
    )

pub read_entries_full :
    (xs ys : List ManifestEntry) (e : ManifestEntry) (more rest : Bytes) (size : ℕ)
    → All IsEntry xs
    → IsEntry e
    → length rest + length (encode_entries xs) + 12 ≤ size
    → size < length rest + length (encode_entries xs) + 16 + length e.smallest_key
    → read_entries
        (length (xs ++ (e ∷ ys)))
        (record { file = encode_entries (xs ++ (e ∷ ys)) ++ more; rest = rest; size = size })
      ≡ none
unfolding read_entries encode_entries
read_entries_full [] ys e more rest size h he room over = rw (
  append_assoc (encode_entry e) (encode_entries ys) more,
  read_entry_full e he (encode_entries ys ++ more) rest size (omega arith) (omega arith),
)
read_entries_full (x ∷ xs) ys e more rest size (hx, hs) he room over =
    let l = length-append (encode_entry x) (encode_entries xs) in
    let k = length-append rest (encode_entry x) in
    rw (
      append_assoc (encode_entry x) (encode_entries (xs ++ (e ∷ ys))) more,
      read_entry-encode x hx (encode_entries (xs ++ (e ∷ ys)) ++ more) rest size (omega arith),
      read_entries_full xs ys e more (rest ++ encode_entry x) size hs he (omega arith)
          (omega arith),
    )

encode_entry-All : (e : ManifestEntry) → IsEntry e → All IsByte (encode_entry e)
unfolding encode_entry
encode_entry-All e h = All-append IsByte (put_u32_le _) _ (put_u32-All _) (
    All-append IsByte (put_u32_le _) _ (put_u32-All _) (
      All-append IsByte (put_u32_le _) _ (put_u32-All _) (
        All-append IsByte e.smallest_key _ h.smallest_bytes
          (All-append IsByte (put_u32_le _) _ (put_u32-All _) h.largest_bytes))))

pub encode_entries-All :
    (files : List ManifestEntry) → All IsEntry files → All IsByte (encode_entries files)
unfolding encode_entries
encode_entries-All [] h = tt
encode_entries-All (e ∷ files) (he, hs) =
    All-append IsByte (encode_entry e) _ (encode_entry-All e he) (encode_entries-All files hs)
