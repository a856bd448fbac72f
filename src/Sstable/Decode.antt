-- ===== src/Sstable/Decode.antt =====
-- The index and the footer that SSTableWriter::finish writes are read back by SSTable::open.
use keystone_db.Prelude.{
  ℕ, zero, suc, ◌+◌, ◌%◌, ◌^◌, ◌≤◌, ◌≡◌, refl, sym, ◌∙◌, List, [], ◌∷◌, ◌++◌, arith, some, true,
  false, All, length, length-append, drop, take-length-append, drop-length-append, ltb, ◌==◌,
}
use keystone_db.Prelude.Keys.{Bytes}
use keystone_db.Coding.{IsU32, IsU64, put_u32_le, get_u32_le, put_u64_le, get_u64_le}
use keystone_db.Coding.RoundTrip.{get-put_u32, get-put_u64, put_u32-length, put_u64-length}
use keystone_db.Sstable.{IndexEntry, k_magic, k_format_version, k_footer_size}
use keystone_db.Sstable.Writer.{encode_index, encode_footer}
use keystone_db.Sstable.Open.{read_at, decode_footer, decode_index}

pub read_at-append :
    (before bytes after : Bytes) (offset size : ℕ)
    → offset ≡ length before
    → size ≡ length bytes
    → read_at (before ++ (bytes ++ after)) offset size ≡ some bytes
unfolding read_at
read_at-append before bytes after offset size o n =
    let d = drop-length-append before (bytes ++ after) offset o in
    let t = take-length-append bytes after size n in
    let e : (length bytes == size) ≡ true = ground (arith, n) in rw (d, t, e) refl

-- An index entry whose numbers fit their fields.
pub record IsIndexEntry (ie : IndexEntry) : Type 0 where
  pub key : IsU32 (length ie.first_key)
  pub offset : IsU64 ie.offset
  pub length : IsU64 ie.length

-- The index is read back as it was written.
pub decode_index-encode_index :
    (fuel : ℕ) (index : List IndexEntry)
    → All IsIndexEntry index
    → length (encode_index index) ≤ fuel
    → decode_index fuel (encode_index index) ≡ index
unfolding decode_index encode_index
decode_index-encode_index zero [] h l = refl
decode_index-encode_index (suc fuel) [] h l = refl
decode_index-encode_index zero (ie ∷ index) h l = absurd (
    omega (
      arith,
      l,
      length-append (put_u32_le (length ie.first_key % 2 ^ 32))
          (ie.first_key ++ (put_u64_le ie.offset ++ (put_u64_le ie.length ++ encode_index index))),
      put_u32-length (length ie.first_key % 2 ^ 32),
    ))
decode_index-encode_index (suc fuel) (ie ∷ index) (he, hs) l =
    let n = length ie.first_key % 2 ^ 32 in
    let t₃ = put_u64_le ie.length ++ encode_index index in
    let t₂ = put_u64_le ie.offset ++ t₃ in
    let t₁ = ie.first_key ++ t₂ in
    let e₀ : get_u32_le (put_u32_le n ++ t₁) ≡ length ie.first_key =
      get-put_u32 n t₁ (omega arith) ∙ omega (arith, he.key) in
    let d₀ = drop-length-append (put_u32_le n) t₁ 4 (sym (put_u32-length n)) in
    let k = take-length-append ie.first_key t₂ (length ie.first_key) refl in
    let d₁ = drop-length-append ie.first_key t₂ (length ie.first_key) refl in
    let d₂ = drop-length-append (put_u64_le ie.offset) t₃ 8 (sym (put_u64-length ie.offset)) in
    let d₃ =
      drop-length-append (put_u64_le ie.length) (encode_index index) 8
        (sym (put_u64-length ie.length)) in
    let l₀ = length-append (put_u32_le n) t₁ in
    let l₁ = length-append ie.first_key t₂ in
    let l₂ = length-append (put_u64_le ie.offset) t₃ in
    let l₃ = length-append (put_u64_le ie.length) (encode_index index) in
    let s₁ = put_u32-length n in
    let s₂ = put_u64-length ie.offset in
    let s₃ = put_u64-length ie.length in
    let a : ltb (length (put_u32_le n ++ t₁)) 4 ≡ false = ground (arith, l₀, s₁, s₂, s₃) in
    let b : ltb (length t₁) (length ie.first_key + 16) ≡ false =
      ground (arith, l₁, l₂, l₃, s₁, s₂, s₃) in
    rw
      (
        e₀,
        d₀,
        k,
        d₁,
        d₂,
        d₃,
        a,
        b,
        get-put_u64 ie.offset t₃ he.offset,
        get-put_u64 ie.length (encode_index index) he.length,
        decode_index-encode_index fuel index hs (omega (arith, l, l₀, l₁, l₂, l₃, s₁, s₂, s₃)),
      )
      refl

pub length-encode_footer : (i b c m : ℕ) → length (encode_footer i b c m) ≡ k_footer_size
unfolding encode_footer put_u32_le put_u64_le
length-encode_footer i b c m = refl

footer_fields :
    (i b c m : ℕ)
    → IsU64 i
    → IsU64 b
    → IsU64 c
    → IsU64 m
    → (get_u64_le (encode_footer i b c m) ≡ i)
      × (get_u64_le (drop 8 (encode_footer i b c m)) ≡ b)
      × (get_u64_le (drop 16 (encode_footer i b c m)) ≡ c)
      × (get_u64_le (drop 24 (encode_footer i b c m)) ≡ m)
      × (get_u32_le (drop 32 (encode_footer i b c m)) ≡ k_format_version)
      × (get_u32_le (drop 36 (encode_footer i b c m)) ≡ k_magic)
unfolding encode_footer put_u64_le put_u32_le
footer_fields i b c m hi hb hc hm = (
  get-put_u64 i _ hi,
  get-put_u64 b _ hb,
  get-put_u64 c _ hc,
  get-put_u64 m _ hm,
  get-put_u32 k_format_version _ (omega arith),
  get-put_u32 k_magic [] (omega arith),
)

pub decode_footer-encode_footer :
    (i b c m : ℕ)
    → IsU64 i
    → IsU64 b
    → IsU64 c
    → IsU64 m
    → decode_footer (encode_footer i b c m) ≡ record {
      index_offset = i;
      bloom_offset = b;
      entry_count = c;
      max_seq = m;
      format_version = k_format_version;
      magic = k_magic;
    }
decode_footer-encode_footer i b c m hi hb hc hm =
    let (e₁, e₂, e₃, e₄, e₅, e₆) = footer_fields i b c m hi hb hc hm in
    unfold decode_footer in rw (e₁, e₂, e₃, e₄, e₅, e₆) refl
