-- ===== src/Sstable/Opening.antt =====
-- SSTable::open on a file of blocks, an index, a filter and a footer.
use keystone_db.Prelude.{
  ℕ, ◌+◌, ◌-◌, ◌^◌, ◌<◌, ◌≡◌, refl, sym, ap, ◌∙◌, List, ◌++◌, append_assoc, arith, some, false,
  length, length-append, drop, drop-length-append, ltb, ◌==◌,
}
use keystone_db.Prelude.Keys.{Bytes}
use keystone_db.Coding.{IsU64}
use keystone_db.Bloom.{Bloom, loaded, load}
use keystone_db.Sstable.{IndexEntry, k_magic, k_format_version, k_footer_size}
use keystone_db.Sstable.Writer.{encode_footer}
use keystone_db.Sstable.Reader.{Footer}
use keystone_db.Sstable.Open.{
  opened, read_at, decode_footer, decode_index, index_length, bloom_length, open_bloom, open_table,
}
use keystone_db.Sstable.Decode.{read_at-append, length-encode_footer, decode_footer-encode_footer}

-- A file of blocks, an index, a filter and the footer that says where they begin.
abbrev pub file_of : Bytes → Bytes → Bytes → ℕ → ℕ → Bytes
file_of front index_bytes bloom_bytes count max_seq =
    front
    ++ (index_bytes
        ++ (bloom_bytes
            ++ encode_footer (length front) (length front + length index_bytes) count max_seq))

abbrev footer_of : Bytes → Bytes → ℕ → ℕ → Footer
footer_of front index_bytes count max_seq = record {
  index_offset = length front;
  bloom_offset = length front + length index_bytes;
  entry_count = count;
  max_seq = max_seq;
  format_version = k_format_version;
  magic = k_magic;
}

module _ (front index_bytes bloom_bytes : Bytes) (count max_seq : ℕ)
    (small : length (file_of front index_bytes bloom_bytes count max_seq) < 2 ^ 64)
    (some_front : 0 < length front) (fits : IsU64 count × IsU64 max_seq) where
  length-file_of :
      length (file_of front index_bytes bloom_bytes count max_seq)
      ≡ length front + (length index_bytes + (length bloom_bytes + k_footer_size))
  length-file_of =
      let foot = encode_footer (length front) (length front + length index_bytes) count max_seq in
      omega (
        arith,
        length-append front (index_bytes ++ (bloom_bytes ++ foot)),
        length-append index_bytes (bloom_bytes ++ foot),
        length-append bloom_bytes foot,
        length-encode_footer (length front) (length front + length index_bytes) count max_seq,
      )

  read_footer :
      decode_footer (
        drop
          (length (file_of front index_bytes bloom_bytes count max_seq) - k_footer_size)
          (file_of front index_bytes bloom_bytes count max_seq))
      ≡ footer_of front index_bytes count max_seq
  read_footer =
      let foot = encode_footer (length front) (length front + length index_bytes) count max_seq in
      let lead = (front ++ index_bytes) ++ bloom_bytes in
      let e : file_of front index_bytes bloom_bytes count max_seq ≡ lead ++ foot =
        sym (
          append_assoc (front ++ index_bytes) bloom_bytes foot
          ∙ append_assoc front index_bytes _) in
      let size : length (file_of front index_bytes bloom_bytes count max_seq) - k_footer_size
          ≡ length lead =
        omega (
          arith,
          length-file_of,
          length-append (front ++ index_bytes) bloom_bytes,
          length-append front index_bytes,
        ) in
      ap decode_footer (ap (drop _) e ∙ drop-length-append lead foot _ size)
      ∙ decode_footer-encode_footer _ _ count max_seq (omega (arith, small, length-file_of))
          (omega (arith, small, length-file_of)) (fits.0) (fits.1)

  read_bloom :
      read_at
        (file_of front index_bytes bloom_bytes count max_seq)
        (length front + length index_bytes)
        (bloom_length
          (file_of front index_bytes bloom_bytes count max_seq)
          (footer_of front index_bytes count max_seq))
      ≡ some bloom_bytes
  read_bloom =
      let foot = encode_footer (length front) (length front + length index_bytes) count max_seq in
      ap
        (λ (f : Bytes). read_at f (length front + length index_bytes) (
          bloom_length (file_of front index_bytes bloom_bytes count max_seq)
            (footer_of front index_bytes count max_seq)))
        (sym (append_assoc front index_bytes (bloom_bytes ++ foot)))
      ∙ read_at-append (front ++ index_bytes) bloom_bytes foot _ _
          (sym (length-append front index_bytes)) (omega (arith, small, length-file_of))

  read_index :
      read_at (file_of front index_bytes bloom_bytes count max_seq) (length front) (
        index_length
          (file_of front index_bytes bloom_bytes count max_seq)
          (footer_of front index_bytes count max_seq))
      ≡ some index_bytes
  read_index =
      read_at-append front index_bytes _ _ _ refl
        (ground (arith, some_front, small, length-file_of))

  open_bloom-file_of :
      (index : List IndexEntry) (b : Bloom)
      → load bloom_bytes ≡ loaded b
      → open_bloom
          (file_of front index_bytes bloom_bytes count max_seq)
          (footer_of front index_bytes count max_seq)
          index
        ≡ opened (record {
          file = file_of front index_bytes bloom_bytes count max_seq;
          footer = footer_of front index_bytes count max_seq;
          index = index;
          bloom = some b;
        })
  unfolding open_bloom
  open_bloom-file_of index b lb =
      let on : (length front + length index_bytes == 0) ≡ false = ground (arith, some_front) in
      rw (on, read_bloom, lb) refl

  -- The file opens as the table of its parts.
  pub open_table-file_of :
      (index : List IndexEntry) (b : Bloom)
      → decode_index (length index_bytes) index_bytes ≡ index
      → load bloom_bytes ≡ loaded b
      → open_table (file_of front index_bytes bloom_bytes count max_seq)
        ≡ opened (record {
          file = file_of front index_bytes bloom_bytes count max_seq;
          footer = footer_of front index_bytes count max_seq;
          index = index;
          bloom = some b;
        })
  unfolding open_table
  open_table-file_of index b di lb =
      let long : ltb (length (file_of front index_bytes bloom_bytes count max_seq)) k_footer_size
          ≡ false =
        ground (arith, length-file_of) in
      rw (long, read_footer, read_index, read_footer, di, open_bloom-file_of index b lb) refl
