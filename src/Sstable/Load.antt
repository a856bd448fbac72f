-- ===== src/Sstable/Load.antt =====
-- A block that the writer flushed passes the reader's checksum and comes back as it was.
use keystone_db.Prelude.{
  ◌+◌, ◌-◌, ◌≡◌, refl, sym, ap, ◌∙◌, [], ◌++◌, append-nil, arith, true, false, All, length,
  length-append, take, drop, take-length-append, drop-length-append, ltb, ◌==◌, ==_refl,
}
use keystone_db.Prelude.Keys.{Bytes, IsByte}
use keystone_db.Coding.{put_u32_le, get_u32_le}
use keystone_db.Coding.RoundTrip.{get-put_u32, put_u32-length}
use keystone_db.Crc32.{crc32}
use keystone_db.Crc32.Bounds.{crc32-IsU32}
use keystone_db.Sstable.{IndexEntry, k_format_version}
use keystone_db.Sstable.Reader.{Table, block, load_block}

pub load_block-flushed :
    (t : Table) (ie : IndexEntry) (front payload back : Bytes)
    → t.file ≡ front ++ ((payload ++ put_u32_le (crc32 payload)) ++ back)
    → ie.offset ≡ length front
    → ie.length ≡ length payload + 4
    → t.footer.format_version ≡ k_format_version
    → All IsByte payload
    → load_block t ie ≡ block payload
unfolding load_block
load_block-flushed t ie front payload back file offset len version bytes =
    let crc = crc32 payload in
    let stored = payload ++ put_u32_le crc in
    let size : length stored ≡ length payload + 4 =
      omega (arith, length-append payload (put_u32_le crc), put_u32-length crc) in
    let got : take ie.length (drop ie.offset t.file) ≡ stored =
      ap (λ (f : Bytes). take ie.length (drop ie.offset f)) file
      ∙ ap (take ie.length) (drop-length-append front _ ie.offset offset)
      ∙ take-length-append stored back ie.length (len ∙ sym size) in
    let whole : (length stored == ie.length) ≡ true = ground (arith, size, len) in
    let p : length stored - 4 ≡ length payload = omega (arith, size) in
    let d : drop (length payload) stored ≡ put_u32_le crc = drop-length-append payload _ _ refl in
    let k : take (length payload) stored ≡ payload = take-length-append payload _ _ refl in
    let long : ltb (length stored) 4 ≡ false = ground (arith, size) in
    let c : get_u32_le (put_u32_le crc) ≡ crc =
      ap get_u32_le (sym (append-nil _)) ∙ get-put_u32 crc [] (crc32-IsU32 payload bytes) in
    rw (got, whole, version, long, p, d, k, c, ==_refl crc) refl
