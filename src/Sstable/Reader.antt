-- ===== src/Sstable/Reader.antt =====
-- SSTable: the reader of a finished file.
use keystone_db.Prelude.{
  ℕ, zero, suc, ◌+◌, ◌-◌, ◌/◌, List, [], ◌∷◌, Bool, true, not, Option, none, some, length, take,
  drop, get_or, ltb, leb, ◌==◌, if◌then◌else◌,
}
use keystone_db.Prelude.Keys.{Bytes, key_lt, key_le, key_eq}
use keystone_db.Coding.{get_u32_le, get_u64_le, byte_at}
use keystone_db.Crc32.{crc32}
use keystone_db.Bloom.{Bloom, may_contain}
use keystone_db.Sstable.{IndexEntry, LookupResult, LookupStatus}

pub record Footer : Type 0 where
  pub index_offset : ℕ
  pub bloom_offset : ℕ
  pub entry_count : ℕ
  pub max_seq : ℕ
  pub format_version : ℕ
  pub magic : ℕ

pub record Table : Type 0 where
  pub file : Bytes
  pub footer : Footer
  pub index : List IndexEntry
  pub bloom : Option Bloom

abbrev pub no_entry : IndexEntry
no_entry = record { first_key = []; offset = 0; length = 0 }

abbrev pub first_key_at : List IndexEntry → ℕ → Bytes
first_key_at index i = (get_or index i no_entry).first_key

unfoldable pub table_may_contain : Table → Bytes → Bool
table_may_contain t key = elim t.bloom [ none ↦ true | some b ↦ may_contain b key ]

-- The loop of `find_block_idx`; the distance of `lo` and `hi` shrinks, and is fuel enough.
unfoldable pub search_loop : ℕ → List IndexEntry → Bytes → ℕ → ℕ → ℕ
search_loop zero index key lo hi = lo
search_loop (suc fuel) index key lo hi =
    let mid = lo + (hi - lo) / 2 in
    let up = key_le (first_key_at index mid) key in
    let next = search_loop fuel index key (if up then mid else lo) (if up then hi else mid) in
    if ltb (lo + 1) hi then next else lo

-- `none` is the result -1.
unfoldable pub find_block_idx : List IndexEntry → Bytes → Option ℕ
find_block_idx [] key = none
find_block_idx (ie ∷ index) key =
    if key_lt key ie.first_key
    then none
    else some (search_loop (length (ie ∷ index)) (ie ∷ index) key 0 (length (ie ∷ index)))

-- What `read_block` returns, or the checksum error that it throws.
pub data BlockResult : Type 0 where
  block : Bytes → BlockResult
  checksum_mismatch : BlockResult

-- The loader of `read_block`: `pread` gives the bytes of the file from an offset on, and a short
-- read an empty buffer.
unfoldable pub load_block : Table → IndexEntry → BlockResult
load_block t ie =
    let got = take ie.length (drop ie.offset t.file) in
    let buf = if length got == ie.length then got else [] in
    let payload_len = length buf - 4 in
    if not (leb 3 t.footer.format_version)
    then block buf
    else if ltb (length buf) 4
    then block buf
    else if get_u32_le (drop payload_len buf) == crc32 (take payload_len buf)
    then block (take payload_len buf)
    else checksum_mismatch

-- The size of an entry's header: format 1 has no sequence number.
abbrev pub entry_hdr : ℕ → ℕ
entry_hdr version = if leb 2 version then 17 else 9

abbrev pub entry_seq : ℕ → Bytes → ℕ
entry_seq version rest = if leb 2 version then get_u64_le (drop 1 rest) else 0

abbrev pub nothing : LookupResult
nothing = record { status = LookupStatus.not_found; value = [] }

-- The loop of `get` over a block; `rest` is the block from `pos` on. An entry takes bytes, so the
-- block's length is fuel enough.
unfoldable pub scan_block : ℕ → ℕ → Bytes → ℕ → Bytes → LookupResult
scan_block zero version key snapshot_seq rest = nothing
scan_block (suc fuel) version key snapshot_seq rest =
    let hdr = entry_hdr version in
    let keylen = get_u32_le (drop (hdr - 8) rest) in
    let vallen = get_u32_le (drop (hdr - 4) rest) in
    let after = drop hdr rest in
    let entry_key = take keylen after in
    let value = take vallen (drop keylen after) in
    let next = scan_block fuel version key snapshot_seq (drop (keylen + vallen) after) in
    if ltb (length rest) hdr
    then nothing
    else if ltb (length after) (keylen + vallen)
    then nothing
    else if key_eq entry_key key
    then (if leb (entry_seq version rest) snapshot_seq
        then (if byte_at rest 0 == 1
            then record { status = LookupStatus.deleted; value = [] }
            else record { status = LookupStatus.found; value = value })
        else next)
    else if key_lt key entry_key
    then nothing
    else next

pub data GetResult : Type 0 where
  result : LookupResult → GetResult
  throws : GetResult

abbrev scan_loaded : Table → Bytes → ℕ → BlockResult → GetResult
scan_loaded t key snapshot_seq checksum_mismatch = throws
scan_loaded t key snapshot_seq (block bytes) =
    result (scan_block (length bytes) t.footer.format_version key snapshot_seq bytes)

-- `SSTable::get`. An empty block has no entry for the scan to find.
unfoldable pub table_get : Table → Bytes → ℕ → GetResult
unfolding table_may_contain find_block_idx load_block
table_get t key snapshot_seq =
    if not (table_may_contain t key) then result nothing else elim (find_block_idx t.index key) [
      | none ↦ result nothing
      | some bi ↦ scan_loaded t key snapshot_seq (load_block t (get_or t.index bi no_entry))
    ]
