-- ===== src/Manifest/Snapshots.antt =====
-- The MANIFEST across appends and crashes: the last snapshot that was written whole is the one loaded.
use keystone_db.Prelude.{
  ◌+◌, ◌%◌, ◌^◌, ◌≤◌, ◌<◌, ◌≡◌, refl, sym, ap, ◌∙◌, List, [], ◌∷◌, ◌++◌, append-nil, none, some,
  arith, length, All, All-append,
}
use keystone_db.Prelude.Keys.{Bytes, IsByte}
use keystone_db.Prelude.Files.{read_fully, read_fully-append₂}
use keystone_db.Coding.{put_u32_le, get_u32_le}
use keystone_db.Coding.RoundTrip.{get-put_u32, put_u32-length, put_u32-All}
use keystone_db.Crc32.{crc32}
use keystone_db.Crc32.Bounds.{crc32-IsU32}
use keystone_db.Manifest.{
  ManifestEntry, encode_entries, snapshot_body, encode_snapshot, max_count, rest_size,
  load_snapshot,
}
use keystone_db.Manifest.Read.{
  IsEntry, get-put, read_entries-encode, read_entries_full, encode_entries-All,
}

-- A snapshot that `load_latest` has room for.
pub record IsSnapshot (files : List ManifestEntry) : Type 0 where
  pub count : length files ≤ max_count
  pub entries : All IsEntry files
  pub room : length (encode_entries files) ≤ rest_size (length files)

abbrev pub IsTorn : Bytes → Type 0
IsTorn tail = load_snapshot tail ≡ none

-- The reads before the entries.
read_crc :
    (files : List ManifestEntry) (more : Bytes)
    → read_fully 4 (encode_snapshot files ++ more)
      ≡ some (put_u32_le (crc32 (snapshot_body files)), snapshot_body files ++ more)
unfolding encode_snapshot
read_crc files more = read_fully-append₂ 4 _ (snapshot_body files) more (sym (put_u32-length _))

read_count :
    (files : List ManifestEntry) (more : Bytes)
    → read_fully 4 (snapshot_body files ++ more)
      ≡ some (put_u32_le (length files % 2 ^ 32), encode_entries files ++ more)
unfolding snapshot_body
read_count files more = read_fully-append₂ 4 _ (encode_entries files) more (sym (put_u32-length _))

body_parts :
    (files : List ManifestEntry)
    → put_u32_le (length files % 2 ^ 32) ++ encode_entries files ≡ snapshot_body files
unfolding snapshot_body
body_parts files = refl

snapshot_crc :
    (files : List ManifestEntry)
    → All IsEntry files
    → get_u32_le (put_u32_le (crc32 (snapshot_body files))) ≡ crc32 (snapshot_body files)
unfolding snapshot_body
snapshot_crc files h =
    ap get_u32_le (sym (append-nil _))
    ∙ get-put_u32 (crc32 (snapshot_body files)) [] (
        crc32-IsU32 _
          (All-append IsByte (put_u32_le _) _ (put_u32-All _) (encode_entries-All files h)))

-- A snapshot that was written is loaded, whatever follows it.
pub load-encode_snapshot :
    (files : List ManifestEntry) (more : Bytes)
    → IsSnapshot files
    → load_snapshot (encode_snapshot files ++ more) ≡ some (files, more)
unfolding load_snapshot
load-encode_snapshot files more h = ground (
  arith,
  read_crc files more,
  read_count files more,
  get-put (length files),
  read_entries-encode files more [] (rest_size (length files)) h.entries,
  body_parts files,
  snapshot_crc files h.entries,
)

-- A snapshot with a key that fills the buffer up in front of another length is not.
pub load_snapshot_full :
    (xs ys : List ManifestEntry) (e : ManifestEntry) (more : Bytes)
    → length (xs ++ (e ∷ ys)) ≤ max_count
    → All IsEntry xs
    → IsEntry e
    → length (encode_entries xs) + 12 ≤ rest_size (length (xs ++ (e ∷ ys)))
    → rest_size (length (xs ++ (e ∷ ys))) < length (encode_entries xs) + 16 + length e.smallest_key
    → IsTorn (encode_snapshot (xs ++ (e ∷ ys)) ++ more)
unfolding load_snapshot
load_snapshot_full xs ys e more c h he room over =
    let files = xs ++ (e ∷ ys) in
    ground (
      arith,
      read_crc files more,
      read_count files more,
      get-put (length files),
      read_entries_full xs ys e more [] (rest_size (length files)) h he (omega arith) (omega arith),
    )

pub length-encode_snapshot :
    (files : List ManifestEntry)
    → length (encode_snapshot files) ≡ 8 + length (encode_entries files)
unfolding encode_snapshot snapshot_body put_u32_le
length-encode_snapshot files = omega arith
