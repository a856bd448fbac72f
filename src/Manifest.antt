-- ===== src/Manifest.antt =====
-- src/manifest.cpp and include/keystone/manifest.h: the log of snapshots of the live files.
-- A key has fewer than 2^32 bytes, so `sk_len` and `lk_len` are the keys' sizes. An `int` is the bit
-- pattern that its cast to `uint32_t` gives.
pub mod Read
pub mod Extend
pub mod Snapshots
pub mod Crash
mod Tests
use keystone_db.Prelude.{
  ℕ, zero, suc, ◌+◌, ◌*◌, ◌%◌, ◌^◌, List, [], ◌∷◌, ◌++◌, Option, none, some, Bool, not, length, ltb,
  ◌==◌, if◌then◌else◌, ◌>>=◌, guard,
}
use keystone_db.Prelude.Keys.{Bytes}
use keystone_db.Prelude.Files.{read_fully}
use keystone_db.Coding.{put_u32_le, get_u32_le}
use keystone_db.Crc32.{crc32}

pub record ManifestEntry : Type 0 where
  pub number : ℕ
  pub level : ℕ
  pub smallest_key : Bytes
  pub largest_key : Bytes

pub record Manifest : Type 0 where
  pub file : Bytes
  pub synced : ℕ

unfoldable pub open_manifest : Bytes → Manifest
open_manifest file = record { file = file; synced = length file }

unfoldable pub encode_entry : ManifestEntry → Bytes
encode_entry f =
    put_u32_le (f.number % 2 ^ 32)
    ++ (put_u32_le (f.level % 2 ^ 32)
        ++ (put_u32_le (length f.smallest_key % 2 ^ 32)
            ++ (f.smallest_key ++ (put_u32_le (length f.largest_key % 2 ^ 32) ++ f.largest_key))))

-- The loop of `append_snapshot` over the files.
unfoldable pub encode_entries : List ManifestEntry → Bytes
encode_entries [] = []
encode_entries (f ∷ files) = encode_entry f ++ encode_entries files

unfoldable pub snapshot_body : List ManifestEntry → Bytes
snapshot_body files = put_u32_le (length files % 2 ^ 32) ++ encode_entries files

unfoldable pub encode_snapshot : List ManifestEntry → Bytes
encode_snapshot files = put_u32_le (crc32 (snapshot_body files)) ++ snapshot_body files

-- The snapshot is written and made durable.
unfoldable pub append_snapshot : Manifest → List ManifestEntry → Manifest
append_snapshot m files =
    let file = m.file ++ encode_snapshot files in record { file = file; synced = length file }

-- The variables that the two readers of `load_latest` share: what is left of the file, the part of
-- the buffer `rest` that has been read (`rest_read` is its length), and `rest.size()`.
pub record Reader : Type 0 where
  pub file : Bytes
  pub rest : Bytes
  pub size : ℕ

unfoldable pub read_u32 : Reader → Option (ℕ × Reader)
read_u32 r = do
  (tmp, file) ← guard (not (ltb r.size (length r.rest + 4))) (read_fully 4 r.file)
  some (get_u32_le tmp, record r { file = file; rest = r.rest ++ tmp })

-- `rest.resize(rest_read + n)` where that is longer.
abbrev pub grown : Reader → ℕ → ℕ
grown r n = if ltb r.size (length r.rest + n) then length r.rest + n else r.size

unfoldable pub read_bytes : ℕ → Reader → Option (Bytes × Reader)
read_bytes zero r = some ([], r)
read_bytes (suc n) r = do
  (out, file) ← read_fully (suc n) r.file
  some (out, record { file = file; rest = r.rest ++ out; size = grown r (suc n) })

-- One round of the loop over the entries of a snapshot.
unfoldable pub read_entry : Reader → Option (ManifestEntry × Reader)
read_entry r = do
  (num, r₁) ← read_u32 r
  (level, r₂) ← read_u32 r₁
  (sk_len, r₃) ← read_u32 r₂
  (sk, r₄) ← read_bytes sk_len r₃
  (lk_len, r₅) ← read_u32 r₄
  (lk, r₆) ← read_bytes lk_len r₅
  some (record { number = num; level = level; smallest_key = sk; largest_key = lk }, r₆)

unfoldable pub read_entries : ℕ → Reader → Option (List ManifestEntry × Reader)
read_entries zero r = some ([], r)
read_entries (suc count) r = do
  (e, r₁) ← read_entry r
  (snapshot, r₂) ← read_entries count r₁
  some (e ∷ snapshot, r₂)

abbrev pub max_count : ℕ
max_count = 64 * 1024

-- The size that the buffer `rest` has at first.
abbrev pub rest_size : ℕ → ℕ
rest_size count = count * (4 + 4 + 4 + 4) + 256 * 1024

-- One round of `load_latest`: `none` is a `break`.
unfoldable pub load_snapshot : Bytes → Option (List ManifestEntry × Bytes)
load_snapshot file = do
  (crc_buf, file₁) ← read_fully 4 file
  (count_buf, file₂) ← read_fully 4 file₁
  let count = get_u32_le count_buf
  (snapshot, r) ←
      guard (not (ltb max_count count))
        (read_entries count (record { file = file₂; rest = []; size = rest_size count }))
  guard (crc32 (count_buf ++ r.rest) == get_u32_le crc_buf) (some (snapshot, r.file))

-- The loop of `load_latest`. A round takes bytes off the file, so its length is fuel enough.
unfoldable pub load_loop : ℕ → List ManifestEntry → Bytes → List ManifestEntry
unfolding load_snapshot
load_loop zero latest file = latest
load_loop (suc fuel) latest file = elim (load_snapshot file) [
  | none ↦ latest
  | some (snapshot, rest) ↦ load_loop fuel snapshot rest
]

unfoldable pub load_latest : Option Bytes → List ManifestEntry
unfolding load_loop
load_latest none = []
load_latest (some file) = load_loop (length file) [] file
