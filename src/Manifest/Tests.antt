-- ===== src/Manifest/Tests.antt =====
-- Runs of the MANIFEST, and its theorems at concrete inputs.
use keystone_db.Prelude.{
  ℕ, zero, suc, ◌≡◌, refl, [], ◌∷◌, ◌++◌, some, arith, length, take, All, replicate,
  length-replicate,
}
use keystone_db.Prelude.Keys.{Bytes, IsByte}
use keystone_db.Prelude.Files.{read_fully}
use keystone_db.Coding.{put_u32_le, get_u32_le}
use keystone_db.Crc32.{crc32}
use keystone_db.Manifest.{
  Manifest, ManifestEntry, open_manifest, encode_entry, encode_entries, snapshot_body,
  encode_snapshot, append_snapshot, read_u32, read_bytes, read_entry, read_entries, load_snapshot,
  load_loop, load_latest,
}
use keystone_db.Manifest.Read.{IsEntry}
use keystone_db.Manifest.Snapshots.{IsSnapshot, load-encode_snapshot}
use keystone_db.Manifest.Crash.{
  encode_log, load_latest-append_snapshot, load_latest-crash, load_latest_full,
}

program : Unit {0}
unfolding load_latest load_loop load_snapshot read_entries read_entry read_u32 read_bytes read_fully
    put_u32_le get_u32_le crc32 encode_entry encode_entries snapshot_body encode_snapshot
    append_snapshot open_manifest
program = tt

abbrev first : ManifestEntry
first = record { number = 1; level = 0; smallest_key = b'a' ∷ []; largest_key = b'c' ∷ [] }

abbrev second : ManifestEntry
second = record { number = 2; level = 1; smallest_key = b'd' ∷ []; largest_key = b'd' ∷ b'e' ∷ [] }

first-IsEntry : IsEntry first
first-IsEntry = omega arith

second-IsEntry : IsEntry second
second-IsEntry = omega arith

one-IsSnapshot : IsSnapshot (first ∷ [])
unfolding program
one-IsSnapshot = omega arith

two-IsSnapshot : IsSnapshot (first ∷ second ∷ [])
unfolding program
two-IsSnapshot = omega arith

abbrev log_of_one : Manifest
log_of_one = open_manifest (encode_log ((first ∷ []) ∷ []))

load_two :
    load_latest (some (append_snapshot log_of_one (first ∷ second ∷ [])).file) ≡ first ∷ second ∷ []
unfolding program
load_two = refl

load-encode_snapshot_example :
    load_snapshot (encode_snapshot (first ∷ second ∷ []) ++ (7 ∷ []))
    ≡ some (first ∷ second ∷ [], 7 ∷ [])
load-encode_snapshot_example = load-encode_snapshot (first ∷ second ∷ []) (7 ∷ []) two-IsSnapshot

load_latest-append_snapshot_example :
    (load_latest (some (append_snapshot log_of_one (first ∷ second ∷ [])).file)
      ≡ first ∷ second ∷ [])
    × ((append_snapshot log_of_one (first ∷ second ∷ [])).synced
        ≡ length (append_snapshot log_of_one (first ∷ second ∷ [])).file)
unfolding open_manifest
load_latest-append_snapshot_example =
    load_latest-append_snapshot log_of_one ((first ∷ []) ∷ []) (first ∷ second ∷ []) refl
      (one-IsSnapshot, tt) two-IsSnapshot

load_latest-crash_example :
    load_latest (some (take 40 (append_snapshot log_of_one (first ∷ second ∷ [])).file))
    ≡ first ∷ []
unfolding program
load_latest-crash_example =
    load_latest-crash log_of_one ((first ∷ []) ∷ []) (first ∷ second ∷ []) 40 refl
      (one-IsSnapshot, tt) two-IsSnapshot (omega arith) (omega arith)

-- A key of `n` zero bytes.
large : ℕ → Bytes
large n = replicate n 0

length-large : (n : ℕ) → length (large n) ≡ n
unfolding large
length-large n = length-replicate n 0

all_zero : (n : ℕ) → All IsByte (replicate n 0)
all_zero = elim [ zero ↦ tt | suc (n → ih) ↦ (omega arith, ih) ]

large-All : (n : ℕ) → All IsByte (large n)
unfolding large
large-All n = all_zero n

-- An entry with a smallest key of 256 KiB and a few bytes.
abbrev wide : ManifestEntry
wide = record { number = 3; level = 0; smallest_key = large 262150; largest_key = b'z' ∷ [] }

wide-IsEntry : IsEntry wide
wide-IsEntry = record {
  number = omega arith;
  level = omega arith;
  smallest = omega (arith, length-large 262150);
  largest = omega arith;
  smallest_bytes = large-All 262150;
  largest_bytes = omega arith;
}

load_latest_full_example :
    load_latest (some ((append_snapshot log_of_one ([] ++ (wide ∷ []))).file ++ [])) ≡ first ∷ []
unfolding open_manifest encode_entries
load_latest_full_example =
    load_latest_full log_of_one ((first ∷ []) ∷ []) [] [] wide [] refl (one-IsSnapshot, tt)
      (omega arith) tt wide-IsEntry (omega arith) (omega (arith, length-large 262150))
