-- ===== src/Wal.antt =====
-- src/wal.cpp and include/keystone/wal.h: the write-ahead log. The log's file is the list of its
-- bytes; `synced` counts those that `durable_sync` has made durable.
pub mod RoundTrip
pub mod Inverse
pub mod Log
pub mod Durable
mod Tests
use keystone_db.Prelude.{
  ℕ, zero, suc, ◌+◌, ◌*◌, ◌%◌, ◌^◌, List, [], ◌∷◌, ◌++◌, Option, none, some, Bool, ◌||◌, not,
  length, drop, ltb, ◌==◌, if◌then◌else◌, ◌>>=◌, guard,
}
use keystone_db.Prelude.Keys.{Bytes}
use keystone_db.Prelude.Files.{read_fully}
use keystone_db.Coding.{put_u32_le, get_u32_le, put_u64_le, get_u64_le, byte_at}
use keystone_db.Crc32.{crc32}

-- `enum class RecType : uint8_t { Put = 1, Delete = 2 }`. A replayed record has whatever byte stood
-- in the file, so the type is the byte.
abbrev pub RecType : Type 0
RecType = ℕ

abbrev pub rec_put : RecType
rec_put = 1

abbrev pub rec_delete : RecType
rec_delete = 2

pub data SyncMode : Type 0 where
  every_write batched : SyncMode

pub record Record : Type 0 where
  pub type : RecType
  pub seq : ℕ
  pub key : Bytes
  pub value : Bytes

pub record Wal : Type 0 where
  pub file : Bytes
  pub synced : ℕ
  pub mode : SyncMode
  pub fsync_count : ℕ

-- The type, the sequence number and the two lengths: the 17 bytes before the key.
unfoldable pub header : Record → Bytes
header r =
    (r.type % 256)
    ∷ (put_u64_le r.seq
        ++ (put_u32_le (length r.key % 2 ^ 32) ++ put_u32_le (length r.value % 2 ^ 32)))

unfoldable pub record_body : Record → Bytes
record_body r = header r ++ (r.key ++ r.value)

-- The buffer of one record: the checksum of the body, then the body.
unfoldable pub encode_record : Record → Bytes
encode_record r = put_u32_le (crc32 (record_body r)) ++ record_body r

-- `WAL::open` positions at the end of the file (O_APPEND) and syncs nothing: as many bytes are durable
-- as were before.
unfoldable pub open_wal : Bytes → ℕ → SyncMode → Wal
open_wal file synced mode = record { file = file; synced = synced; mode = mode; fsync_count = 0 }

-- `write_fully`, where the system takes the bytes.
abbrev pub write_file : Wal → Bytes → Wal
write_file w buf = record w { file = w.file ++ buf }

unfoldable pub sync : Wal → Wal
sync w = record w { synced = length w.file }

-- The end of both appends: with `EveryWrite`, sync and count.
unfoldable pub sync_after_write : Wal → SyncMode → Wal
unfolding sync
sync_after_write w every_write = record (sync w) { fsync_count = w.fsync_count + 1 }
sync_after_write w batched = w

unfoldable pub append : Wal → Record → Wal
unfolding sync_after_write encode_record
append w r = sync_after_write (write_file w (encode_record r)) w.mode

-- The loop of `append_batch` that fills the buffer.
unfoldable pub encode_batch : List Record → Bytes
encode_batch [] = []
encode_batch (r ∷ records) = encode_record r ++ encode_batch records

unfoldable pub append_batch : Wal → List Record → Wal
unfolding sync_after_write encode_batch
append_batch w [] = w
append_batch w (r ∷ records) = sync_after_write (write_file w (encode_batch (r ∷ records))) w.mode

-- 64 MiB
abbrev pub max_length : ℕ
max_length = 64 * 1024 * 1024

-- One round of `replay` from the 17 bytes of the header on: `none` is a `break`.
unfoldable pub replay_payload : ℕ → Bytes → Bytes → Option (Record × Bytes)
replay_payload stored_crc head file = do
  let keylen = get_u32_le (drop 9 head)
  let vallen = get_u32_le (drop 13 head)
  (key, rest₁) ←
      guard (not (ltb max_length keylen || ltb max_length vallen)) (read_fully keylen file)
  (value, rest₂) ← read_fully vallen rest₁
  guard (crc32 (head ++ (key ++ value)) == stored_crc) (
      some (
        record { type = byte_at head 0; seq = get_u64_le (drop 1 head); key = key; value = value },
        rest₂,
      ))

unfoldable pub replay_record : Bytes → Option (Record × Bytes)
unfolding replay_payload
replay_record file = do
  (crc_buf, rest₁) ← read_fully 4 file
  (head, rest₂) ← read_fully 17 rest₁
  replay_payload (get_u32_le crc_buf) head rest₂

-- The loop of `replay`. A round takes bytes off the file, so its length is fuel enough.
unfoldable pub replay_loop : ℕ → Bytes → List Record
unfolding replay_record
replay_loop zero file = []
replay_loop (suc fuel) file = elim (replay_record file) [
  | none ↦ []
  | some (r, rest) ↦ r ∷ replay_loop fuel rest
]

-- A file that is not there cannot be opened, and no record is replayed.
unfoldable pub replay : Option Bytes → List Record
unfolding replay_loop
replay none = []
replay (some file) = replay_loop (length file) file
