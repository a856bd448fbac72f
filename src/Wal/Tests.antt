-- ===== src/Wal/Tests.antt =====
-- Runs of the log, and its theorems at concrete inputs.
use keystone_db.Prelude.{
  All-append, ℕ, ◌+◌, ◌≡◌, refl, List, [], ◌∷◌, ◌++◌, some, arith, inr, length, take, All,
  replicate, length-replicate,
}
use keystone_db.Prelude.Keys.{Bytes, IsByte}
use keystone_db.Prelude.Files.{read_fully}
use keystone_db.Coding.{put_u32_le, put_u64_le, get_u32_le, get_u64_le}
use keystone_db.Crc32.{crc32}
use keystone_db.Wal.{
  Wal, SyncMode, every_write, batched, Record, rec_put, rec_delete, max_length, header, record_body,
  encode_record, encode_batch, replay_record, replay_loop, replay, open_wal, append_batch,
  sync_after_write,
}
use keystone_db.Wal.RoundTrip.{IsRecord, encode_record-All, replay-encode_record}
use keystone_db.Wal.Log.{
  IsTorn, valid_end, nil-IsTorn, replay-encode_batch, replay_complete, take-valid_end,
}
use keystone_db.Wal.Durable.{
  IsLog, IsOversized, replay-crash, append_batch-every_write, append_batch-batched, open_wal-IsLog,
  replay-oversized,
}

-- The check value of the CRC catalogue for "123456789".
crc32_check : crc32 (0x31 ∷ 0x32 ∷ 0x33 ∷ 0x34 ∷ 0x35 ∷ 0x36 ∷ 0x37 ∷ 0x38 ∷ 0x39 ∷ []) ≡ 0xCBF43926
unfolding crc32
crc32_check = refl

abbrev put_a : Record
put_a = record { type = rec_put; seq = 1; key = b'a' ∷ []; value = 7 ∷ 8 ∷ [] }

abbrev del_b : Record
del_b = record { type = rec_delete; seq = 2; key = b'b' ∷ []; value = [] }

put_a-IsRecord : IsRecord put_a
put_a-IsRecord = omega arith

del_b-IsRecord : IsRecord del_b
del_b-IsRecord = omega arith

program : Unit {0}
unfolding replay replay_loop replay_record read_fully put_u32_le put_u64_le get_u32_le get_u64_le
    crc32 encode_batch encode_record record_body header append_batch sync_after_write
program = tt

-- A torn tail of three bytes is dropped.
replay_two :
    replay (some (encode_batch (put_a ∷ del_b ∷ []) ++ (1 ∷ 2 ∷ 3 ∷ []))) ≡ put_a ∷ del_b ∷ []
unfolding program
replay_two = refl

abbrev log_of : List Record → SyncMode → Wal
log_of records mode = record {
  file = encode_batch records;
  synced = valid_end (put_a ∷ []);
  mode = mode;
  fsync_count = 4;
}

abbrev two : List Record
two = put_a ∷ del_b ∷ []

two-IsLog : (mode : SyncMode) → IsLog (log_of two mode) (put_a ∷ []) (del_b ∷ [])
two-IsLog mode = record {
  file = refl;
  synced = refl;
  records = (put_a-IsRecord, (del_b-IsRecord, tt));
}

replay-encode_record_example :
    replay_record (encode_record put_a ++ (9 ∷ [])) ≡ some (put_a, 9 ∷ [])
replay-encode_record_example = replay-encode_record put_a (9 ∷ []) put_a-IsRecord

abbrev torn_file : Bytes
torn_file = 0 ∷ 1 ∷ 2 ∷ []

take-valid_end_example :
    take (valid_end (replay (some torn_file))) torn_file ≡ encode_batch (replay (some torn_file))
take-valid_end_example = take-valid_end torn_file (omega arith)

replay_complete_example :
    (tail : Bytes) × (torn_file ≡ encode_batch (replay (some torn_file)) ++ tail)
    × All IsRecord (replay (some torn_file))
    × IsTorn tail
replay_complete_example = replay_complete torn_file (omega arith)

replay-encode_batch_example : replay (some (encode_batch two ++ [])) ≡ two
replay-encode_batch_example =
    replay-encode_batch two [] (put_a-IsRecord, (del_b-IsRecord, tt)) nil-IsTorn

replay-crash_example :
    (m : ℕ) × (replay (some (take 30 (log_of two batched).file))
      ≡ (put_a ∷ []) ++ take m (del_b ∷ []))
unfolding valid_end
replay-crash_example =
    replay-crash (log_of two batched) (put_a ∷ []) (del_b ∷ []) 30 (two-IsLog batched) (omega arith)

append_batch-every_write_example :
    IsLog (append_batch (log_of two every_write) (put_a ∷ [])) (put_a ∷ del_b ∷ put_a ∷ []) []
    × ((append_batch (log_of two every_write) (put_a ∷ [])).fsync_count ≡ 4 + 1)
append_batch-every_write_example =
    append_batch-every_write (log_of two every_write) (put_a ∷ []) (del_b ∷ []) put_a [] refl
      (two-IsLog every_write) (put_a-IsRecord, tt)

append_batch-batched_example :
    IsLog (append_batch (log_of two batched) (put_a ∷ [])) (put_a ∷ []) (del_b ∷ put_a ∷ [])
    × ((append_batch (log_of two batched) (put_a ∷ [])).fsync_count ≡ 4)
append_batch-batched_example =
    append_batch-batched (log_of two batched) (put_a ∷ []) (del_b ∷ []) put_a [] refl
      (two-IsLog batched) (put_a-IsRecord, tt)

-- Two records and a torn tail, the second record not synced.
abbrev crashed : Bytes
crashed = encode_batch (put_a ∷ del_b ∷ []) ++ torn_file

torn_file-IsTorn : IsTorn torn_file
unfolding replay_record read_fully
torn_file-IsTorn = refl

replay-crashed : replay (some crashed) ≡ put_a ∷ del_b ∷ []
replay-crashed =
    replay-encode_batch (put_a ∷ del_b ∷ []) torn_file (put_a-IsRecord, (del_b-IsRecord, tt))
      torn_file-IsTorn

crashed-All : All IsByte crashed
unfolding encode_batch
crashed-All =
    All-append IsByte (encode_record put_a ++ (encode_record del_b ++ [])) torn_file
      (All-append IsByte (encode_record put_a) (encode_record del_b ++ [])
        (encode_record-All put_a put_a-IsRecord)
        (All-append IsByte (encode_record del_b) [] (encode_record-All del_b del_b-IsRecord) tt))
      (omega arith)

open_wal-IsLog_example :
    IsLog
      (open_wal (take (valid_end (replay (some crashed))) crashed) (valid_end (put_a ∷ [])) batched)
      (put_a ∷ [])
      (del_b ∷ [])
open_wal-IsLog_example =
    open_wal-IsLog crashed (put_a ∷ []) (del_b ∷ []) batched crashed-All replay-crashed

-- A value of `n` zero bytes.
large : ℕ → Bytes
large n = replicate n 0

length-large : (n : ℕ) → length (large n) ≡ n
unfolding large
length-large n = length-replicate n 0

abbrev oversized : Record
oversized = record { type = rec_put; seq = 2; key = b'k' ∷ []; value = large (max_length + 1) }

oversized-IsOversized : IsOversized oversized
oversized-IsOversized = record {
  key = omega arith;
  value = omega (arith, length-large (max_length + 1));
  over = inr (omega (arith, length-large (max_length + 1)));
}

replay-oversized_example :
    replay (some (encode_batch ((put_a ∷ []) ++ (oversized ∷ del_b ∷ [])))) ≡ put_a ∷ []
replay-oversized_example =
    replay-oversized (put_a ∷ []) (del_b ∷ []) oversized (put_a-IsRecord, tt) oversized-IsOversized
