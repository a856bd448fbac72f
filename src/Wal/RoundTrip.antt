-- ===== src/Wal/RoundTrip.antt =====
-- One record: what is written is read, and what is read was written.
use keystone_db.Prelude.{
  ◌+◌, ◌%◌, ◌^◌, ◌≤◌, ◌≡◌, refl, sym, ◌∙◌, [], ◌++◌, append-nil, some, arith, length, length-append,
  drop, All, All-append,
}
use keystone_db.Prelude.Keys.{Bytes, IsByte}
use keystone_db.Prelude.Files.{read_fully, read_fully-append, read_fully-append₂}
use keystone_db.Coding.{put_u32_le, get_u32_le, put_u64_le, get_u64_le, byte_at, IsU32, IsU64}
use keystone_db.Coding.RoundTrip.{get-put_u32, get-put_u64, put_u32-length, put_u32-All}
use keystone_db.Crc32.{crc32}
use keystone_db.Crc32.Bounds.{crc32-IsU32}
use keystone_db.Wal.{
  Record, header, record_body, encode_record, max_length, replay_payload, replay_record,
}

-- A record that the log's format can hold.
pub record IsRecord (r : Record) : Type 0 where
  pub type : IsByte r.type
  pub seq : IsU64 r.seq
  pub key : length r.key ≤ max_length
  pub value : length r.value ≤ max_length
  pub key_bytes : All IsByte r.key
  pub value_bytes : All IsByte r.value

pub length-header : (r : Record) → length (header r) ≡ 17
unfolding header put_u64_le put_u32_le
length-header r = refl

pub header-All : (r : Record) → All IsByte (header r)
unfolding header put_u64_le put_u32_le
header-All r = omega arith

pub header_lengths :
    (r : Record)
    → IsU32 (length r.key)
    → IsU32 (length r.value)
    → (get_u32_le (drop 9 (header r)) ≡ length r.key)
      × (get_u32_le (drop 13 (header r)) ≡ length r.value)
unfolding header put_u64_le put_u32_le
header_lengths r hk hv = (
  unfold put_u32_le in (get-put_u32 (length r.key % 2 ^ 32) _ (omega arith) ∙ omega arith),
  unfold put_u32_le in (get-put_u32 (length r.value % 2 ^ 32) [] (omega arith) ∙ omega arith),
)

header_fields :
    (r : Record)
    → IsRecord r
    → (byte_at (header r) 0 ≡ r.type)
      × (get_u64_le (drop 1 (header r)) ≡ r.seq)
      × (get_u32_le (drop 9 (header r)) ≡ length r.key)
      × (get_u32_le (drop 13 (header r)) ≡ length r.value)
unfolding header put_u64_le put_u32_le
header_fields r h = (
  omega arith,
  unfold put_u64_le in get-put_u64 r.seq _ h.seq,
  (header_lengths r (omega arith) (omega arith)).0,
  (header_lengths r (omega arith) (omega arith)).1,
)

record_body-All : (r : Record) → IsRecord r → All IsByte (record_body r)
unfolding record_body
record_body-All r h =
    All-append IsByte (header r) _ (header-All r)
      (All-append IsByte r.key r.value h.key_bytes h.value_bytes)

pub read_header :
    (r : Record) (rest : Bytes)
    → read_fully 17 (record_body r ++ rest) ≡ some (header r, (r.key ++ r.value) ++ rest)
unfolding record_body
read_header r rest =
    read_fully-append₂ 17 (header r) (r.key ++ r.value) rest (sym (length-header r))

record_body_lem : (r : Record) → header r ++ (r.key ++ r.value) ≡ record_body r
unfolding record_body
record_body_lem r = refl

-- A record that was written is read back, whatever follows it.
pub replay-encode_record :
    (r : Record) (rest : Bytes)
    → IsRecord r
    → replay_record (encode_record r ++ rest) ≡ some (r, rest)
unfolding replay_record encode_record replay_payload
replay-encode_record r rest h =
    let crc = crc32 (record_body r) in
    let (e₁, e₂, e₃, e₄) = header_fields r h in
    ground (
      arith,
      read_fully-append₂ 4 (put_u32_le crc) (record_body r) rest (sym (put_u32-length crc)),
      get-put_u32 crc [] (crc32-IsU32 (record_body r) (record_body-All r h)),
      append-nil (put_u32_le crc),
      read_header r rest,
      record_body_lem r,
      read_fully-append₂ (length r.key) r.key r.value rest refl,
      read_fully-append (length r.value) r.value rest refl,
    )

pub length-encode_record :
    (r : Record) → length (encode_record r) ≡ 21 + length r.key + length r.value
unfolding encode_record record_body
length-encode_record r = omega (
  arith,
  length-append (put_u32_le (crc32 (header r ++ (r.key ++ r.value))))
      (header r ++ (r.key ++ r.value)),
  put_u32-length (crc32 (header r ++ (r.key ++ r.value))),
  length-append (header r) (r.key ++ r.value),
  length-header r,
  length-append r.key r.value,
)

pub encode_record-All : (r : Record) → IsRecord r → All IsByte (encode_record r)
unfolding encode_record
encode_record-All r h =
    All-append IsByte (put_u32_le (crc32 (record_body r))) (record_body r) (put_u32-All _)
      (record_body-All r h)
