-- ===== src/Wal/Inverse.antt =====
-- The converse: bytes that `replay` accepts are the bytes that `append` writes for the record.
use keystone_db.Prelude.{
  ℕ, ◌%◌, ◌^◌, ◌≤◌, ◌≡◌, refl, [], ◌∷◌, ◌++◌, append_assoc, some, arith, ◌||◌, not, length, drop,
  All, All-split, ltb,
}
use keystone_db.Prelude.Keys.{Bytes, IsByte}
use keystone_db.Prelude.Files.{read_fully, read_fully-bind, guard-bind}
use keystone_db.Coding.{put_u32_le, get_u32_le, put_u64_le, get_u64_le, byte_at, IsU32, IsU64}
use keystone_db.Coding.RoundTrip.{put-get-IsU32, put-get-IsU64, get_u64-append, get_u32-append}
use keystone_db.Crc32.{crc32}
use keystone_db.Wal.{
  Record, header, record_body, encode_record, max_length, replay_payload, replay_record,
}
use keystone_db.Wal.RoundTrip.{IsRecord}

-- The header that `replay` reads, put together again from its fields.
header_bytes :
    (h : Bytes)
    → All IsByte h
    → length h ≡ 17
    → (byte_at h 0
          ∷ (put_u64_le (get_u64_le (drop 1 h))
              ++ (put_u32_le (get_u32_le (drop 9 h)) ++ put_u32_le (get_u32_le (drop 13 h))))
        ≡ h)
      × IsByte (byte_at h 0)
      × IsU64 (get_u64_le (drop 1 h))
      × IsU32 (get_u32_le (drop 9 h))
      × IsU32 (get_u32_le (drop 13 h))
header_bytes
      (t ∷ s₀ ∷ s₁ ∷ s₂ ∷ s₃ ∷ s₄ ∷ s₅ ∷ s₆ ∷ s₇ ∷ k₀ ∷ k₁ ∷ k₂ ∷ k₃ ∷ v₀ ∷ v₁ ∷ v₂ ∷ v₃ ∷ []) p e =
    let s : Bytes = s₀ ∷ s₁ ∷ s₂ ∷ s₃ ∷ s₄ ∷ s₅ ∷ s₆ ∷ s₇ ∷ [] in
    let k : Bytes = k₀ ∷ k₁ ∷ k₂ ∷ k₃ ∷ [] in
    let v : Bytes = v₀ ∷ v₁ ∷ v₂ ∷ v₃ ∷ [] in
    let (es, bs) = put-get-IsU64 s (omega arith) refl in
    let (ek, bk) = put-get-IsU32 k (omega arith) refl in
    let (ev, bv) = put-get-IsU32 v (omega arith) refl in
    rw (get_u64-append s (k ++ v) refl, get_u32-append k v refl, es, ek, ev) (refl, p.0, bs, bk, bv)
header_bytes _ p e = absurd (omega arith)

-- What a successful round read after the header.
payload_parts :
    (stored : ℕ) (head file rest : Bytes) (r : Record)
    → replay_payload stored head file ≡ some (r, rest)
    → (file ≡ r.key ++ (r.value ++ rest))
      × (length r.key ≡ get_u32_le (drop 9 head))
      × (length r.value ≡ get_u32_le (drop 13 head))
      × (length r.key ≤ max_length)
      × (length r.value ≤ max_length)
      × (r.type ≡ byte_at head 0)
      × (r.seq ≡ get_u64_le (drop 1 head))
      × (crc32 (head ++ (r.key ++ r.value)) ≡ stored)
unfolding replay_payload
payload_parts stored head file rest r e =
    guard-bind
      (not
        (ltb max_length (get_u32_le (drop 9 head)) || ltb max_length (get_u32_le (drop 13 head))))
      (read_fully (get_u32_le (drop 9 head)) file) _ e
      λ small c₀. read_fully-bind (get_u32_le (drop 9 head)) file _ c₀ λ key rest₁ e₁ l₁ c₁.
        read_fully-bind (get_u32_le (drop 13 head)) rest₁ _ c₁ λ value rest₂ e₂ l₂ c₂. ground arith

header-eq :
    (head : Bytes) (r : Record)
    → All IsByte head
    → length head ≡ 17
    → length r.key ≡ get_u32_le (drop 9 head)
    → length r.value ≡ get_u32_le (drop 13 head)
    → r.type ≡ byte_at head 0
    → r.seq ≡ get_u64_le (drop 1 head)
    → (header r ≡ head) × IsByte r.type × IsU64 r.seq
unfolding header
header-eq head r p l lk lv et es =
    let (eh, bt, bs, bk, bv) = header_bytes head p l in
    let ek : length r.key % 2 ^ 32 ≡ get_u32_le (drop 9 head) = omega arith in
    let ev : length r.value % 2 ^ 32 ≡ get_u32_le (drop 13 head) = omega arith in
    let et' : r.type % 256 ≡ byte_at head 0 = omega arith in
    (rw (ek, ev, et', es) eh, omega arith, omega arith)

encode_record-append :
    (r : Record) (rest : Bytes)
    → encode_record r ++ rest
      ≡ put_u32_le (crc32 (header r ++ (r.key ++ r.value)))
        ++ (header r ++ (r.key ++ (r.value ++ rest)))
unfolding encode_record record_body
encode_record-append r rest = simp append_assoc

-- A record that `replay` takes off the file is one that `append` would have written there.
pub replay_record-some :
    (file rest : Bytes) (r : Record)
    → All IsByte file
    → replay_record file ≡ some (r, rest)
    → (file ≡ encode_record r ++ rest) × IsRecord r × All IsByte rest
unfolding replay_record
replay_record-some file rest r p e = read_fully-bind 4 file _ e λ crc_buf rest₁ e₁ l₁ c₁.
    read_fully-bind 17 rest₁ _ c₁ λ head rest₂ e₂ l₂ c₂.
      let (f, lk, lv, bk, bv, et, es, ec) = payload_parts _ head rest₂ rest r c₂ in
      let (pc, p₁) = All-split IsByte crc_buf rest₁ (rw e₁ at p) in
      let (ph, p₂) = All-split IsByte head rest₂ (rw e₂ at p₁) in
      let (pk, p₃) = All-split IsByte r.key _ (rw f at p₂) in
      let (pv, pr) = All-split IsByte r.value rest p₃ in
      let (eh, bt, bs) = header-eq head r ph l₂ lk lv et es in
      (
        cc (e₁, e₂, f, eh, ec, encode_record-append r rest, (put-get-IsU32 crc_buf pc l₁).0),
        record { type = bt; seq = bs; key = bk; value = bv; key_bytes = pk; value_bytes = pv },
        pr,
      )
