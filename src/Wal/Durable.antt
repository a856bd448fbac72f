-- ===== src/Wal/Durable.antt =====
-- The log across crashes: what `append_batch` and `sync` made durable is replayed, a record that a
-- crash cut in two is not, and a record above 64 MiB ends the replay.
use keystone_db.Prelude.{
  ℕ, suc, ◌+◌, ◌-◌, ◌≤◌, ◌<◌, ◌≡◌, refl, sym, ap, ◌∙◌, List, [], ◌∷◌, ◌++◌, append-nil,
  append_assoc, some, arith, Option-cases, inl, inr, ◌⊎◌, length, length-append, drop, take, All,
  All-split, All-append, All-take, take-nil, take-append_le, take-append_ge, take-append-drop,
  length-take,
}
use native.Mathlib.Decide.{dec_lt}
use keystone_db.Prelude.Keys.{Bytes, IsByte}
use keystone_db.Coding.{IsU32}
use keystone_db.Wal.{
  Wal, SyncMode, every_write, batched, Record, encode_record, encode_batch, max_length,
  replay_record, replay_payload, record_body, replay, open_wal, append, append_batch, sync,
  sync_after_write,
}
use keystone_db.Wal.RoundTrip.{
  IsRecord, replay-encode_record, encode_record-All, header_lengths, read_header,
}
use keystone_db.Prelude.Files.{read_fully-append₂}
use keystone_db.Coding.{put_u32_le}
use keystone_db.Coding.RoundTrip.{put_u32-length}
use keystone_db.Crc32.{crc32}
use keystone_db.Wal.Inverse.{replay_record-some}
use keystone_db.Wal.Log.{
  IsTorn, nil-IsTorn, valid_end, length-encode_batch, encode_batch-append, replay-encode_batch,
  take-valid_end, replay_complete,
}

-- A proper prefix of a record cannot be read as a record.
cut-IsTorn :
    (r : Record) (front back : Bytes)
    → IsRecord r
    → encode_record r ≡ front ++ back
    → length front < length (encode_record r)
    → IsTorn front
cut-IsTorn r front back h e l = elim (Option-cases (replay_record front)) [
  | inl torn ↦ torn
  | inr ((r', rest), e') ↦
      let (pf, pb) = All-split IsByte front back (rw e at (encode_record-All r h)) in
      let (ef, h', _) = replay_record-some front rest r' pf e' in
      let whole : encode_record r ≡ encode_record r' ++ (rest ++ back) =
        e ∙ ap (λ (t : Bytes). t ++ back) ef ∙ append_assoc (encode_record r') rest back in
      let a : replay_record (encode_record r) ≡ some (r, []) =
        ap replay_record (sym (append-nil (encode_record r))) ∙ replay-encode_record r [] h in
      let b : replay_record (encode_record r) ≡ some (r', rest ++ back) =
        ap replay_record whole ∙ replay-encode_record r' (rest ++ back) h' in
      let same : r ≡ r' = cc (a, b) in
      absurd (
        omega (
          arith,
          ap length ef,
          length-append (encode_record r') rest,
          ap (λ (x : Record). length (encode_record x)) same,
        ))
]

-- Whatever prefix of a log survives, what is replayed is a prefix of the records, with every record
-- that survived whole.
replay-take :
    (records : List Record) (n : ℕ)
    → All IsRecord records
    → (tail : Bytes) × (m : ℕ) × (take n (encode_batch records)
        ≡ encode_batch (take m records) ++ tail)
      × IsTorn tail
unfolding encode_batch
replay-take [] n h = ([], 0, take-nil n, nil-IsTorn)
replay-take (r ∷ records) n (hr, hs) = elim (dec_lt n (length (encode_record r))) [
  | yes cut ↦ (
    take n (encode_record r),
    0,
    take-append_le n (encode_record r) (encode_batch records) (omega arith),
    cut-IsTorn r (take n (encode_record r)) (drop n (encode_record r)) hr
        (sym (take-append-drop n (encode_record r)))
        (omega (arith, length-take n (encode_record r))),
  )
  | no whole ↦
      let (tail, m, e, torn) = replay-take records (n - length (encode_record r)) hs in
      (
        tail,
        suc m,
        take-append_ge n (encode_record r) (encode_batch records) (omega arith)
            ∙ ap (λ (t : Bytes). encode_record r ++ t) e
            ∙ sym (append_assoc (encode_record r) (encode_batch (take m records)) tail),
        torn,
      )
]

-- The log's state: `acked` is durable, `pending` is written and not yet synced.
pub record IsLog (w : Wal) (acked pending : List Record) : Type 0 where
  pub file : w.file ≡ encode_batch (acked ++ pending)
  pub synced : w.synced ≡ valid_end acked
  pub records : All IsRecord (acked ++ pending)

-- A crash leaves the synced bytes and any part of what was written behind them.
abbrev pub Survives : Wal → ℕ → Type 0
Survives w n = w.synced ≤ n

-- After a crash the replay gives every durable record, then some first part of the pending ones.
pub replay-crash :
    (w : Wal) (acked pending : List Record) (n : ℕ)
    → IsLog w acked pending
    → Survives w n
    → (m : ℕ) × (replay (some (take n w.file)) ≡ acked ++ take m pending)
replay-crash w acked pending n h s =
    let (ha, hp) = All-split IsRecord acked pending h.records in
    let (tail, m, e, torn) = replay-take pending (n - length (encode_batch acked)) hp in
    let cut : take n w.file ≡ encode_batch (acked ++ take m pending) ++ tail =
      ap (take n) (h.file ∙ encode_batch-append acked pending)
      ∙ take-append_ge n (encode_batch acked) (encode_batch pending)
          (omega (arith, length-encode_batch acked, h.synced))
      ∙ ap (λ (t : Bytes). encode_batch acked ++ t) e
      ∙ sym (append_assoc (encode_batch acked) (encode_batch (take m pending)) tail)
      ∙ ap (λ (t : Bytes). t ++ tail) (sym (encode_batch-append acked (take m pending))) in
    (
      m,
      ap (λ (t : Bytes). replay (some t)) cut
          ∙ replay-encode_batch (acked ++ take m pending) tail
              (All-append IsRecord acked (take m pending) ha (All-take IsRecord m pending hp)) torn,
    )

-- What a write leaves in the file, and that all of it can be replayed.
written :
    (w : Wal) (acked pending records : List Record)
    → IsLog w acked pending
    → All IsRecord records
    → (w.file ++ encode_batch records ≡ encode_batch (acked ++ (pending ++ records)))
      × All IsRecord (acked ++ (pending ++ records))
written w acked pending records h hr =
    let e = append_assoc acked pending records in
    (
      ap (λ (t : Bytes). t ++ encode_batch records) h.file
          ∙ sym (encode_batch-append (acked ++ pending) records)
          ∙ ap encode_batch e,
      rw (← e) (All-append IsRecord (acked ++ pending) records h.records hr),
    )

-- With `EveryWrite`, `append_batch` of a batch that is not empty makes everything written so far
-- durable and counts one sync.
pub append_batch-every_write :
    (w : Wal) (acked pending : List Record) (r : Record) (records : List Record)
    → w.mode ≡ every_write
    → IsLog w acked pending
    → All IsRecord (r ∷ records)
    → IsLog (append_batch w (r ∷ records)) (acked ++ (pending ++ (r ∷ records))) []
      × ((append_batch w (r ∷ records)).fsync_count ≡ w.fsync_count + 1)
unfolding append_batch
append_batch-every_write w acked pending r records m h hr =
    let (file, all) = written w acked pending (r ∷ records) h hr in
    let e = append-nil (acked ++ (pending ++ (r ∷ records))) in
    rw (m, sync_after_write)
      (
        record {
          file = rw e file;
          synced = ap length file ∙ length-encode_batch _;
          records = rw e all;
        },
        refl,
      )

-- With `Batched` the batch is pending, and nothing is synced.
pub append_batch-batched :
    (w : Wal) (acked pending : List Record) (r : Record) (records : List Record)
    → w.mode ≡ batched
    → IsLog w acked pending
    → All IsRecord (r ∷ records)
    → IsLog (append_batch w (r ∷ records)) acked (pending ++ (r ∷ records))
      × ((append_batch w (r ∷ records)).fsync_count ≡ w.fsync_count)
unfolding append_batch
append_batch-batched w acked pending r records m h hr =
    let (file, all) = written w acked pending (r ∷ records) h hr in
    rw (m, sync_after_write) (record { file = file; synced = h.synced; records = all }, refl)

-- `sync` makes the pending records durable.
pub sync-IsLog :
    (w : Wal) (acked pending : List Record)
    → IsLog w acked pending
    → IsLog (sync w) (acked ++ pending) []
unfolding sync
sync-IsLog w acked pending h =
    let e = append-nil (acked ++ pending) in
    record {
      file = rw e h.file;
      synced = ap length h.file ∙ length-encode_batch _;
      records = rw e h.records;
    }

-- Whatever bytes a log's file holds, cutting it at the valid end that DB::open computes and opening it
-- gives a log of exactly the replayed records, to which later appends are added. Opening syncs nothing: if
-- the bytes of the first records were durable, these are, and the others are pending.
pub open_wal-IsLog :
    (file : Bytes) (acked pending : List Record) (mode : SyncMode)
    → All IsByte file
    → replay (some file) ≡ acked ++ pending
    → IsLog
        (open_wal (take (valid_end (replay (some file))) file) (valid_end acked) mode)
        acked
        pending
unfolding open_wal
open_wal-IsLog file acked pending mode p split =
    let (tail, e, hs, torn) = replay_complete file p in
    record {
      file = take-valid_end file p ∙ ap encode_batch split;
      synced = refl;
      records = rw split at hs;
    }

-- `append` writes what a batch of one record writes.
pub append-eq-append_batch : (w : Wal) (r : Record) → append w r ≡ append_batch w (r ∷ [])
unfolding append append_batch
append-eq-append_batch w r = rw append-nil

-- A key or value above 64 MiB is written, and `replay` takes it for the end of the log.
pub record IsOversized (r : Record) : Type 0 where
  pub key : IsU32 (length r.key)
  pub value : IsU32 (length r.value)
  pub over : (max_length < length r.key) ⊎ (max_length < length r.value)

oversized-IsTorn : (r : Record) (rest : Bytes) → IsOversized r → IsTorn (encode_record r ++ rest)
unfolding replay_record replay_payload encode_record
oversized-IsTorn r rest h =
    let crc = crc32 (record_body r) in
    let (e₃, e₄) = header_lengths r h.key h.value in
    ground (
      arith,
      read_fully-append₂ 4 (put_u32_le crc) (record_body r) rest (sym (put_u32-length crc)),
      read_header r rest,
    )

-- The replay of such a log stops in front of the record: it and all later ones are lost.
pub replay-oversized :
    (records later : List Record) (r : Record)
    → All IsRecord records
    → IsOversized r
    → replay (some (encode_batch (records ++ (r ∷ later)))) ≡ records
replay-oversized records later r h o =
    ap (λ (t : Bytes). replay (some t)) (encode_batch-append records (r ∷ later))
    ∙ replay-encode_batch records (encode_batch (r ∷ later)) h
        (unfold encode_batch in oversized-IsTorn r (encode_batch later) o)
