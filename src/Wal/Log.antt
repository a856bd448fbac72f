-- ===== src/Wal/Log.antt =====
-- Whole logs: the batch that was written is replayed, up to a torn tail; the end that `DB::open`
-- truncates to is exactly the end of the records that were replayed.
use keystone_db.Prelude.{
  ℕ, zero, suc, ◌+◌, ◌≤◌, ◌≡◌, refl, sym, ap, ◌∙◌, List, [], ◌∷◌, ◌++◌, append_assoc, none, some,
  arith, Option-cases, inl, inr, length, length-append, take, All, take-length-append,
}
use keystone_db.Prelude.Keys.{Bytes, IsByte}
use keystone_db.Prelude.Files.{read_fully-short}
use keystone_db.Wal.{Record, encode_record, encode_batch, replay_record, replay_loop, replay}
use keystone_db.Wal.RoundTrip.{IsRecord, replay-encode_record, length-encode_record}
use keystone_db.Wal.Inverse.{replay_record-some}

-- Where `replay` stops: nothing more can be read as a record.
abbrev pub IsTorn : Bytes → Type 0
IsTorn tail = replay_record tail ≡ none

-- The end of the valid part that `DB::open` computes: 21 bytes for each record, its key and its value.
unfoldable pub valid_end : List Record → ℕ
valid_end [] = 0
valid_end (r ∷ records) = 21 + length r.key + length r.value + valid_end records

pub length-encode_batch :
    (records : List Record) → length (encode_batch records) ≡ valid_end records
unfolding encode_batch valid_end
length-encode_batch [] = refl
length-encode_batch (r ∷ records) = omega (
  arith,
  length-append (encode_record r) (encode_batch records),
  length-encode_record r,
  length-encode_batch records,
)

pub encode_batch-append :
    (xs ys : List Record) → encode_batch (xs ++ ys) ≡ encode_batch xs ++ encode_batch ys
unfolding encode_batch
encode_batch-append [] ys = refl
encode_batch-append (r ∷ xs) ys = simp (encode_batch-append xs ys, append_assoc)

pub nil-IsTorn : IsTorn []
unfolding replay_record
nil-IsTorn = rw (read_fully-short 4 [] (omega arith))

encode_batch_cons :
    (r : Record) (records : List Record) (tail : Bytes)
    → encode_batch (r ∷ records) ++ tail ≡ encode_record r ++ (encode_batch records ++ tail)
unfolding encode_batch
encode_batch_cons r records tail = append_assoc (encode_record r) (encode_batch records) tail

replay_loop_torn : (fuel : ℕ) (file : Bytes) → IsTorn file → replay_loop fuel file ≡ []
unfolding replay_loop
replay_loop_torn zero file t = refl
replay_loop_torn (suc fuel) file t = rw (t, replay_loop)

replay_loop_step :
    (fuel : ℕ) (file rest : Bytes) (r : Record)
    → replay_record file ≡ some (r, rest)
    → replay_loop (suc fuel) file ≡ r ∷ replay_loop fuel rest
unfolding replay_loop
replay_loop_step fuel file rest r e = rw (e, replay_loop)

-- Any fuel that covers the file replays the records that were written, and stops at a torn tail.
replay_loop-encode_batch :
    (fuel : ℕ) (records : List Record) (tail : Bytes)
    → All IsRecord records
    → IsTorn tail
    → length (encode_batch records ++ tail) ≤ fuel
    → replay_loop fuel (encode_batch records ++ tail) ≡ records
unfolding encode_batch
replay_loop-encode_batch zero [] tail h t l = replay_loop_torn zero tail t
replay_loop-encode_batch (suc fuel) [] tail h t l = replay_loop_torn (suc fuel) tail t
replay_loop-encode_batch zero (r ∷ records) tail h t l = absurd (
    omega (
      arith,
      length-encode_record r,
      length-append (encode_record r ++ encode_batch records) tail,
      length-append (encode_record r) (encode_batch records),
    ))
replay_loop-encode_batch (suc fuel) (r ∷ records) tail (hr, hs) t l =
    let rest = encode_batch records ++ tail in
    rw append_assoc (
      replay_loop_step fuel _ rest r (replay-encode_record r rest hr)
      ∙ ap (◌∷◌ r) (
          replay_loop-encode_batch fuel records tail hs t (
            omega (
              arith,
              length-encode_record r,
              ap length (append_assoc (encode_record r) (encode_batch records) tail),
              length-append (encode_record r) rest,
            ))))

-- The log of a batch and a torn tail is replayed to the batch.
pub replay-encode_batch :
    (records : List Record) (tail : Bytes)
    → All IsRecord records
    → IsTorn tail
    → replay (some (encode_batch records ++ tail)) ≡ records
unfolding replay
replay-encode_batch records tail h t = replay_loop-encode_batch _ records tail h t (omega arith)

-- `replay` reads the whole valid part: what it leaves is torn.
replay_loop_complete :
    (fuel : ℕ) (file : Bytes)
    → All IsByte file
    → length file ≤ fuel
    → (tail : Bytes) × (file ≡ encode_batch (replay_loop fuel file) ++ tail)
      × All IsRecord (replay_loop fuel file)
      × IsTorn tail
replay_loop_complete zero [] p l =
    rw (replay_loop_torn zero [] nil-IsTorn) (unfold encode_batch in ([], refl, tt, nil-IsTorn))
replay_loop_complete zero (b ∷ file) p l = absurd (omega arith)
replay_loop_complete (suc fuel) file p l = elim (Option-cases (replay_record file)) [
  | inl torn ↦
      rw (replay_loop_torn (suc fuel) file torn) (unfold encode_batch in (file, refl, tt, torn))
  | inr ((r, rest), e) ↦
      let (ef, hr, pr) = replay_record-some file rest r p e in
      let (tail, er, hs, torn) = replay_loop_complete fuel rest pr (
        omega
          (arith, ap length ef, length-append (encode_record r) rest, length-encode_record r)) in
      let whole : encode_batch (r ∷ replay_loop fuel rest) ++ tail ≡ file =
        encode_batch_cons r _ tail ∙ ap (λ (t : Bytes). encode_record r ++ t) (sym er) ∙ sym ef in
      rw (replay_loop_step fuel file rest r e) (tail, sym whole, (hr, hs), torn)
]

pub replay_complete :
    (file : Bytes)
    → All IsByte file
    → (tail : Bytes) × (file ≡ encode_batch (replay (some file)) ++ tail)
      × All IsRecord (replay (some file))
      × IsTorn tail
unfolding replay
replay_complete file p = replay_loop_complete (length file) file p (omega arith)

-- After `DB::open` has cut the file at `valid_end`, it is the encoding of the replayed records.
pub take-valid_end :
    (file : Bytes)
    → All IsByte file
    → take (valid_end (replay (some file))) file ≡ encode_batch (replay (some file))
take-valid_end file p =
    let (tail, e, hs, torn) = replay_complete file p in
    ap (take (valid_end (replay (some file)))) e
    ∙ take-length-append (encode_batch (replay (some file))) tail _ (sym (length-encode_batch _))
