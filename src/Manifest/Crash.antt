-- ===== src/Manifest/Crash.antt =====
-- The MANIFEST across appends and crashes: the last snapshot that was written whole is the one loaded.
use keystone_db.Prelude.{
  ℕ, zero, suc, ◌+◌, ◌-◌, ◌≤◌, ◌<◌, ◌≡◌, refl, sym, ap, ◌∙◌, List, [], ◌∷◌, ◌++◌, append-nil,
  append_assoc, Option-cases, inl, inr, some, arith, length, length-append, take, drop,
  take-append-drop, take-append_ge, length-take, All,
}
use keystone_db.Prelude.Keys.{Bytes}
use keystone_db.Prelude.Files.{read_fully-short}
use keystone_db.Manifest.{
  Manifest, ManifestEntry, encode_entries, encode_snapshot, max_count, rest_size, load_snapshot,
  load_loop, load_latest, append_snapshot,
}
use keystone_db.Manifest.Read.{IsEntry}
use keystone_db.Manifest.Extend.{load_snapshot-extend}
use keystone_db.Manifest.Snapshots.{
  IsSnapshot, IsTorn, load-encode_snapshot, load_snapshot_full, length-encode_snapshot,
}

-- A MANIFEST file: the snapshots that were appended, in order.
abbrev pub encode_log : List (List ManifestEntry) → Bytes
encode_log [] = []
encode_log (files ∷ log) = encode_snapshot files ++ encode_log log

-- The last snapshot of a log, or `files` if there is none.
abbrev pub last : List ManifestEntry → List (List ManifestEntry) → List ManifestEntry
last files [] = files
last files (next ∷ log) = last next log

nil-IsTorn : IsTorn []
unfolding load_snapshot
nil-IsTorn = rw (read_fully-short 4 [] (omega arith))

-- A proper prefix of a snapshot is not loaded.
cut-IsTorn :
    (files : List ManifestEntry) (front back : Bytes)
    → IsSnapshot files
    → encode_snapshot files ≡ front ++ back
    → length front < length (encode_snapshot files)
    → IsTorn front
cut-IsTorn files front back h e l = elim (Option-cases (load_snapshot front)) [
  | inl torn ↦ torn
  | inr ((files', rest), e') ↦
      let a : load_snapshot (encode_snapshot files) ≡ some (files, []) =
        ap load_snapshot (sym (append-nil (encode_snapshot files)))
        ∙ load-encode_snapshot files [] h in
      let b : load_snapshot (encode_snapshot files) ≡ some (files', rest ++ back) =
        ap load_snapshot e ∙ load_snapshot-extend front back rest files' e' in
      let none_left : [] ≡ rest ++ back = cc (a, b) in
      absurd (
        omega (
          arith,
          ap length none_left,
          length-append rest back,
          ap length e,
          length-append front back,
        ))
]

load_loop_torn :
    (fuel : ℕ) (latest : List ManifestEntry) (file : Bytes)
    → IsTorn file
    → load_loop fuel latest file ≡ latest
unfolding load_loop
load_loop_torn zero latest file t = refl
load_loop_torn (suc fuel) latest file t = rw (t, load_loop)

load_loop_step :
    (fuel : ℕ) (latest files : List ManifestEntry) (file rest : Bytes)
    → load_snapshot file ≡ some (files, rest)
    → load_loop (suc fuel) latest file ≡ load_loop fuel files rest
unfolding load_loop
load_loop_step fuel latest files file rest e = rw (e, load_loop)

load_loop-encode_log :
    (fuel : ℕ) (latest : List ManifestEntry) (log : List (List ManifestEntry)) (tail : Bytes)
    → All IsSnapshot log
    → IsTorn tail
    → length (encode_log log ++ tail) ≤ fuel
    → load_loop fuel latest (encode_log log ++ tail) ≡ last latest log
load_loop-encode_log fuel latest [] tail h t l = load_loop_torn fuel latest tail t
load_loop-encode_log zero latest (files ∷ log) tail h t l =
    absurd (omega (arith, length-append {0}, length-encode_snapshot files))
load_loop-encode_log (suc fuel) latest (files ∷ log) tail (hf, hs) t l =
    let e = append_assoc (encode_snapshot files) (encode_log log) tail in
    rw e (
      load_loop_step fuel latest files _ _ (load-encode_snapshot files (encode_log log ++ tail) hf)
      ∙ load_loop-encode_log fuel files log tail hs t (
          omega (
            arith,
            ap length e,
            length-append (encode_snapshot files) (encode_log log ++ tail),
            length-encode_snapshot files,
          )))

-- The last whole snapshot is loaded, whatever torn tail follows.
pub load_latest-encode_log :
    (log : List (List ManifestEntry)) (tail : Bytes)
    → All IsSnapshot log
    → IsTorn tail
    → load_latest (some (encode_log log ++ tail)) ≡ last [] log
unfolding load_latest
load_latest-encode_log log tail h t = load_loop-encode_log _ [] log tail h t (omega arith)

encode_log-append :
    (log : List (List ManifestEntry)) (files : List ManifestEntry)
    → encode_log (log ++ (files ∷ [])) ≡ encode_log log ++ encode_snapshot files
encode_log-append [] files = append-nil (encode_snapshot files)
encode_log-append (next ∷ log) files = simp (encode_log-append log files, append_assoc)

last-append :
    (first : List ManifestEntry) (log : List (List ManifestEntry)) (files : List ManifestEntry)
    → last first (log ++ (files ∷ [])) ≡ files
last-append first [] files = refl
last-append first (next ∷ log) files = last-append next log files

All-snoc :
    (log : List (List ManifestEntry)) (files : List ManifestEntry)
    → All IsSnapshot log
    → IsSnapshot files
    → All IsSnapshot (log ++ (files ∷ []))
All-snoc [] files h k = (k, tt)
All-snoc (next ∷ log) files (hn, hs) k = (hn, All-snoc log files hs k)

-- If the MANIFEST holds only snapshots that the reader has room for, with nothing torn behind them, another
-- such snapshot that is appended is durable, and it is the one that is loaded.
pub load_latest-append_snapshot :
    (m : Manifest) (log : List (List ManifestEntry)) (files : List ManifestEntry)
    → m.file ≡ encode_log log
    → All IsSnapshot log
    → IsSnapshot files
    → (load_latest (some (append_snapshot m files).file) ≡ files)
      × ((append_snapshot m files).synced ≡ length (append_snapshot m files).file)
unfolding append_snapshot
load_latest-append_snapshot m log files e h k = (
  ap (λ (t : Bytes). load_latest (some t))
        (ap (λ (t : Bytes). t ++ encode_snapshot files) e
          ∙ sym (encode_log-append log files)
          ∙ sym (append-nil _))
      ∙ load_latest-encode_log (log ++ (files ∷ [])) [] (All-snoc log files h k) nil-IsTorn
      ∙ last-append [] log files,
  refl,
)

-- A crash inside the append leaves the snapshot before it: the append is atomic.
pub load_latest-crash :
    (m : Manifest) (log : List (List ManifestEntry)) (files : List ManifestEntry) (n : ℕ)
    → m.file ≡ encode_log log
    → All IsSnapshot log
    → IsSnapshot files
    → length m.file ≤ n
    → n < length (append_snapshot m files).file
    → load_latest (some (take n (append_snapshot m files).file)) ≡ last [] log
unfolding append_snapshot
load_latest-crash m log files n e h k lo hi =
    let cut = n - length m.file in
    ap (λ (t : Bytes). load_latest (some t))
      (take-append_ge n m.file (encode_snapshot files) lo
        ∙ ap (λ (t : Bytes). t ++ take cut (encode_snapshot files)) e)
    ∙ load_latest-encode_log log (take cut (encode_snapshot files)) h (
        cut-IsTorn files _ (drop cut (encode_snapshot files)) k
          (sym (take-append-drop cut (encode_snapshot files)))
          (omega (
            arith,
            length-take cut (encode_snapshot files),
            length-append m.file (encode_snapshot files),
          )))

-- A snapshot in which the smallest key of some entry fills up the read buffer is appended and then
-- never loaded: the snapshot before it stays the latest, whatever is appended later.
pub load_latest_full :
    (m : Manifest) (log : List (List ManifestEntry)) (xs ys : List ManifestEntry)
    (e : ManifestEntry) (later : Bytes)
    → m.file ≡ encode_log log
    → All IsSnapshot log
    → length (xs ++ (e ∷ ys)) ≤ max_count
    → All IsEntry xs
    → IsEntry e
    → length (encode_entries xs) + 12 ≤ rest_size (length (xs ++ (e ∷ ys)))
    → rest_size (length (xs ++ (e ∷ ys))) < length (encode_entries xs) + 16 + length e.smallest_key
    → load_latest (some ((append_snapshot m (xs ++ (e ∷ ys))).file ++ later)) ≡ last [] log
unfolding append_snapshot
load_latest_full m log xs ys e later em h c hx he room over =
    let files = xs ++ (e ∷ ys) in
    ap (λ (t : Bytes). load_latest (some t))
      (append_assoc m.file (encode_snapshot files) later
        ∙ ap (λ (t : Bytes). t ++ (encode_snapshot files ++ later)) em)
    ∙ load_latest-encode_log log (encode_snapshot files ++ later) h
        (load_snapshot_full xs ys e later c hx he room over)
