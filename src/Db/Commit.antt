-- ===== src/Db/Commit.antt =====
-- DB::compaction_loop: the output files and the commit of a compaction. The function `make_file`
-- stands for finishing, installing and opening a table, and `sort_files` for std::sort by the
-- smallest key.
use keystone_db.Prelude.{
  ℕ, ◌+◌, ◌≤◌, ◌≡◌, refl, ap, ◌∙◌, List, [], ◌∷◌, ◌++◌, append_assoc, arith, Bool, true, false, not,
  Bool-cases, inl, inr, All, length, ltb, leb, ◌==◌, if◌then◌else◌,
}
use keystone_db.Prelude.Keys.{Bytes, key_eq}
use keystone_db.Sstable.{Entry}
use keystone_db.Db.{FileMeta, Version}
use keystone_db.Db.Retain.{retain_loop, retain}

-- The entries of each output file; `written` are those of the writer in hand, none if there is no
-- writer.
unfoldable pub split_outputs : ℕ → ℕ → List Entry → List Entry → List (List Entry)
split_outputs target_file_size cur_bytes [] [] = []
split_outputs target_file_size cur_bytes (w ∷ written) [] = (w ∷ written) ∷ []
split_outputs target_file_size cur_bytes written (e ∷ entries) =
    let bytes = cur_bytes + (17 + length e.key + length e.value) in
    let full = leb target_file_size bytes in
    let rest =
      split_outputs target_file_size (if full then 0 else bytes)
        (if full then [] else written ++ (e ∷ [])) entries in
    if full then (written ++ (e ∷ [])) ∷ rest else rest

unfoldable pub flatten : List (List Entry) → List Entry
flatten [] = []
flatten (entries ∷ outputs) = entries ++ flatten outputs

unfoldable pub make_outputs : (List Entry → FileMeta) → List (List Entry) → List FileMeta
make_outputs make_file [] = []
make_outputs make_file (entries ∷ outputs) = make_file entries ∷ make_outputs make_file outputs

unfoldable pub has_number : List FileMeta → ℕ → Bool
has_number [] number = false
has_number (fm ∷ inputs) number =
    let rest = has_number inputs number in if fm.number == number then true else rest

unfoldable pub without_inputs : List FileMeta → List FileMeta → List FileMeta
unfolding has_number
without_inputs inputs [] = []
without_inputs inputs (fm ∷ files) =
    let rest = without_inputs inputs files in
    if has_number inputs fm.number then rest else fm ∷ rest

-- The levels of the new version, from `level` on.
unfoldable pub new_levels :
    (List FileMeta → List FileMeta)
    → ℕ
    → List FileMeta
    → List FileMeta
    → ℕ
    → List (List FileMeta)
    → List (List FileMeta)
unfolding without_inputs
new_levels sort_files output_level inputs outputs level [] = []
new_levels sort_files output_level inputs outputs level (files ∷ levels) =
    let kept = without_inputs inputs files in
    (if level == output_level
      then (if leb 1 level then sort_files (kept ++ outputs) else kept ++ outputs)
      else kept)
    ∷ new_levels sort_files output_level inputs outputs (level + 1) levels

-- Without an output the version stays.
unfoldable pub commit :
    (List FileMeta → List FileMeta) → ℕ → List FileMeta → List FileMeta → Version → Version
unfolding new_levels
commit sort_files output_level inputs [] ver = ver
commit sort_files output_level inputs (out ∷ outputs) ver = record {
  files = new_levels sort_files output_level inputs (out ∷ outputs) 0 ver.files;
}

-- The output files hold the entries in the writer's hand and the ones that follow, each entry once and in
-- order.
pub split_outputs-flatten :
    (target_file_size cur_bytes : ℕ) (written entries : List Entry)
    → flatten (split_outputs target_file_size cur_bytes written entries) ≡ written ++ entries
unfolding split_outputs flatten
split_outputs-flatten t c [] [] = refl
split_outputs-flatten t c (w ∷ written) [] = refl
split_outputs-flatten t c written (e ∷ entries) =
    let bytes = c + (17 + length e.key + length e.value) in
    elim (Bool-cases (leb t bytes)) [
      | inl full ↦ rw full (
          ap (λ xs. (written ++ (e ∷ [])) ++ xs) (split_outputs-flatten t 0 [] entries)
          ∙ append_assoc written (e ∷ []) entries)
      | inr room ↦ rw room (
          split_outputs-flatten t bytes (written ++ (e ∷ [])) entries
          ∙ append_assoc written (e ∷ []) entries)
    ]

retain_loop_deleted :
    (oldest_snap : ℕ) (prev_key : Bytes) (kept_anchor : Bool) (entries : List Entry)
    → All (λ e. (e.tombstone ≡ true) × (e.seq ≤ oldest_snap)) entries
    → retain_loop true oldest_snap prev_key kept_anchor entries ≡ []
unfolding retain_loop
retain_loop_deleted o prev kept [] h = refl
retain_loop_deleted o prev kept (e ∷ entries) ((dead, low), hs) =
    let below : ltb o e.seq ≡ false = ground (arith, low) in
    let is_new = not (key_eq e.key prev) in
    let ih = retain_loop_deleted o (if is_new then e.key else prev) true entries hs in
    elim (Bool-cases (if is_new then false else kept)) [
      | inl a ↦ rw (below, a) ih
      | inr a ↦ rw (below, a, dead) ih
    ]

-- If all entries of a compaction to the bottommost level are tombstones that the oldest snapshot
-- sees, the compaction has no output and leaves the version as it was, its inputs included.
pub commit_stuck :
    (sort_files : List FileMeta → List FileMeta) (make_file : List Entry → FileMeta)
    (target_file_size output_level oldest_snap : ℕ) (inputs : List FileMeta) (entries : List Entry)
    (ver : Version)
    → All (λ e. (e.tombstone ≡ true) × (e.seq ≤ oldest_snap)) entries
    → commit sort_files output_level inputs
        (make_outputs make_file
          (split_outputs target_file_size 0 [] (retain true oldest_snap entries)))
        ver
      ≡ ver
unfolding retain
commit_stuck sort_files make_file target level oldest_snap inputs entries ver h =
    rw (retain_loop_deleted oldest_snap [] false entries h)
      (unfold commit make_outputs split_outputs in refl)
