-- ===== src/Db/Overlap.antt =====
-- What a compaction of level 0 leaves in level 1 shares no key with level 0.
use keystone_db.Prelude.{
  ◌≡◌, refl, List, [], ◌∷◌, ◌++◌, arith, true, false, Bool-cases, inl, inr, ◌⊎◌, All, All-map,
}
use keystone_db.Prelude.Keys.{
  Bytes, key_lt, key_le, compare_keys, key_le_refl, key_le_of_not_lt, key_lt_le_trans,
  key_le_lt_trans, key_le_trans,
}
use keystone_db.Sstable.Writer.{is_empty}
use keystone_db.Db.{FileMeta, Version, files_at}
use keystone_db.Db.Pick.{lower_bound, upper_bound, range_loop, overlapping, l0_job}

lower_bound-le :
    (range_min key : Bytes)
    → is_empty key ≡ false
    → (is_empty (lower_bound range_min key) ≡ false)
      × (key_le (lower_bound range_min key) key ≡ true)
      × ((is_empty range_min ≡ false) → key_le (lower_bound range_min key) range_min ≡ true)
lower_bound-le range_min key some_key = elim (Bool-cases (is_empty range_min)) [
  | inl e ↦ rw e (some_key, key_le_refl key, λ n. absurd (ground arith))
  | inr e ↦ elim (Bool-cases (key_lt key range_min)) [
    | inl l ↦ rw (e, l) (some_key, key_le_refl key, λ n. ground arith)
    | inr l ↦ rw (e, l) (e, key_le_of_not_lt key range_min l, λ n. key_le_refl range_min)
  ]
]

nil-key_le : (b : Bytes) → key_le [] b ≡ true
unfolding compare_keys
nil-key_le [] = refl
nil-key_le (x ∷ b) = refl

upper_bound-ge :
    (range_max key : Bytes)
    → (key_le key (upper_bound range_max key) ≡ true)
      × (key_le range_max (upper_bound range_max key) ≡ true)
upper_bound-ge [] key = (key_le_refl key, nil-key_le key)
upper_bound-ge (x ∷ range_max) key = elim (Bool-cases (key_lt (x ∷ range_max) key)) [
  | inl l ↦ rw l (key_le_refl key, ground arith)
  | inr l ↦ rw l (key_le_of_not_lt (x ∷ range_max) key l, key_le_refl (x ∷ range_max))
]

-- The range of the loop encloses every file, if no file begins at the empty key.
range_loop-covers :
    (files : List FileMeta) (range_min range_max : Bytes)
    → All (λ f. is_empty f.smallest_key ≡ false) files
    → ((is_empty range_min ≡ false)
        → key_le (range_loop files range_min range_max).0 range_min ≡ true)
      × (key_le range_max (range_loop files range_min range_max).1 ≡ true)
      × All
          (λ f.
            (key_le (range_loop files range_min range_max).0 f.smallest_key ≡ true)
            × (key_le f.largest_key (range_loop files range_min range_max).1 ≡ true))
          files
unfolding range_loop
range_loop-covers [] range_min range_max h = (λ e. key_le_refl range_min, key_le_refl range_max, tt)
range_loop-covers (fm ∷ files) range_min range_max (some_key, hs) =
    let mn = lower_bound range_min fm.smallest_key in
    let mx = upper_bound range_max fm.largest_key in
    let r = range_loop files mn mx in
    let (kept, to_key, to_min) = lower_bound-le range_min fm.smallest_key some_key in
    let (from_key, from_max) = upper_bound-ge range_max fm.largest_key in
    let (low, high, all) = range_loop-covers files mn mx hs in
    (
      λ e. key_le_trans r.0 mn range_min (low kept) (to_min e),
      key_le_trans range_max mx r.1 from_max high,
      (
        (
          key_le_trans r.0 mn fm.smallest_key (low kept) to_key,
          key_le_trans fm.largest_key mx r.1 from_key high,
        ),
        all,
      ),
    )

-- A file of the list.
unfoldable pub IsIn : FileMeta → List FileMeta → Type 0
IsIn g [] = ⊥
IsIn g (fm ∷ files) = (g ≡ fm) ⊎ IsIn g files

IsIn-append : (g : FileMeta) (xs ys : List FileMeta) → IsIn g ys → IsIn g (xs ++ ys)
unfolding IsIn
IsIn-append g [] ys h = h
IsIn-append g (x ∷ xs) ys h = inr (IsIn-append g xs ys h)

-- A file that is not picked lies left of the range or right of it.
Beside : Bytes → Bytes → FileMeta → Type 0
Beside range_min range_max g =
    (key_lt g.largest_key range_min ≡ true) ⊎ (key_lt range_max g.smallest_key ≡ true)

overlapping_complete :
    (g : FileMeta) (files : List FileMeta) (range_min range_max : Bytes)
    → IsIn g files
    → IsIn g (overlapping files range_min range_max) ⊎ Beside range_min range_max g
unfolding overlapping IsIn Beside
overlapping_complete g [] mn mx h = absurd h
overlapping_complete g (fm ∷ files) mn mx (inl here) =
    elim (Bool-cases (key_lt fm.largest_key mn)) [
      | inl left ↦ inr (inl (rw here left))
      | inr in_left ↦ elim (Bool-cases (key_lt mx fm.smallest_key)) [
        | inl right ↦ inr (inr (rw here right))
        | inr in_right ↦ rw (in_left, in_right) (inl (inl here))
      ]
    ]
overlapping_complete g (fm ∷ files) mn mx (inr there) =
    let ih = overlapping_complete g files mn mx there in
    elim (Bool-cases (key_lt fm.largest_key mn)) [
      | inl left ↦ rw left ih
      | inr in_left ↦ elim (Bool-cases (key_lt mx fm.smallest_key)) [
        | inl right ↦ rw (in_left, right) ih
        | inr in_right ↦ rw (in_left, in_right) (elim ih [ inl i ↦ inl (inr i) | inr b ↦ inr b ])
      ]
    ]

-- The two files share no key.
unfoldable pub Apart : FileMeta → FileMeta → Type 0
Apart f g =
    (key_lt g.largest_key f.smallest_key ≡ true) ⊎ (key_lt f.largest_key g.smallest_key ≡ true)

Beside-Apart :
    (mn mx : Bytes) (f g : FileMeta)
    → (key_le mn f.smallest_key ≡ true) × (key_le f.largest_key mx ≡ true)
    → Beside mn mx g
    → Apart f g
unfolding Beside Apart
Beside-Apart mn mx f g (low, high) (inl left) =
    inl (key_lt_le_trans g.largest_key mn f.smallest_key left low)
Beside-Apart mn mx f g (low, high) (inr right) =
    inr (key_le_lt_trans f.largest_key mx g.smallest_key high right)

-- If no file of level 0 begins at the empty key, every file of level 1 is an input of the
-- compaction of level 0, or shares no key with any file of level 0.
pub l0_job_complete :
    (ver : Version) (g : FileMeta)
    → All (λ f. is_empty f.smallest_key ≡ false) (files_at ver 0)
    → IsIn g (files_at ver 1)
    → IsIn g (l0_job ver).inputs ⊎ All (λ f. Apart f g) (files_at ver 0)
unfolding l0_job
l0_job_complete ver g h i =
    let r = range_loop (files_at ver 0) [] [] in
    let (low, high, covers) = range_loop-covers (files_at ver 0) [] [] h in
    elim (overlapping_complete g (files_at ver 1) r.0 r.1 i) [
      | inl picked ↦ inl (IsIn-append g (files_at ver 0) _ picked)
      | inr b ↦ inr (
          All-map
            (λ (f : FileMeta).
              (key_le r.0 f.smallest_key ≡ true) × (key_le f.largest_key r.1 ≡ true))
            (λ f. Apart f g) (λ f c. Beside-Apart r.0 r.1 f g c b) (files_at ver 0) covers)
    ]
