-- ===== src/Sstable/Search.antt =====
-- The binary search of `find_block_idx`: the last block whose first key is not above the key.
use keystone_db.Prelude.{
  ℕ, zero, suc, ◌+◌, ◌-◌, ◌/◌, ◌≤◌, ◌<◌, ◌≡◌, refl, ap, List, [], ◌∷◌, arith, none, some, true,
  false, Bool-cases, Option-cases, All, All-get_or, ◌++◌, length-append, inl, inr, ◌⊎◌, ◌↔◌, length,
  ltb,
}
use keystone_db.Prelude.Keys.{Bytes, key_lt, key_le, key_le_of_not_lt, key_lt→not_le, compare_keys}
use keystone_db.Sstable.{IndexEntry}
use keystone_db.Sstable.Reader.{first_key_at, no_entry, search_loop, find_block_idx}

-- The loop keeps a block at or below the key at `lo`, and none of them from `hi` on.
search_loop_inv :
    (fuel : ℕ) (index : List IndexEntry) (key : Bytes) (lo hi : ℕ)
    → hi ≤ lo + fuel
    → lo < hi
    → hi ≤ length index
    → key_le (first_key_at index lo) key ≡ true
    → (hi ≡ length index) ⊎ (key_le (first_key_at index hi) key ≡ false)
    → (search_loop fuel index key lo hi < length index)
      × (key_le (first_key_at index (search_loop fuel index key lo hi)) key ≡ true)
      × ((suc (search_loop fuel index key lo hi) ≡ length index)
          ⊎ (key_le (first_key_at index (suc (search_loop fuel index key lo hi))) key ≡ false))
unfolding search_loop
search_loop_inv zero index key lo hi f l b p q = absurd (omega arith)
search_loop_inv (suc fuel) index key lo hi f l b p q = elim (Bool-cases (ltb (lo + 1) hi)) [
  | inl more ↦
      let mid = lo + (hi - lo) / 2 in
      elim (Bool-cases (key_le (first_key_at index mid) key)) [
        | inl up ↦
            rw (more, up)
              (search_loop_inv fuel index key mid hi (ground arith) (ground arith) b up q)
        | inr down ↦
            rw (more, down)
              (search_loop_inv fuel index key lo mid (ground arith) (ground arith) (ground arith) p
                (inr down))
      ]
  | inr done ↦
      let e : hi ≡ suc lo = ground arith in
      let q' : (suc lo ≡ length index) ⊎ (key_le (first_key_at index (suc lo)) key ≡ false) =
        rw e at q in
      rw done (omega arith, p, q')
]

-- The block that is found begins at or below the key, and the next one, if there is one, above it.
pub find_block_idx-some :
    (index : List IndexEntry) (key : Bytes) (i : ℕ)
    → find_block_idx index key ≡ some i
    → (i < length index)
      × (key_le (first_key_at index i) key ≡ true)
      × ((suc i ≡ length index) ⊎ (key_le (first_key_at index (suc i)) key ≡ false))
unfolding find_block_idx
find_block_idx-some [] key i e = cc
find_block_idx-some (ie ∷ index) key i e = elim (Bool-cases (key_lt key ie.first_key)) [
  | inl below ↦ ground arith
  | inr start ↦
      let l = search_loop (length (ie ∷ index)) (ie ∷ index) key 0 (length (ie ∷ index)) in
      let e' : l ≡ i = ground arith in
      rw (← e') (
        search_loop_inv (length (ie ∷ index)) (ie ∷ index) key 0 (length (ie ∷ index)) (omega arith)
          (omega arith) (omega arith) (key_le_of_not_lt key ie.first_key start) (inl refl))
]

-- A block is found exactly when there is a first one, and it begins at or below the key.
pub find_block_idx-none :
    (index : List IndexEntry) (key : Bytes)
    → (find_block_idx index key ≡ none)
      ↔ ((index ≡ []) ⊎ (key_lt key (first_key_at index 0) ≡ true))
unfolding find_block_idx
find_block_idx-none [] key = (λ e. inl refl, λ e. refl)
find_block_idx-none (ie ∷ index) key = (λ e. inr (ground arith), λ e. ground arith)

nil-key_le : (key : Bytes) → key_le [] key ≡ true
unfolding compare_keys
nil-key_le [] = refl
nil-key_le (b ∷ key) = refl

-- Where every block begins at or below the key, the last one is found.
pub find_block_idx_last :
    (index : List IndexEntry) (ie : IndexEntry) (key : Bytes)
    → All (λ x. key_le x.first_key key ≡ true) (index ++ (ie ∷ []))
    → find_block_idx (index ++ (ie ∷ [])) key ≡ some (length index)
find_block_idx_last index ie key h =
    let all = index ++ (ie ∷ []) in
    let below : (i : ℕ) → key_le (first_key_at all i) key ≡ true = λ i.
      All-get_or (λ (x : IndexEntry). key_le x.first_key key ≡ true) all i no_entry h
        (nil-key_le key) in
    let size : length all ≡ suc (length index) = omega (arith, length-append index (ie ∷ [])) in
    elim (Option-cases (find_block_idx all key)) [
      | inl e ↦ absurd (not_none index ie key (below 0) ((find_block_idx-none all key).0 e))
      | inr (i, e) ↦
          let (inside, at, next) = find_block_idx-some all key i e in
          let here : i ≡ length index = elim next [
            | inl last ↦ omega arith
            | inr above ↦ absurd (ground (arith, above, below (suc i)))
          ] in
          rw e (ap some here)
    ]
  where
    not_none :
        (index : List IndexEntry) (ie : IndexEntry) (key : Bytes)
        → key_le (first_key_at (index ++ (ie ∷ [])) 0) key ≡ true
        → ((index ++ (ie ∷ []) ≡ []) ⊎ (key_lt key (first_key_at (index ++ (ie ∷ [])) 0) ≡ true))
        → ⊥
    not_none index ie key b (inl e) =
        absurd (omega (arith, ap length e, length-append index (ie ∷ [])))
    not_none index ie key b (inr lt) =
        ground (arith, b, key_lt→not_le key (first_key_at (index ++ (ie ∷ [])) 0) lt)
