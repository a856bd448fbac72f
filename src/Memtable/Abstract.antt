-- ===== src/Memtable/Abstract.antt =====
-- What a memtable stands for: the versions in order, by key and the newest version first.
use Prim.Native.Nat.{Ordering}
use keystone_db.Prelude.{
  ℕ, ◌≡◌, refl, sym, List, [], ◌∷◌, arith, true, false, Bool-cases, inl, inr, ◌⊎◌, All, All-map,
  leb, if◌then◌else◌,
}
use keystone_db.Prelude.Keys.{
  Bytes, key_lt, key_eq, compare_keys, compare_keys_refl, compare_keys-eq, compare_keys-swap_gt,
  compare_keys-swap_lt,
}
use keystone_db.Sstable.{Entry, LookupResult}
use keystone_db.Sstable.Reader.{nothing}
use keystone_db.Sstable.Block.{entry_result}
use keystone_db.Db.Retain.{newest, IsAfter, IsAfter-trans, larger, older, IsMerged}
use keystone_db.Db.Collect.{newest_other, gone}
use keystone_db.Memtable.{key_less}

-- A version is put in front of the first one that is not less.
unfoldable pub insert_entry : Entry → List Entry → List Entry
insert_entry e [] = e ∷ []
insert_entry e (x ∷ entries) =
    let rest = insert_entry e entries in
    if key_less x e.key e.seq then x ∷ rest else e ∷ (x ∷ entries)

-- The versions from the first one on that is not less than a key and a sequence number.
unfoldable pub entries_from_place : Bytes → ℕ → List Entry → List Entry
entries_from_place key seq [] = []
entries_from_place key seq (x ∷ entries) =
    let rest = entries_from_place key seq entries in
    if key_less x key seq then rest else x ∷ entries

pub less-IsAfter : (x e : Entry) → key_less x e.key e.seq ≡ true → IsAfter x e
unfolding key_less
less-IsAfter x e h = elim (Bool-cases (key_lt x.key e.key)) [
  | inl l ↦ larger l
  | inr n ↦
      let same : compare_keys x.key e.key ≡ Ordering.eq = ground arith in
      older (compare_keys-eq x.key e.key same) (ground (arith, same))
]

pub not_less-IsAfter : (x e : Entry) → key_less x e.key e.seq ≡ false → IsAfter e x
unfolding key_less
not_less-IsAfter x e h = elim (Bool-cases (key_lt e.key x.key)) [
  | inl l ↦ larger l
  | inr n ↦
      let same : compare_keys x.key e.key ≡ Ordering.eq =
        ground (arith, compare_keys-swap_gt x.key e.key) in
      older (sym (compare_keys-eq x.key e.key same)) (ground (arith, same))
]

pub IsAfter-not_less : (e x : Entry) → IsAfter e x → key_less x e.key e.seq ≡ false
unfolding key_less
IsAfter-not_less e x (larger l) = ground (arith, compare_keys-swap_lt e.key x.key)
IsAfter-not_less e x (older q l) =
    let same : compare_keys x.key e.key ≡ Ordering.eq = rw q (compare_keys_refl x.key) in
    ground (arith, same)

-- Behind a version that is not less there are none that are.
pub not_less_after :
    (key : Bytes) (seq : ℕ) (x y : Entry)
    → key_less x key seq ≡ false
    → IsAfter x y
    → key_less y key seq ≡ false
not_less_after key seq x y h a =
    let place : Entry = record { key = key; value = []; tombstone = false; seq = seq } in
    IsAfter-not_less place y (IsAfter-trans place x y (not_less-IsAfter x place h) a)

insert_entry-All :
    (P : Entry → Type 0) (e : Entry) (entries : List Entry)
    → P e
    → All P entries
    → All P (insert_entry e entries)
unfolding insert_entry
insert_entry-All P e [] p h = (p, tt)
insert_entry-All P e (x ∷ entries) p (hx, hs) = elim (Bool-cases (key_less x e.key e.seq)) [
  | inl t ↦ rw t (hx, insert_entry-All P e entries p hs)
  | inr t ↦ rw t (p, (hx, hs))
]

-- Inserting keeps the order.
pub insert_entry-IsMerged :
    (e : Entry) (entries : List Entry) → IsMerged entries → IsMerged (insert_entry e entries)
unfolding insert_entry IsMerged
insert_entry-IsMerged e [] h = (tt, tt)
insert_entry-IsMerged e (x ∷ entries) (after, m) = elim (Bool-cases (key_less x e.key e.seq)) [
  | inl t ↦ rw t (
    insert_entry-All (IsAfter x) e entries (less-IsAfter x e t) after,
    insert_entry-IsMerged e entries m,
  )
  | inr t ↦
      let first = not_less-IsAfter x e t in
      rw t (
        (first, All-map (IsAfter x) (IsAfter e) (λ y a. IsAfter-trans e x y first a) entries after),
        (after, m),
      )
]

-- What the version at a place says of the key.
unfoldable pub place_result : Bytes → List Entry → LookupResult
place_result key [] = nothing
place_result key (x ∷ entries) = if key_eq x.key key then entry_result x else nothing

skipped :
    (key : Bytes) (seq : ℕ) (x : Entry)
    → key_less x key seq ≡ true
    → (key_eq x.key key ≡ false) ⊎ (leb x.seq seq ≡ false)
unfolding key_less
skipped key seq x h = elim (Bool-cases (key_eq x.key key)) [
  | inl same ↦ inr (ground arith)
  | inr other ↦ inl other
]

found :
    (key : Bytes) (seq : ℕ) (x : Entry)
    → key_less x key seq ≡ false
    → ((key_eq x.key key ≡ true) × (leb x.seq seq ≡ true)) ⊎ (key_lt key x.key ≡ true)
unfolding key_less
found key seq x h = elim (Bool-cases (key_eq x.key key)) [
  | inl same ↦ inl (same, ground arith)
  | inr other ↦ inr (ground (arith, compare_keys-swap_gt x.key key))
]

-- In ordered versions the newest one that a snapshot sees is the one at the key's place.
pub newest-place :
    (key : Bytes) (seq : ℕ) (entries : List Entry)
    → IsMerged entries
    → newest key seq entries ≡ place_result key (entries_from_place key seq entries)
unfolding newest entries_from_place IsMerged place_result
newest-place key seq [] m = refl
newest-place key seq (x ∷ entries) (after, m) = elim (Bool-cases (key_less x key seq)) [
  | inl t ↦
      let ih = newest-place key seq entries m in
      elim (skipped key seq x t) [
        | inl other ↦ rw (t, other) ih
        | inr unseen ↦ elim (Bool-cases (key_eq x.key key)) [
          | inl same ↦ rw (t, same, unseen) ih
          | inr other ↦ rw (t, other) ih
        ]
      ]
  | inr t ↦ elim (found key seq x t) [
    | inl (same, seen) ↦ rw (t, same, seen) refl
    | inr past ↦
        let (other, others) = gone key x entries past after in
        rw (t, other, newest_other key seq entries others) refl
  ]
]
