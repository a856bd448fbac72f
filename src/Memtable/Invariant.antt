-- ===== src/Memtable/Invariant.antt =====
-- The skip list's invariant, and the nodes in front of a place and from it on.
use keystone_db.Prelude.{
  ℕ, ◌≤◌, ◌<◌, ◌≡◌, refl, ap, List, [], ◌∷◌, ◌++◌, false, Bool-cases, inl, inr, All, length,
  if◌then◌else◌,
}
use keystone_db.Prelude.Keys.{Bytes}
use keystone_db.Sstable.{Entry}
use keystone_db.Db.Retain.{IsAfter, IsMerged}
use keystone_db.Memtable.{Node, Memtable, head, entry_at, forward_at, key_less}
use keystone_db.Memtable.Chain.{Linked}
use keystone_db.Memtable.Search.{height_at, Less, NotLess}
use keystone_db.Memtable.Weave.{Distinct}
use keystone_db.Memtable.Abstract.{insert_entry, not_less_after}

abbrev pub entries_of : List Node → List ℕ → List Entry
entries_of nodes [] = []
entries_of nodes (p ∷ ps) = entry_at nodes p ∷ entries_of nodes ps

-- The nodes `ps`, in order, are the ones behind the head.
pub record IsMemtable (m : Memtable) (ps : List ℕ) : Type 0 where
  pub links : Linked (forward_at m.nodes) (height_at m.nodes) (head ∷ ps)
  pub head_height : height_at m.nodes head ≡ m.max_height
  pub heights : All (λ p. (0 < height_at m.nodes p) × (height_at m.nodes p ≤ m.current_height)) ps
  pub current : (0 < m.current_height) × (m.current_height ≤ m.max_height)
  pub inside : All (λ p. p < length m.nodes) (head ∷ ps)
  pub distinct : Distinct (head ∷ ps)
  pub size : length ps < length m.nodes
  pub sorted : IsMerged (entries_of m.nodes ps)

-- The nodes in front of a place, and those from it on.
unfoldable pub front : List Node → Bytes → ℕ → List ℕ → List ℕ
front nodes key seq [] = []
front nodes key seq (p ∷ ps) =
    let rest = front nodes key seq ps in
    if key_less (entry_at nodes p) key seq then p ∷ rest else []

unfoldable pub back : List Node → Bytes → ℕ → List ℕ → List ℕ
back nodes key seq [] = []
back nodes key seq (p ∷ ps) =
    let rest = back nodes key seq ps in if key_less (entry_at nodes p) key seq then rest else p ∷ ps

module _ (nodes : List Node) (key : Bytes) (seq : ℕ) where
  pub front-back : (ps : List ℕ) → front nodes key seq ps ++ back nodes key seq ps ≡ ps
  unfolding front back
  front-back [] = refl
  front-back (p ∷ ps) = elim (Bool-cases (key_less (entry_at nodes p) key seq)) [
    | inl t ↦ rw (t, front-back ps) refl
    | inr t ↦ rw t refl
  ]

  pub front-Less : (ps : List ℕ) → All (Less nodes key seq) (front nodes key seq ps)
  unfolding front
  front-Less [] = tt
  front-Less (p ∷ ps) = elim (Bool-cases (key_less (entry_at nodes p) key seq)) [
    | inl t ↦ rw t (t, front-Less ps)
    | inr t ↦ rw t tt
  ]

  not_less_all :
      (x : Entry) (ps : List ℕ)
      → key_less x key seq ≡ false
      → All (IsAfter x) (entries_of nodes ps)
      → All (NotLess nodes key seq) ps
  not_less_all x [] h a = tt
  not_less_all x (p ∷ ps) h (a, as') =
      (not_less_after key seq x (entry_at nodes p) h a, not_less_all x ps h as')

  pub back-NotLess :
      (ps : List ℕ)
      → IsMerged (entries_of nodes ps)
      → All (NotLess nodes key seq) (back nodes key seq ps)
  unfolding back IsMerged
  back-NotLess [] m = tt
  back-NotLess (p ∷ ps) (after, m) = elim (Bool-cases (key_less (entry_at nodes p) key seq)) [
    | inl t ↦ rw t (back-NotLess ps m)
    | inr t ↦ rw t (t, not_less_all (entry_at nodes p) ps t after)
  ]

pub entries_of-append :
    (nodes : List Node) (ps qs : List ℕ)
    → entries_of nodes (ps ++ qs) ≡ entries_of nodes ps ++ entries_of nodes qs
entries_of-append nodes [] qs = refl
entries_of-append nodes (p ∷ ps) qs = ap (◌∷◌ (entry_at nodes p)) (entries_of-append nodes ps qs)

pub entries_of_congr :
    (nodes nodes' : List Node) (ps : List ℕ)
    → All (λ p. entry_at nodes' p ≡ entry_at nodes p) ps
    → entries_of nodes' ps ≡ entries_of nodes ps
entries_of_congr nodes nodes' [] h = refl
entries_of_congr nodes nodes' (p ∷ ps) (hp, hs) = rw (hp, entries_of_congr nodes nodes' ps hs) refl

-- Inserting puts a version between the nodes in front of its place and the others.
pub insert_entry-entries_of :
    (nodes : List Node) (e : Entry) (ps : List ℕ)
    → insert_entry e (entries_of nodes ps)
      ≡ entries_of nodes (front nodes e.key e.seq ps)
        ++ (e ∷ entries_of nodes (back nodes e.key e.seq ps))
unfolding insert_entry front back
insert_entry-entries_of nodes e [] = refl
insert_entry-entries_of nodes e (p ∷ ps) =
    elim (Bool-cases (key_less (entry_at nodes p) e.key e.seq)) [
      | inl t ↦ rw (t, insert_entry-entries_of nodes e ps) refl
      | inr t ↦ rw t refl
    ]
