-- ===== src/Merge.antt =====
-- src/merge_iterator.cpp and include/keystone/merge_iterator.h. A source that has an entry is the
-- entry and the ones that follow it; the heap is the list of these sources, and its top a source
-- that the comparison puts behind none of the others. (A std::priority_queue leaves the choice
-- between equal sources open.)
pub mod Order
pub mod Visible
mod Tests
use Prim.Native.Nat.{Ordering}
use keystone_db.Prelude.{
  ℕ, zero, suc, ◌+◌, List, [], ◌∷◌, Bool, true, false, not, Option, none, some, length, ltb, leb,
  if◌then◌else◌,
}
use keystone_db.Prelude.Keys.{Bytes, compare_keys, key_eq}
use keystone_db.Sstable.{Entry}

pub record Source : Type 0 where
  pub entry : Entry
  pub rest : List Entry

-- `Cmp`: the first source comes out of the heap after the second one.
unfoldable pub comes_after : Entry → Entry → Bool
comes_after a b = elim (compare_keys a.key b.key) [
  | Ordering.lt ↦ false
  | Ordering.gt ↦ true
  | Ordering.eq ↦ ltb a.seq b.seq
]

-- A source is pushed while it is valid.
unfoldable pub push : List Entry → List Source → List Source
push [] heap = heap
push (e ∷ entries) heap = record { entry = e; rest = entries } ∷ heap

-- The heap of the constructor.
unfoldable pub start : List (List Entry) → List Source
unfolding push
start [] = []
start (entries ∷ sources) = push entries (start sources)

-- The top of a heap and the other sources.
unfoldable pub top : Source → List Source → Source × List Source
top src [] = (src, [])
top src (other ∷ heap) =
    let best = top other heap in
    if comes_after src.entry (best.0).entry then (best.0, src ∷ best.1) else (src, best.0 ∷ best.1)

-- `advance` with `yield_all_versions_`: the entry that becomes the current one, and the heap.
unfoldable pub advance_all : List Source → Option (Entry × List Source)
unfolding push
advance_all [] = none
advance_all (src ∷ heap) =
    let best = top src heap in some ((best.0).entry, push (best.0).rest (best.1))

-- The entries that `next` goes through.
unfoldable pub merge_all : ℕ → List Source → List Entry
merge_all zero heap = []
merge_all (suc fuel) heap = elim (advance_all heap) [
  | none ↦ []
  | some (e, heap₁) ↦ e ∷ merge_all fuel heap₁
]

-- The number of entries, which is fuel enough.
unfoldable pub heap_size : List Source → ℕ
heap_size [] = 0
heap_size (src ∷ heap) = suc (length src.rest) + heap_size heap

-- What a merge iterator over these sources yields with `yield_all_versions_`.
unfoldable pub merge : List (List Entry) → List Entry
merge sources = merge_all (heap_size (start sources)) (start sources)
