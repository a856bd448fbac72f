-- ===== src/Merge/Visible.antt =====
-- MergeIterator::advance for one version of a key: what a scan goes through.
use keystone_db.Prelude.{
  ℕ, zero, suc, List, [], ◌∷◌, Bool, not, ◌&&◌, Option, none, some, leb, if◌then◌else◌,
}
use keystone_db.Prelude.Keys.{Bytes, key_eq}
use keystone_db.Sstable.{Entry}
use keystone_db.Merge.{Source, push, start, top, heap_size}

-- The first version that the snapshot sees is kept.
abbrev better : ℕ → Option Entry → Entry → Option Entry
better snapshot_seq (some best) e = some best
better snapshot_seq none e = if leb e.seq snapshot_seq then some e else none

-- The inner loop: it takes the versions of the winning key off the heap.
unfoldable pub take_key : ℕ → ℕ → Bytes → Option Entry → List Source → Option Entry × List Source
take_key zero snapshot_seq winner best heap = (best, heap)
take_key (suc fuel) snapshot_seq winner best [] = (best, [])
take_key (suc fuel) snapshot_seq winner best (src ∷ heap) =
    let first = (top src heap).0 in
    let next =
      take_key fuel snapshot_seq winner (better snapshot_seq best first.entry)
        (push first.rest (top src heap).1) in
    if key_eq first.entry.key winner then next else (best, src ∷ heap)

-- The outer loop: it ends with the entry that becomes the current one, and the heap. A round takes
-- an entry off the heap, so the heap's size is fuel enough for both loops.
unfoldable pub advance_visible : ℕ → Bool → ℕ → List Source → Option (Entry × List Source)
unfolding take_key
advance_visible zero keep_tombstones snapshot_seq heap = none
advance_visible (suc fuel) keep_tombstones snapshot_seq [] = none
advance_visible (suc fuel) keep_tombstones snapshot_seq (src ∷ heap) =
    let winner = ((top src heap).0).entry.key in
    let taken = take_key (suc fuel) snapshot_seq winner none (src ∷ heap) in
    let next = advance_visible fuel keep_tombstones snapshot_seq taken.1 in
    elim taken.0 [
      | none ↦ next
      | some best ↦ if not keep_tombstones && best.tombstone then next else some (best, taken.1)
    ]

-- The entries that `next` goes through.
unfoldable pub visible_all : ℕ → Bool → ℕ → List Source → List Entry
visible_all zero keep_tombstones snapshot_seq heap = []
visible_all (suc fuel) keep_tombstones snapshot_seq heap =
    elim (advance_visible (heap_size heap) keep_tombstones snapshot_seq heap) [
      | none ↦ []
      | some (e, heap₁) ↦ e ∷ visible_all fuel keep_tombstones snapshot_seq heap₁
    ]

-- What a merge iterator over these sources yields without `yield_all_versions_`.
unfoldable pub merge_visible : Bool → ℕ → List (List Entry) → List Entry
unfolding visible_all
merge_visible keep_tombstones snapshot_seq sources =
    visible_all (heap_size (start sources)) keep_tombstones snapshot_seq (start sources)
