-- ===== src/Merge/Order.antt =====
-- Merging sorted sources gives all their entries in order.
use Prim.Native.Nat.{Ordering}
use keystone_db.Prelude.{
  ℕ, zero, suc, ◌+◌, ◌≤◌, ◌≡◌, refl, sym, ◌∙◌, List, [], ◌∷◌, arith, Bool, true, false, Bool-cases,
  inl, inr, All, All-map, length, if◌then◌else◌,
}
use keystone_db.Prelude.Keys.{key_lt, compare_keys, compare_keys-eq, compare_keys-swap_gt}
use keystone_db.Sstable.{Entry}
use keystone_db.Db.Retain.{IsAfter-trans, IsAfter, larger, older, IsMerged}
use keystone_db.Merge.{
  Source, comes_after, push, start, top, advance_all, merge_all, heap_size, merge,
}

comes_after-IsAfter : (a b : Entry) → comes_after a b ≡ true → IsAfter b a
unfolding comes_after
comes_after-IsAfter a b h = elim (Bool-cases (key_lt b.key a.key)) [
  | inl l ↦ larger l
  | inr n ↦
      let same : compare_keys a.key b.key ≡ Ordering.eq =
        ground (arith, compare_keys-swap_gt a.key b.key) in
      older (sym (compare_keys-eq a.key b.key same)) (ground (arith, same))
]

not_comes_after-IsAfter : (a b : Entry) → comes_after a b ≡ false → IsAfter a b
unfolding comes_after
not_comes_after-IsAfter a b h = elim (Bool-cases (key_lt a.key b.key)) [
  | inl l ↦ larger l
  | inr n ↦
      let same : compare_keys a.key b.key ≡ Ordering.eq = ground arith in
      older (compare_keys-eq a.key b.key same) (ground (arith, same))
]

-- The top and the other sources are those of the heap.
module _ {κ} (P : Source → Type κ) where
  top-All :
      (src : Source) (heap : List Source)
      → P src
      → All P heap
      → P (top src heap).0 × All P (top src heap).1
  unfolding top
  top-All src [] h hs = (h, tt)
  top-All src (other ∷ heap) h (ho, hs) =
      let (best, rest) = top-All other heap ho hs in
      elim (Bool-cases (comes_after src.entry ((top other heap).0).entry)) [
        | inl t ↦ rw t (best, (h, rest))
        | inr t ↦ rw t (h, (best, rest))
      ]

-- The top comes before the entries of the other sources.
top-IsAfter :
    (src : Source) (heap : List Source)
    → All (λ s. IsAfter ((top src heap).0).entry s.entry) (top src heap).1
unfolding top
top-IsAfter src [] = tt
top-IsAfter src (other ∷ heap) =
    let t = (top other heap).0 in
    let ih = top-IsAfter other heap in
    elim (Bool-cases (comes_after src.entry t.entry)) [
      | inl later ↦ rw later (comes_after-IsAfter src.entry t.entry later, ih)
      | inr first ↦
          let f = not_comes_after-IsAfter src.entry t.entry first in
          rw first (
            f,
            All-map (λ (s : Source). IsAfter t.entry s.entry) (λ s. IsAfter src.entry s.entry)
                (λ s a. IsAfter-trans src.entry t.entry s.entry f a) (top other heap).1 ih,
          )
    ]

-- What holds of the entries of the sources holds of the merged ones.
module _ (P : Entry → Type 0) where
  SourceAll : Source → Type 0
  SourceAll src = P src.entry × All P src.rest

  push-All :
      (entries : List Entry) (heap : List Source)
      → All P entries
      → All SourceAll heap
      → All SourceAll (push entries heap)
  unfolding push SourceAll
  push-All [] heap h hs = hs
  push-All (e ∷ entries) heap h hs = (h, hs)

  merge_all-All : (fuel : ℕ) (heap : List Source) → All SourceAll heap → All P (merge_all fuel heap)
  unfolding merge_all advance_all SourceAll
  merge_all-All zero heap h = tt
  merge_all-All (suc fuel) [] h = tt
  merge_all-All (suc fuel) (src ∷ heap) (h, hs) =
      let ((first, rest), others) = top-All SourceAll src heap h hs in
      (first, merge_all-All fuel _ (push-All ((top src heap).0).rest (top src heap).1 rest others))

-- A sorted source.
IsSource : Source → Type 0
IsSource src = All (IsAfter src.entry) src.rest × IsMerged src.rest

push-IsSource :
    (entries : List Entry) (heap : List Source)
    → IsMerged entries
    → All IsSource heap
    → All IsSource (push entries heap)
unfolding push IsSource IsMerged
push-IsSource [] heap h hs = hs
push-IsSource (e ∷ entries) heap h hs = (h, hs)

ahead_of_all :
    (e : Entry) (heap : List Source)
    → All (λ s. IsAfter e s.entry) heap
    → All IsSource heap
    → All (SourceAll (IsAfter e)) heap
unfolding IsSource SourceAll
ahead_of_all e [] a h = tt
ahead_of_all e (src ∷ heap) (a, as') ((after, m), hs) = (
  (
    a,
    All-map (IsAfter src.entry) (IsAfter e) (λ x b. IsAfter-trans e src.entry x a b) src.rest after,
  ),
  ahead_of_all e heap as' hs,
)

merge_all-IsMerged :
    (fuel : ℕ) (heap : List Source) → All IsSource heap → IsMerged (merge_all fuel heap)
unfolding merge_all advance_all IsMerged IsSource
merge_all-IsMerged zero heap h = tt
merge_all-IsMerged (suc fuel) [] h = tt
merge_all-IsMerged (suc fuel) (src ∷ heap) (h, hs) =
    let ((after, sorted), others) = top-All IsSource src heap h hs in
    let ahead = top-IsAfter src heap in
    let e = ((top src heap).0).entry in
    (
      merge_all-All (IsAfter e) fuel _ (
          push-All (IsAfter e) ((top src heap).0).rest (top src heap).1 after
            (ahead_of_all e (top src heap).1 ahead others)),
      merge_all-IsMerged fuel _
          (push-IsSource ((top src heap).0).rest (top src heap).1 sorted others),
    )

-- The entries that pass a test.
unfoldable pub count : (Entry → Bool) → List Entry → ℕ
count p [] = 0
count p (e ∷ entries) = (if p e then 1 else 0) + count p entries

unfoldable pub count_heap : (Entry → Bool) → List Source → ℕ
unfolding count
count_heap p [] = 0
count_heap p (src ∷ heap) = count p (src.entry ∷ src.rest) + count_heap p heap

module _ (p : Entry → Bool) where
  count_heap-top :
      (src : Source) (heap : List Source)
      → count p ((top src heap).0.entry ∷ (top src heap).0.rest) + count_heap p (top src heap).1
        ≡ count_heap p (src ∷ heap)
  unfolding top count_heap
  count_heap-top src [] = refl
  count_heap-top src (other ∷ heap) =
      let ih = count_heap-top other heap in
      elim (Bool-cases (comes_after src.entry ((top other heap).0).entry)) [
        | inl t ↦ rw t (omega (arith, ih))
        | inr t ↦ rw t (omega (arith, ih))
      ]

  count_heap-push :
      (entries : List Entry) (heap : List Source)
      → count_heap p (push entries heap) ≡ count p entries + count_heap p heap
  unfolding push count_heap
  count_heap-push [] heap = unfold count in omega arith
  count_heap-push (e ∷ entries) heap = refl

heap_size-count : (heap : List Source) → heap_size heap ≡ count_heap (λ e. true) heap
unfolding heap_size count_heap count
heap_size-count [] = refl
heap_size-count (src ∷ heap) = omega (arith, heap_size-count heap, length-count src.rest)
  where
    length-count : (entries : List Entry) → length entries ≡ count (λ e. true) entries
    length-count [] = refl
    length-count (e ∷ entries) = omega (arith, length-count entries)

-- The heap without its top entry is smaller by one.
heap_size-advance :
    (src : Source) (heap : List Source)
    → suc (heap_size (push (top src heap).0.rest (top src heap).1)) ≡ heap_size (src ∷ heap)
heap_size-advance src heap =
    let rest = (top src heap).0.rest in
    let others = (top src heap).1 in
    let one : count (λ e. true) ((top src heap).0.entry ∷ rest) ≡ 1 + count (λ e. true) rest =
      unfold count in refl in
    omega (
      arith,
      heap_size-count (push rest others),
      heap_size-count (src ∷ heap),
      count_heap-push (λ e. true) rest others,
      count_heap-top (λ e. true) src heap,
      one,
    )

merge_all-count :
    (p : Entry → Bool) (fuel : ℕ) (heap : List Source)
    → heap_size heap ≤ fuel
    → count p (merge_all fuel heap) ≡ count_heap p heap
unfolding merge_all advance_all count
merge_all-count p zero [] h = unfold count_heap in refl
merge_all-count p (suc fuel) [] h = unfold count_heap in refl
merge_all-count p zero (src ∷ heap) h = absurd (omega (arith, h, heap_size-advance src heap))
merge_all-count p (suc fuel) (src ∷ heap) h =
    let rest = (top src heap).0.rest in
    let others = (top src heap).1 in
    let ih =
      merge_all-count p fuel (push rest others) (omega (arith, h, heap_size-advance src heap)) in
    omega (arith, ih, count_heap-push p rest others, count_heap-top p src heap)

start-IsSource : (sources : List (List Entry)) → All IsMerged sources → All IsSource (start sources)
unfolding start
start-IsSource [] h = tt
start-IsSource (entries ∷ sources) (h, hs) =
    push-IsSource entries (start sources) h (start-IsSource sources hs)

-- If every source is in order, by key and the newest version of a key first, so are the merged
-- entries.
pub merge-IsMerged : (sources : List (List Entry)) → All IsMerged sources → IsMerged (merge sources)
unfolding merge
merge-IsMerged sources h =
    merge_all-IsMerged (heap_size (start sources)) (start sources) (start-IsSource sources h)

-- The entries of all sources that pass a test.
unfoldable pub count_all : (Entry → Bool) → List (List Entry) → ℕ
unfolding count
count_all p [] = 0
count_all p (entries ∷ sources) = count p entries + count_all p sources

count_heap-start :
    (p : Entry → Bool) (sources : List (List Entry))
    → count_heap p (start sources) ≡ count_all p sources
unfolding start count_all
count_heap-start p [] = unfold count_heap in refl
count_heap-start p (entries ∷ sources) =
    omega (arith, count_heap-push p entries (start sources), count_heap-start p sources)

-- The merged entries are the entries of the sources, each as often: as many of them pass any test.
pub merge-count :
    (p : Entry → Bool) (sources : List (List Entry)) → count p (merge sources) ≡ count_all p sources
unfolding merge
merge-count p sources =
    merge_all-count p (heap_size (start sources)) (start sources) (omega arith)
    ∙ count_heap-start p sources
