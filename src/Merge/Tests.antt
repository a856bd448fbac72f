-- ===== src/Merge/Tests.antt =====
-- Runs of the merge iterator, and its theorems at concrete inputs.
use keystone_db.Prelude.{ℕ, ◌≡◌, refl, List, [], ◌∷◌, arith, true, false}
use keystone_db.Prelude.Keys.{compare_keys}
use keystone_db.Sstable.{Entry}
use keystone_db.Db.Retain.{larger, older, IsMerged}
use keystone_db.Merge.{comes_after, push, start, top, advance_all, merge_all, heap_size, merge}
use keystone_db.Merge.Order.{count, count_all, merge-IsMerged, merge-count}
use keystone_db.Merge.Visible.{take_key, advance_visible, visible_all, merge_visible}

abbrev put_a : ℕ → Entry
put_a n = record { key = 97 ∷ []; value = n ∷ []; tombstone = false; seq = n }

abbrev del_b : Entry
del_b = record { key = 98 ∷ []; value = []; tombstone = true; seq = 6 }

abbrev put_b : Entry
put_b = record { key = 98 ∷ []; value = 9 ∷ []; tombstone = false; seq = 3 }

abbrev sources : List (List Entry)
sources = (put_a 2 ∷ del_b ∷ []) ∷ (put_a 5 ∷ put_a 1 ∷ put_b ∷ []) ∷ [] ∷ []

merging : Unit {0}
unfolding start push top comes_after compare_keys advance_all heap_size merge_all merge
merging = tt

merge_run : merge sources ≡ put_a 5 ∷ put_a 2 ∷ put_a 1 ∷ del_b ∷ put_b ∷ []
unfolding merging
merge_run = refl

-- The newest snapshot does not see the deleted key; the snapshot 4 sees both keys as they were.
visible_run : merge_visible false 9 sources ≡ put_a 5 ∷ []
unfolding merging take_key advance_visible visible_all merge_visible
visible_run = refl

visible_old_run : merge_visible false 4 sources ≡ put_a 2 ∷ put_b ∷ []
unfolding merging take_key advance_visible visible_all merge_visible
visible_old_run = refl

merge-IsMerged_example : IsMerged (merge sources)
unfolding IsMerged compare_keys
merge-IsMerged_example = merge-IsMerged sources (
  ((larger refl, tt), (tt, tt)),
  (((older refl (omega arith), (larger refl, tt)), ((larger refl, tt), (tt, tt))), (tt, tt)),
)

merge-count_example :
    count (λ e. e.tombstone) (merge sources) ≡ count_all (λ e. e.tombstone) sources
merge-count_example = merge-count (λ e. e.tombstone) sources
