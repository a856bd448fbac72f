-- ===== src/Memtable/Tests.antt =====
-- Runs of the memtable, and its theorems at concrete inputs.
use keystone_db.Prelude.{ℕ, ◌-◌, ◌^◌, ◌<◌, ◌≤◌, ◌≡◌, refl, List, [], ◌∷◌, arith, Bool, true, false}
use keystone_db.Prelude.Keys.{compare_keys}
use keystone_db.Sstable.{Entry, LookupStatus}
use keystone_db.Db.Retain.{newest, IsMerged}
use keystone_db.Memtable.{
  new_memtable, random_level_loop, random_level, set_forward, key_less, walk, descend, link,
  insert_node, put, del, seek, answer_at, lookup, raw_from, raw_entries, raw_lower_bound, skip_key,
  entries_from, entries, lower_bound,
}
use keystone_db.Memtable.Abstract.{entries_from_place}
use keystone_db.Memtable.Reads.{latest}
use keystone_db.Memtable.Run.{
  Write, apply_write, apply_writes, insert_all, random_level-bounds, apply_writes-refines,
  apply_writes-lower_bound,
}

abbrev write : ℕ → ℕ → ℕ → Bool → List Bool → Write
write key value seq tombstone coins = record {
  entry = record { key = key ∷ []; value = value ∷ []; tombstone = tombstone; seq = seq };
  coins = coins;
}

abbrev writes : List Write
writes =
    write 98 1 1 false (true ∷ true ∷ [])
    ∷ write 97 2 2 false []
    ∷ write 98 3 3 false (false ∷ [])
    ∷ write 99 0 4 true (true ∷ true ∷ true ∷ [])
    ∷ write 97 5 5 true (true ∷ [])
    ∷ []

program : Unit {0}
unfolding compare_keys new_memtable random_level_loop random_level set_forward key_less walk descend
    link insert_node put del seek answer_at lookup raw_from raw_entries raw_lower_bound skip_key
    entries_from entries lower_bound apply_write apply_writes
program = tt

abbrev entry : ℕ → List ℕ → ℕ → Bool → Entry
entry key value seq tombstone = record {
  key = key ∷ [];
  value = value;
  tombstone = tombstone;
  seq = seq;
}

raw_run :
    raw_entries (apply_writes writes (new_memtable 4))
    ≡ entry 97 [] 5 true
      ∷ entry 97 (2 ∷ []) 2 false
      ∷ entry 98 (3 ∷ []) 3 false
      ∷ entry 98 (1 ∷ []) 1 false
      ∷ entry 99 [] 4 true
      ∷ []
unfolding program
raw_run = refl

entries_run :
    entries (apply_writes writes (new_memtable 4))
    ≡ entry 97 [] 5 true ∷ entry 98 (3 ∷ []) 3 false ∷ entry 99 [] 4 true ∷ []
unfolding program
entries_run = refl

lower_bound_run :
    lower_bound (apply_writes writes (new_memtable 4)) (98 ∷ [])
    ≡ entry 98 (3 ∷ []) 3 false ∷ entry 99 [] 4 true ∷ []
unfolding program
lower_bound_run = refl

lookup_run :
    lookup (apply_writes writes (new_memtable 4)) (98 ∷ []) 2
    ≡ record { status = LookupStatus.found; value = 1 ∷ [] }
unfolding program
lookup_run = refl

apply_writes-refines_example :
    (raw_entries (apply_writes writes (new_memtable 4)) ≡ insert_all writes [])
    × IsMerged (insert_all writes [])
    × (entries (apply_writes writes (new_memtable 4)) ≡ latest (insert_all writes []))
    × (lookup (apply_writes writes (new_memtable 4)) (97 ∷ []) 3
        ≡ newest (97 ∷ []) 3 (insert_all writes []))
apply_writes-refines_example = apply_writes-refines 4 writes (97 ∷ []) 3 (omega arith)

random_level-bounds_example :
    (0 < random_level 12 (true ∷ false ∷ [])) × (random_level 12 (true ∷ false ∷ []) ≤ 12)
random_level-bounds_example = random_level-bounds 12 (true ∷ false ∷ []) (omega arith)

apply_writes-lower_bound_example :
    (raw_lower_bound (apply_writes writes (new_memtable 4)) (98 ∷ [])
      ≡ entries_from_place (98 ∷ []) (2 ^ 64 - 1) (insert_all writes []))
    × (lower_bound (apply_writes writes (new_memtable 4)) (98 ∷ [])
        ≡ latest (entries_from_place (98 ∷ []) (2 ^ 64 - 1) (insert_all writes [])))
apply_writes-lower_bound_example = apply_writes-lower_bound 4 writes (98 ∷ []) (omega arith)
