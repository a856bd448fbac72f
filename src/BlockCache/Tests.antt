-- ===== src/BlockCache/Tests.antt =====
-- Runs of the block cache.
use keystone_db.Prelude.{ℕ, ◌≡◌, ◌≤◌, refl, List, [], ◌∷◌, Option, none, some, ◌⊎◌, replicate}
use keystone_db.Prelude.Keys.{Bytes}
use keystone_db.BlockCache.{
  CacheKey, Node, BlockCache, new_cache, find, publish, count_miss, absent, present, get_or_load,
}
use keystone_db.BlockCache.Invariant.{total, IsCache}
use keystone_db.BlockCache.Runs.{Event, look, miss, store, run, pushed, Gives, run-IsCache}
use keystone_db.BlockCache.Oldest.{Dropped, publish-Dropped}

abbrev at_offset : ℕ → CacheKey
at_offset n = record { file_number = 1; block_offset = n }

-- A block of as many bytes as its offset says.
abbrev bytes_at : CacheKey → Bytes
bytes_at key = replicate key.block_offset 7

-- Blocks of 3, 4 and 5 bytes in a cache of 9: the third one drops the first.
abbrev three_stores : List Event
three_stores =
    look (at_offset 3)
    ∷ miss
    ∷ store (at_offset 3)
    ∷ store (at_offset 4)
    ∷ look (at_offset 3)
    ∷ store (at_offset 5)
    ∷ []

abbrev offsets : List Node → List ℕ
offsets [] = []
offsets (node ∷ lru) = node.entry.key.block_offset ∷ offsets lru

abbrev summary : Option BlockCache → Option (List ℕ × ℕ × ℕ × ℕ)
summary none = none
summary (some c) = some (offsets c.lru, c.current_bytes, c.hits, c.misses)

run-three_stores : summary (run bytes_at three_stores (new_cache 9)) ≡ some (5 ∷ 3 ∷ [], 8, 1, 1)
unfolding run new_cache find publish count_miss
run-three_stores = refl

-- A block that is larger than the cache is returned and not kept.
large_store :
    summary (run bytes_at (store (at_offset 4) ∷ store (at_offset 12) ∷ []) (new_cache 9))
    ≡ some ([], 0, 0, 0)
unfolding run new_cache find publish count_miss
large_store = refl

-- Two threads that load one block at a time cache it once.
same_store :
    summary (
      run bytes_at
        (look (at_offset 4)
          ∷ look (at_offset 4)
          ∷ miss
          ∷ miss
          ∷ store (at_offset 4)
          ∷ store (at_offset 4)
          ∷ [])
        (new_cache 9))
    ≡ some (4 ∷ [], 4, 0, 2)
unfolding run new_cache find publish count_miss
same_store = refl

run-IsCache_example :
    (c : BlockCache) × (run bytes_at three_stores (new_cache 9) ≡ some c)
    × IsCache c
    × (c.capacity ≡ 9)
    × ((find (at_offset 4) c ≡ absent) ⊎ Gives bytes_at 9 (at_offset 4) (find (at_offset 4) c))
    × Gives bytes_at 9 (at_offset 4) (publish (at_offset 4) (bytes_at (at_offset 4)) c)
    × Gives bytes_at 9 (at_offset 4) (get_or_load (at_offset 4) (bytes_at (at_offset 4)) c)
run-IsCache_example = run-IsCache bytes_at 9 three_stores (at_offset 4)

-- The state of the cache of 9 after two stores.
abbrev state_after : List Event → BlockCache
state_after events = elim (run bytes_at events (new_cache 9)) [ none ↦ new_cache 0 | some c ↦ c ]

abbrev two_stores : List Event
two_stores = store (at_offset 3) ∷ store (at_offset 4) ∷ []

run-two_stores : run bytes_at two_stores (new_cache 9) ≡ some (state_after two_stores)
unfolding run new_cache find publish count_miss
run-two_stores = refl

offset_5_free : (state_after two_stores).map (at_offset 5) ≡ none
unfolding run new_cache find publish count_miss
offset_5_free = refl

publish-Dropped_example :
    (c' : BlockCache) × (publish (at_offset 5) (bytes_at (at_offset 5)) (state_after two_stores)
      ≡ present (bytes_at (at_offset 5)) c')
    × (total c'.lru ≤ 9)
    × Dropped 9 (pushed bytes_at 9 (at_offset 5) (state_after two_stores)).lru c'.lru
publish-Dropped_example =
    publish-Dropped bytes_at 9 two_stores (at_offset 5) (state_after two_stores) run-two_stores
      offset_5_free
