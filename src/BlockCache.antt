-- ===== src/BlockCache.antt =====
-- src/block_cache.cpp and include/keystone/block_cache.h. A node of the list `lru_` has an
-- address, which is the iterator that `map_` holds; the list of (address, entry) is the list from
-- its front on, and the map is a function. The two critical sections of get_or_load are the
-- functions `find` and `publish`.
pub mod Invariant
pub mod Front
pub mod Evict
pub mod Oldest
pub mod Runs
mod Tests
use keystone_db.Prelude.{
  ℕ, zero, suc, ◌+◌, ◌-◌, List, [], ◌∷◌, Bool, true, false, ◌&&◌, Option, none, some, length, ltb,
  ◌==◌, if◌then◌else◌,
}
use keystone_db.Prelude.Keys.{Bytes}

pub record CacheKey : Type 0 where
  pub file_number : ℕ
  pub block_offset : ℕ

pub record CacheEntry : Type 0 where
  pub key : CacheKey
  pub block : Bytes
  pub size : ℕ

pub record Node : Type 0 where
  pub address : ℕ
  pub entry : CacheEntry

pub record BlockCache : Type 0 where
  pub capacity : ℕ
  pub current_bytes : ℕ
  pub lru : List Node
  pub map : CacheKey → Option ℕ
  pub next_address : ℕ
  pub hits : ℕ
  pub misses : ℕ

unfoldable pub new_cache : ℕ → BlockCache
new_cache capacity = record {
  capacity = capacity;
  current_bytes = 0;
  lru = [];
  map = λ key. none;
  next_address = 0;
  hits = 0;
  misses = 0;
}

abbrev pub same_key : CacheKey → CacheKey → Bool
same_key a b = (a.file_number == b.file_number) && (a.block_offset == b.block_offset)

-- The node at an address, and the list without it.
unfoldable pub node_at : ℕ → List Node → Option CacheEntry
node_at address [] = none
node_at address (node ∷ lru) =
    let rest = node_at address lru in if node.address == address then some node.entry else rest

unfoldable pub without : ℕ → List Node → List Node
without address [] = []
without address (node ∷ lru) =
    let rest = without address lru in if node.address == address then lru else node ∷ rest

-- `lru_.splice(lru_.begin(), lru_, it)`, and the block of the node; `none` is an iterator that
-- leads to no node.
unfoldable pub splice_front : ℕ → BlockCache → Option (Bytes × BlockCache)
unfolding node_at without
splice_front address c = elim (node_at address c.lru) [
  | none ↦ none
  | some e ↦
      some (
        e.block,
        record c { lru = record { address = address; entry = e } ∷ without address c.lru },
      )
]

-- What a critical section does: nothing was found, a block is returned, or the iterator dangles.
pub data Found : Type 0 where
  absent : Found
  present : Bytes → BlockCache → Found
  dangling : Found

abbrev pub to_found : Option (Bytes × BlockCache) → Found
to_found none = dangling
to_found (some (block, c)) = present block c

-- The first critical section.
unfoldable pub find : CacheKey → BlockCache → Found
unfolding splice_front
find key c = elim (c.map key) [
  | none ↦ absent
  | some address ↦ elim (splice_front address c) [
    | none ↦ dangling
    | some (block, c₁) ↦ present block (record c₁ { hits = c₁.hits + 1 })
  ]
]

abbrev pub set_map : CacheKey → Option ℕ → (CacheKey → Option ℕ) → CacheKey → Option ℕ
set_map key v map key' = if same_key key key' then v else map key'

-- The list's last node, and the list without it.
unfoldable pub last_node : Node → List Node → Node
last_node node [] = node
last_node node (next ∷ lru) = last_node next lru

unfoldable pub pop_back : List Node → List Node
pop_back [] = []
pop_back (node ∷ []) = []
pop_back (node ∷ next ∷ lru) = node ∷ pop_back (next ∷ lru)

-- The loop that evicts; each round takes a node off the list, whose length is fuel enough.
unfoldable pub evict : ℕ → BlockCache → BlockCache
unfolding last_node pop_back
evict zero c = c
evict (suc fuel) c = elim c.lru [
  | [] ↦ c
  | node ∷ lru ↦
      let last = (last_node node lru).entry in
      let rest = evict fuel (record c {
        current_bytes = c.current_bytes - last.size;
        map = set_map last.key none c.map;
        lru = pop_back (node ∷ lru);
      }) in
      if ltb c.capacity c.current_bytes then rest else c
]

-- The second critical section, for the block that was loaded.
unfoldable pub publish : CacheKey → Bytes → BlockCache → Found
unfolding splice_front evict
publish key block c = elim (c.map key) [
  | some address ↦ to_found (splice_front address c)
  | none ↦
      let entry : CacheEntry = record { key = key; block = block; size = length block } in
      present block (
        evict (suc (length c.lru)) (record c {
          lru = record { address = c.next_address; entry = entry } ∷ c.lru;
          map = set_map key (some c.next_address) c.map;
          next_address = c.next_address + 1;
          current_bytes = c.current_bytes + length block;
        }))
]

-- `misses_` is counted between the two sections.
unfoldable pub count_miss : BlockCache → BlockCache
count_miss c = record c { misses = c.misses + 1 }

-- get_or_load where no other thread comes between the sections.
unfoldable pub get_or_load : CacheKey → Bytes → BlockCache → Found
unfolding find publish count_miss
get_or_load key loaded c = elim (find key c) [
  | absent ↦ publish key loaded (count_miss c)
  | present block c₁ ↦ present block c₁
  | dangling ↦ dangling
]
