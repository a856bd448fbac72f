-- ===== src/BlockCache/Oldest.antt =====
-- What the eviction loop drops: the least recently used nodes, and no more than it must.
use keystone_db.Prelude.{
  ℕ, zero, suc, ◌+◌, ◌≤◌, ◌<◌, ◌≡◌, refl, sym, ap, ◌∙◌, List, [], ◌∷◌, ◌++◌, arith, none, some,
  Bool-cases, inl, inr, length, ltb, append_assoc, append-nil,
}
use keystone_db.Prelude.Keys.{Bytes}
use keystone_db.BlockCache.{
  new_cache, CacheKey, Node, BlockCache, last_node, pop_back, evict, publish, present,
}
use keystone_db.BlockCache.Invariant.{total, IsStored}
use keystone_db.BlockCache.Front.{Faithful}
use keystone_db.BlockCache.Evict.{evict-IsCache, evicted, evicted-IsStored, total-pop_back}
use keystone_db.BlockCache.Runs.{Event, run, run-Good_after, pushed, pushed-IsStored}

-- The list is what is left and what was dropped, and what is left would not fit with the first
-- node that was dropped.
abbrev pub Overfull : ℕ → ℕ → List Node → Type 0
Overfull capacity bytes [] = Unit {0}
Overfull capacity bytes (node ∷ rest) = capacity < bytes + node.entry.size

abbrev pub Dropped : ℕ → List Node → List Node → Type 0
Dropped capacity before left =
    (dropped : List Node) × (before ≡ left ++ dropped) × Overfull capacity (total left) dropped

pop_back-last_node :
    (node : Node) (lru : List Node)
    → node ∷ lru ≡ pop_back (node ∷ lru) ++ (last_node node lru ∷ [])
unfolding pop_back last_node
pop_back-last_node node [] = refl
pop_back-last_node node (next ∷ lru) = ap (λ t. node ∷ t) (pop_back-last_node next lru)

-- One more node behind those that were dropped.
one_more :
    (capacity : ℕ) (before left : List Node) (last : Node) (dropped : List Node)
    → capacity < total before + last.entry.size
    → before ≡ left ++ dropped
    → Overfull capacity (total left) dropped
    → Dropped capacity (before ++ (last ∷ [])) left
one_more capacity before left last [] over parts full =
    let same : before ≡ left = parts ∙ append-nil left in
    (last ∷ [], ap (λ t. t ++ (last ∷ [])) same, rw (← same) over)
one_more capacity before left last (node ∷ rest) over parts full = (
  node ∷ rest ++ (last ∷ []),
  ap (λ t. t ++ (last ∷ [])) parts ∙ append_assoc left (node ∷ rest) (last ∷ []),
  full,
)

module _ (load : CacheKey → Bytes) where
  Dropped-round :
      (fuel : ℕ) (c : BlockCache) (lru : List Node)
      → c.lru ≡ lru
      → IsStored c
      → Faithful load c
      → ((c' : BlockCache)
          → IsStored c'
          → Faithful load c'
          → Dropped c'.capacity c'.lru (evict fuel c').lru)
      → Dropped c.capacity lru (evict (suc fuel) c).lru
  unfolding evict evicted
  Dropped-round fuel c [] e h f again = rw (evict, e) ([], sym e ∙ sym (append-nil c.lru), tt)
  Dropped-round fuel c (node ∷ lru) e h f again =
      elim (Bool-cases (ltb c.capacity c.current_bytes)) [
        | inl over ↦
            let (stored, faithful) = evicted-IsStored load c node lru e h f in
            let (dropped, parts, full) = again (evicted load c node lru) stored faithful in
            let bytes : c.current_bytes ≡ total (node ∷ lru) = h.bytes ∙ ap total e in
            let more : c.capacity
                < total (pop_back (node ∷ lru)) + (last_node node lru).entry.size =
              ground (arith, bytes, total-pop_back node lru) in
            let (dropped', parts', full') =
              one_more c.capacity (pop_back (node ∷ lru)) (evict fuel (evicted load c node lru)).lru
                (last_node node lru) dropped more parts full in
            rw (evict, e, over) (dropped', pop_back-last_node node lru ∙ parts', full')
        | inr fits ↦ rw (evict, e, fits) ([], sym e ∙ sym (append-nil c.lru), tt)
      ]

  pub evict-Dropped :
      (fuel : ℕ) (c : BlockCache)
      → IsStored c
      → Faithful load c
      → Dropped c.capacity c.lru (evict fuel c).lru
  unfolding evict
  evict-Dropped zero c h f = ([], sym (append-nil c.lru), tt)
  evict-Dropped (suc fuel) c h f = Dropped-round fuel c c.lru refl h f (evict-Dropped fuel)

-- After any sections of any threads, publishing a block whose key is not cached puts it at the
-- front of the list and then drops nodes from the back alone, the least recently used ones, and no
-- more than it must: with the first one dropped the list would not fit the capacity.
pub publish-Dropped :
    (load : CacheKey → Bytes) (capacity : ℕ) (events : List Event) (key : CacheKey) (c : BlockCache)
    → run load events (new_cache capacity) ≡ some c
    → c.map key ≡ none
    → (c' : BlockCache) × (publish key (load key) c ≡ present (load key) c')
      × (total c'.lru ≤ capacity)
      × Dropped capacity (pushed load capacity key c).lru c'.lru
unfolding publish pushed
publish-Dropped load capacity events key c e free =
    let good = run-Good_after load capacity events c e in
    let stored = pushed-IsStored load capacity key c free good.0.stored in
    let evicted =
      evict-IsCache load (suc (length c.lru)) (pushed load capacity key c) (omega arith) stored
        (refl, good.1) in
    let drop =
      evict-Dropped load (suc (length c.lru)) (pushed load capacity key c) stored (refl, good.1) in
    let c' = evict (suc (length c.lru)) (pushed load capacity key c) in
    (
      c',
      rw (publish, free) refl,
      omega (arith, evicted.0.stored.bytes, evicted.0.bounded, evicted.2, good.2),
      rw (← good.2) drop,
    )
