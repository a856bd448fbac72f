-- ===== src/BlockCache/Evict.antt =====
-- The eviction loop, and the second critical section.
use keystone_db.Prelude.{
  ℕ, zero, suc, ◌+◌, ◌-◌, ◌≤◌, ◌≡◌, refl, sym, ap, ◌∙◌, List, [], ◌∷◌, arith, false, none,
  Bool-cases, inl, inr, All, length, ltb, ◌==◌, if◌then◌else◌,
}
use keystone_db.Prelude.Keys.{Bytes}
use keystone_db.BlockCache.{
  CacheKey, Node, BlockCache, same_key, set_map, last_node, pop_back, evict,
}
use keystone_db.BlockCache.Invariant.{total, address_of, Distinct, IsStored, IsCache, same_key→eq}
use keystone_db.BlockCache.Front.{Faithful}

-- The list without its last node.
pop_back-All :
    (P : Node → Type 0) (node : Node) (lru : List Node)
    → All P (node ∷ lru)
    → P (last_node node lru) × All P (pop_back (node ∷ lru))
unfolding last_node pop_back
pop_back-All P node [] h = (h.0, tt)
pop_back-All P node (next ∷ lru) (hn, hs) =
    let (last, rest) = pop_back-All P next lru hs in (last, (hn, rest))

pub total-pop_back :
    (node : Node) (lru : List Node)
    → total (pop_back (node ∷ lru)) + (last_node node lru).entry.size ≡ total (node ∷ lru)
unfolding last_node pop_back total
total-pop_back node [] = omega arith
total-pop_back node (next ∷ lru) = omega (arith, total-pop_back next lru)

total-nil : total [] ≡ 0
unfolding total
total-nil = refl

pub length-pop_back :
    (node : Node) (lru : List Node) → suc (length (pop_back (node ∷ lru))) ≡ length (node ∷ lru)
unfolding pop_back
length-pop_back node [] = refl
length-pop_back node (next ∷ lru) = ap suc (length-pop_back next lru)

abbrev Other : Node → Node → Type 0
Other node x = (same_key x.entry.key node.entry.key ≡ false) × ((x.address == node.address) ≡ false)

Distinct-pop_back :
    (node : Node) (lru : List Node) → Distinct (node ∷ lru) → Distinct (pop_back (node ∷ lru))
unfolding pop_back Distinct
Distinct-pop_back node [] d = tt
Distinct-pop_back node (next ∷ lru) (others, d) =
    ((pop_back-All (Other node) next lru others).1, Distinct-pop_back next lru d)

address_of-pop_back :
    (key : CacheKey) (node : Node) (lru : List Node)
    → Distinct (node ∷ lru)
    → address_of key (pop_back (node ∷ lru))
      ≡ (if same_key (last_node node lru).entry.key key then none else address_of key (node ∷ lru))
unfolding pop_back last_node Distinct address_of
address_of-pop_back key node [] d = elim (Bool-cases (same_key node.entry.key key)) [
  | inl t ↦ rw t refl
  | inr t ↦ rw t refl
]
address_of-pop_back key node (next ∷ lru) (others, d) =
    let ih = address_of-pop_back key next lru d in
    elim (Bool-cases (same_key node.entry.key key)) [
      | inl t ↦
          let last_other = (pop_back-All (Other node) next lru others).0.0 in
          let n : same_key (last_node next lru).entry.key key ≡ false =
            ap (same_key (last_node next lru).entry.key) (sym (same_key→eq node.entry.key key t))
            ∙ last_other in
          rw (t, n) refl
      | inr t ↦ rw t ih
    ]

-- Evicting keeps the state consistent and ends within the capacity.
module _ (load : CacheKey → Bytes) where
  unfoldable pub evicted : BlockCache → Node → List Node → BlockCache
  evicted c node lru =
      let last = (last_node node lru).entry in
      record c {
        current_bytes = c.current_bytes - last.size;
        map = set_map last.key none c.map;
        lru = pop_back (node ∷ lru);
      }

  pub evicted-IsStored :
      (c : BlockCache) (node : Node) (lru : List Node)
      → c.lru ≡ node ∷ lru
      → IsStored c
      → Faithful load c
      → IsStored (evicted c node lru) × Faithful load (evicted c node lru)
  unfolding evicted
  evicted-IsStored c node lru e h f =
      let bytes : c.current_bytes ≡ total (node ∷ lru) = h.bytes ∙ ap total e in
      let distinct : Distinct (node ∷ lru) = rw e at h.distinct in
      let map : (k : CacheKey) → c.map k ≡ address_of k (node ∷ lru) =
        λ k. h.map k ∙ ap (address_of k) e in
      (
        record {
          bytes = omega (arith, bytes, total-pop_back node lru);
          sizes = (pop_back-All _ node lru (rw e at h.sizes)).1;
          distinct = Distinct-pop_back node lru distinct;
          addresses = (pop_back-All _ node lru (rw e at h.addresses)).1;
          map = λ k. (rw (map k) refl) ∙ sym (address_of-pop_back k node lru distinct);
        },
        (pop_back-All _ node lru (rw e at f)).1,
      )

  -- What evicting gives.
  abbrev Evicted : BlockCache → BlockCache → Type 0
  Evicted c c' = IsCache c' × Faithful load c' × (c'.capacity ≡ c.capacity)

  fits-IsCache : (c : BlockCache) → ltb c.capacity c.current_bytes ≡ false → IsStored c → IsCache c
  fits-IsCache c n h = record { stored = h; bounded = ground arith }

  no_bytes :
      (c : BlockCache) (lru : List Node) → c.lru ≡ lru → length lru ≤ 0 → IsStored c → IsCache c
  no_bytes c [] e l h =
      let empty : c.current_bytes ≡ 0 = h.bytes ∙ ap total e ∙ total-nil in
      record { stored = h; bounded = omega (arith, empty) }
  no_bytes c (node ∷ lru) e l h = absurd (omega (arith, l))

  evict_round :
      (fuel : ℕ) (c : BlockCache) (lru : List Node)
      → c.lru ≡ lru
      → length lru ≤ suc fuel
      → IsStored c
      → Faithful load c
      → ((c' : BlockCache)
          → length c'.lru ≤ fuel
          → IsStored c'
          → Faithful load c'
          → Evicted c' (evict fuel c'))
      → Evicted c (evict (suc fuel) c)
  unfolding evict evicted
  evict_round fuel c [] e l h f again = rw (evict, e) (no_bytes c [] e (omega arith) h, f, refl)
  evict_round fuel c (node ∷ lru) e l h f again =
      elim (Bool-cases (ltb c.capacity c.current_bytes)) [
        | inl over ↦
            let (stored, faithful) = evicted-IsStored c node lru e h f in
            rw (evict, e, over)
              (again (evicted c node lru) (omega (arith, l, length-pop_back node lru)) stored
                faithful)
        | inr fits ↦ rw (evict, e, fits) (fits-IsCache c fits h, f, refl)
      ]

  pub evict-IsCache :
      (fuel : ℕ) (c : BlockCache)
      → length c.lru ≤ fuel
      → IsStored c
      → Faithful load c
      → Evicted c (evict fuel c)
  unfolding evict
  evict-IsCache zero c l h f = (no_bytes c c.lru refl l h, f, refl)
  evict-IsCache (suc fuel) c l h f = evict_round fuel c c.lru refl l h f (evict-IsCache fuel)
