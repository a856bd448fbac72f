-- ===== src/BlockCache/Runs.antt =====
-- Threads that share a block cache: each critical section of get_or_load is one event, and the
-- events of all threads come in any order.
use keystone_db.Prelude.{
  ℕ, suc, ◌+◌, ◌<◌, ◌≡◌, refl, sym, ap, ◌∙◌, List, [], ◌∷◌, arith, false, Option, none, some,
  Bool-cases, Option-cases, inl, inr, ◌⊎◌, ◌>>=◌, All, All-map, length, ◌==◌,
}
use keystone_db.Prelude.Keys.{Bytes}
use keystone_db.BlockCache.{
  CacheKey, Node, BlockCache, Found, absent, present, dangling, new_cache, same_key, set_map,
  splice_front, find, publish, evict, count_miss, get_or_load,
}
use keystone_db.BlockCache.Invariant.{total, address_of, Distinct, IsStored, IsCache}
use keystone_db.BlockCache.Front.{Faithful, splice_front-IsStored}
use keystone_db.BlockCache.Evict.{evict-IsCache}

-- A thread looks a key up, counts a miss, or publishes the block that it loaded for a key.
pub data Event : Type 0 where
  look : CacheKey → Event
  miss : Event
  store : CacheKey → Event

abbrev pub after : BlockCache → Found → Option BlockCache
after c absent = some c
after c (present block c') = some c'
after c dangling = none

-- The state after events; `none` when an iterator dangled.
unfoldable pub step : (CacheKey → Bytes) → Event → BlockCache → Option BlockCache
step load (look key) c = after c (find key c)
step load miss c = some (count_miss c)
step load (store key) c = after c (publish key (load key) c)

unfoldable pub run : (CacheKey → Bytes) → List Event → BlockCache → Option BlockCache
unfolding step
run load [] c = some c
run load (event ∷ events) c = do c' ← step load event c; run load events c'

-- The state is consistent, and it holds the loader's blocks.
abbrev pub Good : (CacheKey → Bytes) → ℕ → BlockCache → Type 0
Good load capacity c = IsCache c × Faithful load c × (c.capacity ≡ capacity)

-- A section that returns the loader's block and leaves a good state.
abbrev pub Gives : (CacheKey → Bytes) → ℕ → CacheKey → Found → Type 0
Gives load capacity key found =
    (c' : BlockCache) × (found ≡ present (load key) c') × Good load capacity c'

-- No address that is still to come is in the list, and no node has a key that is not mapped.
fresh :
    (key : CacheKey) (limit : ℕ) (lru : List Node)
    → All (λ n. n.address < limit) lru
    → address_of key lru ≡ none
    → All (λ x. (same_key x.entry.key key ≡ false) × ((x.address == limit) ≡ false)) lru
unfolding address_of
fresh key limit [] h f = tt
fresh key limit (node ∷ lru) (hn, hs) f = elim (Bool-cases (same_key node.entry.key key)) [
  | inl t ↦ absurd (ground arith)
  | inr t ↦ ((t, ground arith), fresh key limit lru hs (ground arith))
]

module _ (load : CacheKey → Bytes) (capacity : ℕ) where
  unfoldable pub pushed : CacheKey → BlockCache → BlockCache
  pushed key c = record c {
    lru =
        record {
          address = c.next_address;
          entry = record { key = key; block = load key; size = length (load key) };
        }
        ∷ c.lru;
    map = set_map key (some c.next_address) c.map;
    next_address = c.next_address + 1;
    current_bytes = c.current_bytes + length (load key);
  }

  pub pushed-IsStored :
      (key : CacheKey) (c : BlockCache) → c.map key ≡ none → IsStored c → IsStored (pushed key c)
  unfolding pushed total Distinct address_of
  pushed-IsStored key c free h = record {
    bytes = omega (arith, h.bytes);
    sizes = (refl, h.sizes);
    distinct = (fresh key c.next_address c.lru h.addresses (sym (h.map key) ∙ free), h.distinct);
    addresses = (
      omega arith,
      All-map _ (λ n. n.address < c.next_address + 1) (λ n l. omega (arith, l)) c.lru h.addresses,
    );
    map = λ k. elim (Bool-cases (same_key key k)) [ inl t ↦ rw t refl | inr t ↦ rw t (h.map k) ];
  }

  splice_front-Good :
      (key : CacheKey) (address : ℕ) (c : BlockCache)
      → Good load capacity c
      → c.map key ≡ some address
      → (c' : BlockCache) × (splice_front address c ≡ some (load key, c')) × Good load capacity c'
  splice_front-Good key address c (h, f, k) at =
      let (c', e, stored, faithful, same, bytes) =
        splice_front-IsStored load c h.stored f key address at in
      (
        c',
        e,
        (
          record { stored = stored; bounded = omega (arith, same, bytes, h.bounded) },
          faithful,
          same ∙ k,
        ),
      )

  IsCache-same :
      (c : BlockCache) (hits misses : ℕ)
      → IsCache c
      → IsCache (record c { hits = hits; misses = misses })
  IsCache-same c hits misses h = record {
    stored = record {
      bytes = h.stored.bytes;
      sizes = h.stored.sizes;
      distinct = h.stored.distinct;
      addresses = h.stored.addresses;
      map = h.stored.map;
    };
    bounded = h.bounded;
  }

  -- A key that is mapped is found; one that is not is reported as absent.
  find-Good :
      (key : CacheKey) (c : BlockCache)
      → Good load capacity c
      → (find key c ≡ absent) ⊎ Gives load capacity key (find key c)
  unfolding find
  find-Good key c good = elim (Option-cases (c.map key)) [
    | inl free ↦ inl (rw (find, free) refl)
    | inr (address, at) ↦
        let (c', e, (h, f, k)) = splice_front-Good key address c good at in
        inr (record c' { hits = c'.hits + 1 }, rw (find, at, e) refl, (IsCache-same c' _ _ h, f, k))
  ]

  publish-Good :
      (key : CacheKey) (c : BlockCache)
      → Good load capacity c
      → Gives load capacity key (publish key (load key) c)
  unfolding publish pushed
  publish-Good key c good = elim (Option-cases (c.map key)) [
    | inl free ↦
        let (h, f, k) =
          evict-IsCache load (suc (length c.lru)) (pushed key c) (omega arith)
            (pushed-IsStored key c free good.0.stored) (refl, good.1) in
        (evict (suc (length c.lru)) (pushed key c), rw (publish, free) refl, (h, f, k ∙ good.2))
    | inr (address, at) ↦
        let (c', e, h) = splice_front-Good key address c good at in
        (c', rw (publish, at, e) refl, h)
  ]

  after-Good :
      (key : CacheKey) (c : BlockCache) (found : Found)
      → Gives load capacity key found
      → (c' : BlockCache) × (after c found ≡ some c') × Good load capacity c'
  after-Good key c found (c', e, good) = (c', ap (after c) e, good)

  step-Good :
      (event : Event) (c : BlockCache)
      → Good load capacity c
      → (c' : BlockCache) × (step load event c ≡ some c') × Good load capacity c'
  unfolding step count_miss
  step-Good (look key) c good = elim (find-Good key c good) [
    | inl e ↦ (c, ap (after c) e, good)
    | inr gives ↦ after-Good key c (find key c) gives
  ]
  step-Good miss c (h, f, k) = (count_miss c, refl, (IsCache-same c _ _ h, f, k))
  step-Good (store key) c good =
      after-Good key c (publish key (load key) c) (publish-Good key c good)

  run-Good :
      (events : List Event) (c : BlockCache)
      → Good load capacity c
      → (c' : BlockCache) × (run load events c ≡ some c') × Good load capacity c'
  unfolding run
  run-Good [] c good = (c, refl, good)
  run-Good (event ∷ events) c good =
      let (c₁, e₁, good₁) = step-Good event c good in
      let (c', e, good') = run-Good events c₁ good₁ in (c', rw (e₁) e, good')

  -- Both sections of one call, with the miss counted between them.
  get_or_load-Good :
      (key : CacheKey) (c : BlockCache)
      → Good load capacity c
      → Gives load capacity key (get_or_load key (load key) c)
  unfolding get_or_load count_miss
  get_or_load-Good key c (h, f, k) = elim (find-Good key c (h, f, k)) [
    | inl e ↦
        let (c', e', good) = publish-Good key (count_miss c) (IsCache-same c _ _ h, f, k) in
        (c', rw (get_or_load, e) e', good)
    | inr (c', e, good) ↦ (c', rw (get_or_load, e) refl, good)
  ]

  new_cache-Good : Good load capacity (new_cache capacity)
  unfolding new_cache Distinct total address_of
  new_cache-Good = (
    record {
      stored = record {
        bytes = refl;
        sizes = tt;
        distinct = tt;
        addresses = tt;
        map = λ key. refl;
      };
      bounded = omega arith;
    },
    tt,
    refl,
  )

  pub run-Good_after :
      (events : List Event) (c : BlockCache)
      → run load events (new_cache capacity) ≡ some c
      → Good load capacity c
  run-Good_after events c e =
      let (c', e', good) = run-Good events (new_cache capacity) new_cache-Good in
      let q : c' ≡ c = ground arith in rw (← q) good

-- Whatever the sections that threads have run, in whatever order, no iterator has dangled, the
-- counter of bytes is the sum of the cached blocks' sizes and within the capacity, and the map and
-- the list agree. From there the first section returns the loader's block of a key or reports
-- that it is absent, and the second one returns the loader's block, as a whole call does.
pub run-IsCache :
    (load : CacheKey → Bytes) (capacity : ℕ) (events : List Event) (key : CacheKey)
    → (c : BlockCache) × (run load events (new_cache capacity) ≡ some c)
      × IsCache c
      × (c.capacity ≡ capacity)
      × ((find key c ≡ absent) ⊎ Gives load capacity key (find key c))
      × Gives load capacity key (publish key (load key) c)
      × Gives load capacity key (get_or_load key (load key) c)
run-IsCache load capacity events key =
    let (c, e, good) =
      run-Good load capacity events (new_cache capacity) (new_cache-Good load capacity) in
    (
      c,
      e,
      good.0,
      good.2,
      find-Good load capacity key c good,
      publish-Good load capacity key c good,
      get_or_load-Good load capacity key c good,
    )
