-- ===== src/BlockCache/Invariant.antt =====
-- What the block cache keeps true, and that moving a node to the front keeps it.
use keystone_db.Prelude.{
  ℕ, ◌+◌, ◌≤◌, ◌<◌, ◌≡◌, refl, ap, ◌∙◌, List, [], ◌∷◌, arith, true, false, Option, none, some,
  Bool-cases, inl, inr, All, All-map, length, ◌==◌, if◌then◌else◌,
}
use keystone_db.BlockCache.{CacheKey, CacheEntry, Node, BlockCache, same_key, node_at, without}

-- The bytes of the blocks in a list, and the address that stands for a key.
unfoldable pub total : List Node → ℕ
total [] = 0
total (node ∷ lru) = node.entry.size + total lru

unfoldable pub address_of : CacheKey → List Node → Option ℕ
address_of key [] = none
address_of key (node ∷ lru) =
    let rest = address_of key lru in if same_key node.entry.key key then some node.address else rest

-- No key and no address stands twice.
unfoldable pub Distinct : List Node → Type 0
Distinct [] = Unit {0}
Distinct (node ∷ lru) =
    All (λ x. (same_key x.entry.key node.entry.key ≡ false) × ((x.address == node.address) ≡ false))
      lru
    × Distinct lru

-- The state without the bound: the counter of bytes, the sizes, and the map agree with the list.
pub record IsStored (c : BlockCache) : Type 0 where
  pub bytes : c.current_bytes ≡ total c.lru
  pub sizes : All (λ n. n.entry.size ≡ length n.entry.block) c.lru
  pub distinct : Distinct c.lru
  pub addresses : All (λ n. n.address < c.next_address) c.lru
  pub map : (key : CacheKey) → c.map key ≡ address_of key c.lru

pub record IsCache (c : BlockCache) : Type 0 where
  pub stored : IsStored c
  pub bounded : c.current_bytes ≤ c.capacity

pub same_key_refl : (a : CacheKey) → same_key a a ≡ true
same_key_refl a = ground arith

pub same_key→eq : (a b : CacheKey) → same_key a b ≡ true → a ≡ b
same_key→eq a b h =
    let p : a.file_number ≡ b.file_number = ground arith in
    let q : a.block_offset ≡ b.block_offset = ground arith in
    λ i. record { file_number = p i; block_offset = q i }

pub same_key_sym : (a b : CacheKey) → same_key a b ≡ same_key b a
same_key_sym a b = ground arith

pub node_at-All :
    (P : CacheEntry → Type 0) (address : ℕ) (lru : List Node) (e : CacheEntry)
    → All (λ n. P n.entry) lru
    → node_at address lru ≡ some e
    → P e
unfolding node_at
node_at-All P address [] e h f = absurd (ground arith)
node_at-All P address (node ∷ lru) e (hn, hs) f = elim (Bool-cases (node.address == address)) [
  | inl t ↦ let q : node.entry ≡ e = ground arith in rw (← q) hn
  | inr t ↦ node_at-All P address lru e hs (ground arith)
]

pub without-All :
    (P : Node → Type 0) (address : ℕ) (lru : List Node) → All P lru → All P (without address lru)
unfolding without
without-All P address [] h = tt
without-All P address (node ∷ lru) (hn, hs) = elim (Bool-cases (node.address == address)) [
  | inl t ↦ rw t hs
  | inr t ↦ rw t (hn, without-All P address lru hs)
]

pub address_of-All :
    (P : ℕ → Type 0) (key : CacheKey) (lru : List Node) (address : ℕ)
    → All (λ n. P n.address) lru
    → address_of key lru ≡ some address
    → P address
unfolding address_of
address_of-All P key [] address h f = absurd (ground arith)
address_of-All P key (node ∷ lru) address (hn, hs) f =
    elim (Bool-cases (same_key node.entry.key key)) [
      | inl t ↦ let q : node.address ≡ address = ground arith in rw (← q) hn
      | inr t ↦ address_of-All P key lru address hs (ground arith)
    ]

-- The key that has an address stands at it.
pub address_of-node_at :
    (key : CacheKey) (lru : List Node) (address : ℕ)
    → Distinct lru
    → address_of key lru ≡ some address
    → (e : CacheEntry) × (node_at address lru ≡ some e) × (e.key ≡ key)
unfolding address_of node_at Distinct
address_of-node_at key [] address d f = absurd (ground arith)
address_of-node_at key (node ∷ lru) address (others, d) f =
    elim (Bool-cases (same_key node.entry.key key)) [
      | inl t ↦
          let q : node.address ≡ address = ground arith in
          let here : (node.address == address) ≡ true = ground (arith, q) in
          (node.entry, rw here refl, same_key→eq node.entry.key key t)
      | inr t ↦
          let (e, at, same) = address_of-node_at key lru address d (ground arith) in
          let apart : (address == node.address) ≡ false =
            address_of-All (λ a. (a == node.address) ≡ false) key lru address
              (All-map
                (λ (x : Node).
                  (same_key x.entry.key node.entry.key ≡ false)
                  × ((x.address == node.address) ≡ false))
                (λ x. (x.address == node.address) ≡ false) (λ x (a, b). b) lru others)
              (ground arith) in
          let other : (node.address == address) ≡ false = ground (arith, apart) in
          (e, rw other at, same)
    ]

-- What is left when the node of entry `e` is taken out.
module _ (address : ℕ) (e : CacheEntry) where
  pub total-without :
      (lru : List Node)
      → node_at address lru ≡ some e
      → e.size + total (without address lru) ≡ total lru
  unfolding node_at without total
  total-without [] f = absurd (ground arith)
  total-without (node ∷ lru) f = elim (Bool-cases (node.address == address)) [
    | inl t ↦ let q : node.entry ≡ e = ground arith in rw (t, q) refl
    | inr t ↦ let ih = total-without lru (ground arith) in rw t (omega (arith, ih))
  ]

  pub Distinct-without :
      (lru : List Node)
      → Distinct lru
      → node_at address lru ≡ some e
      → All
          (λ x. (same_key x.entry.key e.key ≡ false) × ((x.address == address) ≡ false))
          (without address lru)
        × Distinct (without address lru)
  unfolding node_at without Distinct
  Distinct-without [] d f = absurd (ground arith)
  Distinct-without (node ∷ lru) (others, d) f = elim (Bool-cases (node.address == address)) [
    | inl t ↦
        let q : node.entry ≡ e = ground arith in
        let a : node.address ≡ address = ground arith in rw (t, ← q, ← a) (others, d)
    | inr t ↦
        let at : node_at address lru ≡ some e = ground arith in
        let (rest, d') = Distinct-without lru d at in
        let apart : same_key e.key node.entry.key ≡ false =
          node_at-All (λ x. same_key x.key node.entry.key ≡ false) address lru e
            (All-map
              (λ (x : Node).
                (same_key x.entry.key node.entry.key ≡ false)
                × ((x.address == node.address) ≡ false))
              (λ x. same_key x.entry.key node.entry.key ≡ false) (λ x (a, b). a) lru others)
            at in
        rw t (
          ((same_key_sym node.entry.key e.key ∙ apart, t), rest),
          (without-All _ address lru others, d'),
        )
  ]

  pub address_of-without :
      (key : CacheKey) (lru : List Node)
      → node_at address lru ≡ some e
      → same_key e.key key ≡ false
      → address_of key (without address lru) ≡ address_of key lru
  unfolding node_at without address_of
  address_of-without key [] f n = absurd (ground arith)
  address_of-without key (node ∷ lru) f n = elim (Bool-cases (node.address == address)) [
    | inl t ↦
        let q : node.entry ≡ e = ground arith in
        let other : same_key node.entry.key key ≡ false =
          ap (λ (x : CacheEntry). same_key x.key key) q ∙ n in
        rw (t, other) refl
    | inr t ↦ rw (t, address_of-without key lru (ground arith) n) refl
  ]
