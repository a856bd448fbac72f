-- ===== src/BlockCache/Front.antt =====
-- Moving a node to the front of the list.
use keystone_db.Prelude.{
  ℕ, ◌<◌, ◌≡◌, refl, sym, ap, ◌∙◌, ◌∷◌, some, Bool-cases, inl, inr, All, length,
}
use keystone_db.Prelude.Keys.{Bytes}
use keystone_db.BlockCache.{
  CacheKey, CacheEntry, BlockCache, same_key, node_at, without, splice_front,
}
use keystone_db.BlockCache.Invariant.{
  total, address_of, Distinct, IsStored, same_key→eq, node_at-All, without-All, address_of-All,
  address_of-node_at, total-without, Distinct-without, address_of-without,
}

-- Every block is what the loader gives for its key.
abbrev pub Faithful : (CacheKey → Bytes) → BlockCache → Type 0
Faithful load c = All (λ n. n.entry.block ≡ load n.entry.key) c.lru

module _ (load : CacheKey → Bytes) (c : BlockCache) (h : IsStored c) (f : Faithful load c)
    (key : CacheKey) (address : ℕ) (at : c.map key ≡ some address) where
  front_of : CacheEntry → BlockCache
  front_of e = record c { lru = record { address = address; entry = e } ∷ without address c.lru }

  IsStored-front :
      (e : CacheEntry) → node_at address c.lru ≡ some e → e.key ≡ key → IsStored (front_of e)
  unfolding front_of total Distinct address_of
  IsStored-front e node same =
      let where_key : address_of key c.lru ≡ some address = sym (h.map key) ∙ at in
      let inside =
        address_of-All (λ a. a < c.next_address) key c.lru address h.addresses where_key in
      record {
        bytes = h.bytes ∙ sym (total-without address e c.lru node);
        sizes = (
          node_at-All (λ x. x.size ≡ length x.block) address c.lru e h.sizes node,
          without-All _ address c.lru h.sizes,
        );
        distinct = Distinct-without address e c.lru h.distinct node;
        addresses = (inside, without-All _ address c.lru h.addresses);
        map = λ k. elim (Bool-cases (same_key e.key k)) [
          | inl t ↦
              let q : key ≡ k = sym same ∙ same_key→eq e.key k t in rw t (ap c.map (sym q) ∙ at)
          | inr t ↦ rw t (h.map k ∙ sym (address_of-without address e k c.lru node t))
        ];
      }

  pub splice_front-IsStored :
      (c' : BlockCache) × (splice_front address c ≡ some (load key, c'))
      × IsStored c'
      × Faithful load c'
      × (c'.capacity ≡ c.capacity)
      × (c'.current_bytes ≡ c.current_bytes)
  unfolding splice_front front_of
  splice_front-IsStored =
      let (e, node, same) =
        address_of-node_at key c.lru address h.distinct (sym (h.map key) ∙ at) in
      let block : e.block ≡ load key =
        node_at-All (λ x. x.block ≡ load x.key) address c.lru e f node ∙ ap load same in
      (
        front_of e,
        rw (splice_front, node, block) refl,
        IsStored-front e node same,
        (block ∙ ap load (sym same), without-All _ address c.lru f),
        refl,
        refl,
      )
