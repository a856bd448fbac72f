-- ===== src/Memtable/Reads.antt =====
-- What the readers of a well-formed memtable see: its versions in order.
use keystone_db.Prelude.{
  ℕ, zero, suc, ◌-◌, ◌^◌, ◌≤◌, ◌<◌, ◌≡◌, refl, sym, ap, ◌∙◌, List, [], ◌∷◌, arith, Bool-cases, inl,
  inr, All, All-map, length, length-append, if◌then◌else◌,
}
use keystone_db.Prelude.Keys.{Bytes, key_eq}
use keystone_db.Sstable.{Entry}
use keystone_db.Db.Retain.{newest, IsMerged}
use keystone_db.Memtable.{
  Node, Memtable, head, entry_at, forward_at, key_less, answer_at, lookup, raw_from, raw_entries,
  raw_lower_bound, skip_key, entries_from, entries, lower_bound,
}
use keystone_db.Memtable.Chain.{Linked, Linked-parts}
use keystone_db.Memtable.Weave.{Linked_rest}
use keystone_db.Memtable.Search.{height_at}
use keystone_db.Memtable.Abstract.{entries_from_place, place_result, newest-place}
use keystone_db.Memtable.Invariant.{IsMemtable, entries_of, front, back, front-back}
use keystone_db.Memtable.Place.{first, next_at-first, split_links, front-back-All, seek-first}

-- The first version of each run of one key; the run of `key` has been begun.
unfoldable pub latest_after : Bytes → List Entry → List Entry
latest_after key [] = []
latest_after key (x ∷ entries) =
    let rest = latest_after (if key_eq x.key key then key else x.key) entries in
    if key_eq x.key key then rest else x ∷ rest

unfoldable pub latest : List Entry → List Entry
unfolding latest_after
latest [] = []
latest (x ∷ entries) = x ∷ latest_after x.key entries

module _ (nodes : List Node) where
  abbrev Tall : ℕ → Type 0
  Tall p = 0 < height_at nodes p

  next_first :
      (p : ℕ) (ps : List ℕ)
      → Linked (forward_at nodes) (height_at nodes) (p ∷ ps)
      → All Tall (p ∷ ps)
      → (forward_at nodes p 0 ≡ first ps) × Linked (forward_at nodes) (height_at nodes) ps
  next_first p ps k (tall, talls) =
      let (links, rest) = Linked-parts (forward_at nodes) (height_at nodes) p ps k in
      (links 0 tall ∙ next_at-first (height_at nodes) ps talls, rest)

  raw_from-first :
      (fuel : ℕ) (ps : List ℕ)
      → Linked (forward_at nodes) (height_at nodes) ps
      → All Tall ps
      → length ps ≤ fuel
      → raw_from fuel nodes (first ps) ≡ entries_of nodes ps
  unfolding raw_from
  raw_from-first zero [] k t l = refl
  raw_from-first (suc fuel) [] k t l = refl
  raw_from-first zero (p ∷ ps) k t l = absurd (omega arith)
  raw_from-first (suc fuel) (p ∷ ps) k t l =
      let (next, rest) = next_first p ps k t in
      rw (next, raw_from-first fuel ps rest t.1 (omega arith)) refl

  entries_from-skip :
      (fuel skips : ℕ) (cur : Bytes) (ps : List ℕ)
      → Linked (forward_at nodes) (height_at nodes) ps
      → All Tall ps
      → length ps ≤ length nodes
      → length ps ≤ fuel
      → length ps ≤ skips
      → entries_from fuel nodes (skip_key skips nodes cur (first ps))
        ≡ latest_after cur (entries_of nodes ps)
  unfolding entries_from skip_key latest_after
  entries_from-skip zero zero cur [] k t n f s = refl
  entries_from-skip zero (suc skips) cur [] k t n f s = refl
  entries_from-skip (suc fuel) zero cur [] k t n f s = refl
  entries_from-skip (suc fuel) (suc skips) cur [] k t n f s = refl
  entries_from-skip zero skips cur (p ∷ ps) k t n f s = absurd (omega arith)
  entries_from-skip (suc fuel) zero cur (p ∷ ps) k t n f s = absurd (omega arith)
  entries_from-skip (suc fuel) (suc skips) cur (p ∷ ps) k t n f s =
      let (next, rest) = next_first p ps k t in
      elim (Bool-cases (key_eq (entry_at nodes p).key cur)) [
        | inl same ↦
            rw (same, next)
              (entries_from-skip (suc fuel) skips cur ps rest t.1 (omega arith) (omega arith)
                (omega arith))
        | inr other ↦
            rw (other, next)
              (ap (◌∷◌ (entry_at nodes p)) (
                entries_from-skip fuel (length nodes) (entry_at nodes p).key ps rest t.1
                  (omega arith) (omega arith) (omega arith)))
      ]

  entries_from-first :
      (fuel : ℕ) (ps : List ℕ)
      → Linked (forward_at nodes) (height_at nodes) ps
      → All Tall ps
      → length ps ≤ length nodes
      → length ps ≤ fuel
      → entries_from fuel nodes (first ps) ≡ latest (entries_of nodes ps)
  unfolding entries_from latest
  entries_from-first zero [] k t n f = refl
  entries_from-first (suc fuel) [] k t n f = refl
  entries_from-first zero (p ∷ ps) k t n f = absurd (omega arith)
  entries_from-first (suc fuel) (p ∷ ps) k t n f =
      let (next, rest) = next_first p ps k t in
      rw next (
        ap (◌∷◌ (entry_at nodes p)) (
          entries_from-skip fuel (length nodes) (entry_at nodes p).key ps rest t.1 (omega arith)
            (omega arith) (omega arith)))

  entries_of-back :
      (key : Bytes) (seq : ℕ) (ps : List ℕ)
      → entries_of nodes (back nodes key seq ps) ≡ entries_from_place key seq (entries_of nodes ps)
  unfolding back entries_from_place
  entries_of-back key seq [] = refl
  entries_of-back key seq (p ∷ ps) = elim (Bool-cases (key_less (entry_at nodes p) key seq)) [
    | inl t ↦ rw t (entries_of-back key seq ps)
    | inr t ↦ rw t refl
  ]

  answer_at-first :
      (key : Bytes) (ps : List ℕ)
      → answer_at nodes key (first ps) ≡ place_result key (entries_of nodes ps)
  unfolding answer_at place_result
  answer_at-first key [] = refl
  answer_at-first key (p ∷ ps) = refl

module _ (m : Memtable) (ps : List ℕ) (h : IsMemtable m ps) where
  Tall-all : All (Tall m.nodes) (head ∷ ps)
  Tall-all =
      let (low, high) = h.current in
      (
        omega (arith, h.head_height, low, high),
        All-map (λ p. (0 < height_at m.nodes p) × (height_at m.nodes p ≤ m.current_height))
            (Tall m.nodes) (λ p (a, b). a) ps h.heights,
      )

  pub raw_entries-entries_of : raw_entries m ≡ entries_of m.nodes ps
  unfolding raw_entries
  raw_entries-entries_of =
      let (next, rest) = next_first m.nodes head ps h.links Tall-all in
      rw next (raw_from-first m.nodes (length m.nodes) ps rest Tall-all.1 (omega (arith, h.size)))

  -- A memtable's versions are in order.
  pub raw_entries-IsMerged : IsMerged (raw_entries m)
  raw_entries-IsMerged = rw raw_entries-entries_of h.sorted

  -- The default iterator yields the newest version of each key.
  pub entries-latest : entries m ≡ latest (raw_entries m)
  unfolding entries
  entries-latest =
      let (next, rest) = next_first m.nodes head ps h.links Tall-all in
      rw (raw_entries-entries_of, next)
        (entries_from-first m.nodes (length m.nodes) ps rest Tall-all.1 (omega (arith, h.size))
          (omega (arith, h.size)))

  back_parts :
      (key : Bytes) (seq : ℕ)
      → Linked (forward_at m.nodes) (height_at m.nodes) (back m.nodes key seq ps)
        × All (Tall m.nodes) (back m.nodes key seq ps)
        × (length (back m.nodes key seq ps) ≤ length m.nodes)
  back_parts key seq = (
    Linked_rest (forward_at m.nodes) (height_at m.nodes) (head ∷ front m.nodes key seq ps)
        (back m.nodes key seq ps) (split_links m ps h key seq),
    (front-back-All m ps h key seq (Tall m.nodes) Tall-all.1).1,
    omega (
      arith,
      h.size,
      ap length (front-back m.nodes key seq ps),
      length-append (front m.nodes key seq ps) (back m.nodes key seq ps),
    ),
  )

  -- The raw iterator from a key on yields the versions from the key's place on.
  pub raw_lower_bound-place :
      (key : Bytes) → raw_lower_bound m key ≡ entries_from_place key (2 ^ 64 - 1) (raw_entries m)
  unfolding raw_lower_bound
  raw_lower_bound-place key =
      let (links, tall, short) = back_parts key (2 ^ 64 - 1) in
      rw (raw_entries-entries_of, seek-first m ps h key (2 ^ 64 - 1))
        (raw_from-first m.nodes (length m.nodes) (back m.nodes key (2 ^ 64 - 1) ps) links tall short
          ∙ entries_of-back m.nodes key (2 ^ 64 - 1) ps)

  pub lower_bound-latest : (key : Bytes) → lower_bound m key ≡ latest (raw_lower_bound m key)
  unfolding lower_bound
  lower_bound-latest key =
      let (links, tall, short) = back_parts key (2 ^ 64 - 1) in
      rw
        (
          raw_lower_bound-place key,
          raw_entries-entries_of,
          ← entries_of-back m.nodes key (2 ^ 64 - 1) ps,
          seek-first m ps h key (2 ^ 64 - 1),
        )
        (entries_from-first m.nodes (length m.nodes) (back m.nodes key (2 ^ 64 - 1) ps) links tall
          short short)

  -- A lookup finds the newest version that the snapshot sees.
  pub lookup-newest :
      (key : Bytes) (snapshot_seq : ℕ)
      → lookup m key snapshot_seq ≡ newest key snapshot_seq (raw_entries m)
  unfolding lookup
  lookup-newest key seq =
      ap (answer_at m.nodes key) (seek-first m ps h key seq)
      ∙ answer_at-first m.nodes key (back m.nodes key seq ps)
      ∙ ap (place_result key) (
          entries_of-back m.nodes key seq ps
          ∙ ap (entries_from_place key seq) (sym raw_entries-entries_of))
      ∙ sym (newest-place key seq (raw_entries m) raw_entries-IsMerged)
