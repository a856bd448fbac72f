-- ===== src/Memtable/Insert.antt =====
-- put and del keep the skip list's invariant and insert one version.
use keystone_db.Prelude.{
  ℕ, suc, ◌+◌, ◌≤◌, ◌<◌, ◌≡◌, refl, sym, ap, ◌∙◌, List, [], ◌∷◌, ◌++◌, arith, true, false, none,
  some, Bool-cases, inl, inr, All, All_any, All-map, All-map₂, All-append, length, length-append,
  length-replicate, get_or, get_or-append_lt, get_or-append_last, replicate, ltb, leb, ◌==◌,
  if◌then◌else◌,
}
use keystone_db.Sstable.{Entry}
use keystone_db.Memtable.{
  Node, Memtable, new_node, no_node, head, node_at, entry_at, forward_at, descend, link,
  insert_node,
}
use keystone_db.Memtable.Chain.{last_at, Linked}
use keystone_db.Memtable.Search.{height_at}
use keystone_db.Memtable.Splice.{Fits, SameNodes, linked_pointer, link-pointer}
use keystone_db.Memtable.Weave.{
  Agree, Distinct, Distinct-insert, Linked_congr, last_at_congr, last_at-All, last_at_tall,
  Linked_weave,
}
use keystone_db.Memtable.Abstract.{insert_entry, insert_entry-IsMerged}
use keystone_db.Memtable.Invariant.{
  IsMemtable, entries_of, entries_of-append, entries_of_congr, insert_entry-entries_of, front, back,
  front-back,
}
use keystone_db.Memtable.Place.{split_links, front-back-All, descend-update}

module _ (m : Memtable) (ps : List ℕ) (h : IsMemtable m ps) (e : Entry) (lvl : ℕ) (low : 0 < lvl)
    (high : lvl ≤ m.max_height) where
  abbrev pub below : List ℕ
  below = front m.nodes e.key e.seq ps

  abbrev pub above : List ℕ
  above = back m.nodes e.key e.seq ps

  abbrev fresh : ℕ
  fresh = length m.nodes

  abbrev grown : List Node
  grown = m.nodes ++ (new_node e lvl ∷ [])

  abbrev update : List ℕ
  update = (descend m.current_height m.nodes e.key e.seq head (replicate m.max_height head)).1

  old_node : (p : ℕ) → p < fresh → node_at grown p ≡ node_at m.nodes p
  old_node p l = get_or-append_lt m.nodes (new_node e lvl ∷ []) p no_node l

  fresh_node : node_at grown fresh ≡ new_node e lvl
  fresh_node = get_or-append_last m.nodes (new_node e lvl) no_node

  fresh_height : height_at grown fresh ≡ lvl
  fresh_height = ap (λ (k : Node). length k.forward) fresh_node ∙ length-replicate lvl none

  length-grown : length grown ≡ suc fresh
  length-grown = omega (arith, length-append m.nodes (new_node e lvl ∷ []))

  agree :
      (p : ℕ)
      → p < fresh
      → Agree (forward_at m.nodes) (forward_at grown) (height_at m.nodes) (height_at grown) p
  agree p l = (
    λ j. ap (λ (k : Node). get_or k.forward j none) (old_node p l),
    ap (λ (k : Node). length k.forward) (old_node p l),
  )

  target_inside : (j : ℕ) → get_or update j head < fresh
  target_inside j = rw (descend-update m ps h e.key e.seq j) (
      last_at-All (height_at m.nodes) (λ p. p < fresh) j head below h.inside.0
        (front-back-All m ps h e.key e.seq (λ p. p < fresh) h.inside.1).0)

  target_other : (j : ℕ) → (get_or update j head == fresh) ≡ false
  target_other j = ground (arith, target_inside j)

  target_tall : (j : ℕ) → j < lvl → j < height_at m.nodes (get_or update j head)
  target_tall j l =
      rw (descend-update m ps h e.key e.seq j)
        (last_at_tall (height_at m.nodes) j head below (omega (arith, h.head_height, high, l)))

  fits : Fits fresh update target_other grown 0 lvl
  fits = record {
    node = omega (arith, length-grown);
    tall = omega (arith, fresh_height);
    targets = λ j a b. (
      omega (arith, target_inside j, length-grown),
      omega (
        arith,
        target_tall j (omega (arith, b)),
        (agree (get_or update j head) (target_inside j)).1,
      ),
    );
  }

  abbrev linked : List Node
  linked = link lvl 0 fresh update grown

  same_nodes : SameNodes fresh update target_other linked grown
  same_nodes = (link-pointer fresh update target_other lvl 0 grown fits).0

  pointer :
      (q j : ℕ)
      → forward_at linked q j ≡ (
          if ltb j (height_at grown fresh)
          then (if fresh == q
              then forward_at grown (get_or update j head) j
              else if get_or update j head == q
              then some fresh
              else forward_at grown q j)
          else forward_at grown q j)
  pointer q j =
      let from : leb 0 j ≡ true = ground arith in
      let upto : ltb j (0 + lvl) ≡ ltb j (height_at grown fresh) = ground (arith, fresh_height) in
      (link-pointer fresh update target_other lvl 0 grown fits).1 q j
      ∙ (unfold linked_pointer in rw (from, upto) refl)

  split_inside : All (λ p. p < fresh) (head ∷ (below ++ above))
  split_inside = rw (front-back m.nodes e.key e.seq ps) h.inside

  split-Distinct : Distinct (head ∷ (below ++ above))
  split-Distinct = rw (front-back m.nodes e.key e.seq ps) h.distinct

  split_fresh : All (λ p. (fresh == p) ≡ false) (head ∷ (below ++ above))
  split_fresh =
      All-map (λ p. p < fresh) (λ p. (fresh == p) ≡ false) (λ p l. ground (arith, l))
        (head ∷ (below ++ above)) split_inside

  grown_links : Linked (forward_at grown) (height_at grown) (head ∷ (below ++ above))
  grown_links =
      Linked_congr (forward_at m.nodes) (forward_at grown) (height_at m.nodes) (height_at grown)
        (head ∷ (below ++ above))
        (All-map (λ p. p < fresh)
          (Agree (forward_at m.nodes) (forward_at grown) (height_at m.nodes) (height_at grown))
          agree (head ∷ (below ++ above)) split_inside)
        (split_links m ps h e.key e.seq)

  last_target : (j : ℕ) → get_or update j head ≡ last_at (height_at grown) j head below
  last_target j =
      descend-update m ps h e.key e.seq j
      ∙ sym (
          last_at_congr (forward_at m.nodes) (forward_at grown) (height_at m.nodes)
            (height_at grown) j head below
            (All-map (λ p. p < fresh) (λ p. height_at grown p ≡ height_at m.nodes p)
              (λ p l. (agree p l).1) below
              (front-back-All m ps h e.key e.seq (λ p. p < fresh) h.inside.1).0))

  linked_links : Linked (forward_at linked) (height_at linked) (head ∷ (below ++ (fresh ∷ above)))
  linked_links =
      Linked_congr (forward_at linked) (forward_at linked) (height_at grown) (height_at linked)
        (head ∷ (below ++ (fresh ∷ above)))
        (All_any _ (λ p. (λ j. refl, same_nodes.heights p)) (head ∷ (below ++ (fresh ∷ above))))
        (Linked_weave (forward_at grown) (forward_at linked) (height_at grown) fresh
          (λ j. get_or update j head) pointer head below above split_fresh split-Distinct
          grown_links last_target
          (omega (arith, fresh_height, high, h.head_height, (agree head h.inside.0).1)))

  old_entry : (p : ℕ) → p < fresh → entry_at linked p ≡ entry_at m.nodes p
  old_entry p l = same_nodes.entries p ∙ ap (λ (k : Node). k.entry) (old_node p l)

  old_height : (p : ℕ) → p < fresh → height_at linked p ≡ height_at m.nodes p
  old_height p l = same_nodes.heights p ∙ (agree p l).1

  old_entries :
      (qs : List ℕ) → All (λ p. p < fresh) qs → entries_of linked qs ≡ entries_of m.nodes qs
  old_entries qs a =
      entries_of_congr m.nodes linked qs
        (All-map (λ p. p < fresh) (λ p. entry_at linked p ≡ entry_at m.nodes p) old_entry qs a)

  -- The versions after the insertion.
  linked_entries :
      entries_of linked (below ++ (fresh ∷ above)) ≡ insert_entry e (entries_of m.nodes ps)
  linked_entries =
      let (low_part, high_part) = front-back-All m ps h e.key e.seq (λ p. p < fresh) h.inside.1 in
      let new_entry : entry_at linked fresh ≡ e =
        same_nodes.entries fresh ∙ ap (λ (k : Node). k.entry) fresh_node in
      entries_of-append linked below (fresh ∷ above)
      ∙ (rw (old_entries below low_part, new_entry, old_entries above high_part)
          (sym (insert_entry-entries_of m.nodes e ps)))

  with_fresh :
      (Q P : ℕ → Type 0)
      → All Q ps
      → ((p : ℕ) → p < fresh → Q p → P p)
      → P fresh
      → All P (below ++ (fresh ∷ above))
  with_fresh Q P a f new =
      let (q₁, q₂) = front-back-All m ps h e.key e.seq Q a in
      let (i₁, i₂) = front-back-All m ps h e.key e.seq (λ p. p < fresh) h.inside.1 in
      All-append P below (fresh ∷ above) (All-map₂ (λ p. p < fresh) Q P f below i₁ q₁)
        (new, All-map₂ (λ p. p < fresh) Q P f above i₂ q₂)

  length-linked : length linked ≡ suc fresh
  length-linked = same_nodes.size ∙ length-grown

  height_bounds :
      (0 < (if ltb m.current_height lvl then lvl else m.current_height))
      × ((if ltb m.current_height lvl then lvl else m.current_height) ≤ m.max_height)
      × (m.current_height ≤ (if ltb m.current_height lvl then lvl else m.current_height))
      × (lvl ≤ (if ltb m.current_height lvl then lvl else m.current_height))
  height_bounds =
      let (c₁, c₂) = h.current in
      elim (Bool-cases (ltb m.current_height lvl)) [
        | inl t ↦ rw t (low, high, ground arith, omega arith)
        | inr t ↦ rw t (c₁, c₂, omega arith, ground arith)
      ]

  pub insert_node-IsMemtable : IsMemtable (insert_node m e lvl) (below ++ (fresh ∷ above))
  unfolding insert_node
  insert_node-IsMemtable =
      let (c₁, c₂, c₃, c₄) = height_bounds in
      let new_height = same_nodes.heights fresh ∙ fresh_height in
      record {
        links = linked_links;
        head_height = old_height head h.inside.0 ∙ h.head_height;
        heights =
            with_fresh (λ p. (0 < height_at m.nodes p) × (height_at m.nodes p ≤ m.current_height)) _
              h.heights
              (λ p l (a, b).
                (omega (arith, old_height p l, a), omega (arith, old_height p l, b, c₃)))
              (omega (arith, new_height, low), omega (arith, new_height, c₄));
        current = (c₁, c₂);
        inside = (
          omega (arith, length-linked),
          with_fresh (λ p. p < fresh) _ h.inside.1 (λ p l i. omega (arith, length-linked, l))
              (omega (arith, length-linked)),
        );
        distinct = Distinct-insert fresh (head ∷ below) above split-Distinct split_fresh;
        size = omega (
          arith,
          length-linked,
          h.size,
          length-append below (fresh ∷ above),
          length-append below above,
          ap length (front-back m.nodes e.key e.seq ps),
        );
        sorted = rw linked_entries (insert_entry-IsMerged e (entries_of m.nodes ps) h.sorted);
      }

  pub insert_node-entries_of :
      entries_of (insert_node m e lvl).nodes (below ++ (fresh ∷ above))
      ≡ insert_entry e (entries_of m.nodes ps)
  unfolding insert_node
  insert_node-entries_of = linked_entries
