-- ===== src/Memtable/Place.antt =====
-- In a well-formed memtable the search finds the place of a key and a sequence number.
use keystone_db.Prelude.{
  ℕ, ◌≤◌, ◌<◌, ◌≡◌, refl, sym, ap, ◌∙◌, List, [], ◌∷◌, ◌++◌, arith, true, false, Option, none, some,
  Bool-cases, inl, inr, All, All-map, All-split, length, length-append, length-replicate, get_or,
  get_or-replicate, replicate, ltb, ◌==◌,
}
use keystone_db.Prelude.Keys.{Bytes}
use keystone_db.Memtable.{Memtable, head, forward_at, descend, seek}
use keystone_db.Memtable.Chain.{next_at, last_at, Linked, Linked-parts, last_at_short}
use keystone_db.Memtable.Search.{height_at, Here, descend-last_at}
use keystone_db.Memtable.Weave.{last_self, last_at-links}
use keystone_db.Memtable.Invariant.{IsMemtable, front, back, front-back, front-Less, back-NotLess}

abbrev pub first : List ℕ → Option ℕ
first [] = none
first (p ∷ ps) = some p

pub next_at-first :
    (height : ℕ → ℕ) (ps : List ℕ) → All (λ p. 0 < height p) ps → next_at height 0 ps ≡ first ps
unfolding next_at
next_at-first height [] h = refl
next_at-first height (p ∷ ps) (hp, hs) =
    let t : ltb 0 (height p) ≡ true = ground (arith, hp) in rw t refl

module _ (m : Memtable) (ps : List ℕ) (h : IsMemtable m ps) (key : Bytes) (seq : ℕ) where
  pub split_links :
      Linked
        (forward_at m.nodes)
        (height_at m.nodes)
        (head ∷ (front m.nodes key seq ps ++ back m.nodes key seq ps))
  split_links = rw (front-back m.nodes key seq ps) h.links

  place-Here :
      Here m.nodes key seq
        (front m.nodes key seq ps)
        (back m.nodes key seq ps)
        (back-NotLess m.nodes key seq ps h.sorted)
        head
        (front m.nodes key seq ps)
  place-Here =
      let (links, linked) =
        Linked-parts (forward_at m.nodes) (height_at m.nodes) head _ split_links in
      record {
        links = links;
        linked = linked;
        less = front-Less m.nodes key seq ps;
        size = omega arith;
        lasts = λ i. (head, last_self (height_at m.nodes) i head (front m.nodes key seq ps));
      }

  front_short : length (front m.nodes key seq ps) ≤ length m.nodes
  front_short = omega (
    arith,
    h.size,
    ap length (front-back m.nodes key seq ps),
    length-append (front m.nodes key seq ps) (back m.nodes key seq ps),
  )

  pub front-back-All :
      (P : ℕ → Type 0)
      → All P ps
      → All P (front m.nodes key seq ps) × All P (back m.nodes key seq ps)
  front-back-All P a =
      All-split P (front m.nodes key seq ps) (back m.nodes key seq ps)
        (rw (front-back m.nodes key seq ps) a)

  -- `update` holds the last node in front of the place on every level.
  pub descend-update :
      (j : ℕ)
      → get_or
          (descend m.current_height m.nodes key seq head (replicate m.max_height head)).1
          j
          head
        ≡ last_at (height_at m.nodes) j head (front m.nodes key seq ps)
  descend-update j =
      let (low, high) = h.current in
      let (stop, notes) =
        descend-last_at m.nodes key seq (front m.nodes key seq ps) (back m.nodes key seq ps)
          (back-NotLess m.nodes key seq ps h.sorted) m.current_height head
          (front m.nodes key seq ps) (replicate m.max_height head) place-Here
          (omega (arith, h.head_height, high)) front_short in
      notes (omega (arith, length-replicate m.max_height head, high)) j head
      ∙ (elim (Bool-cases (ltb j m.current_height)) [
        | inl t ↦ rw t refl
        | inr t ↦
            let short =
              All-map (λ p. (0 < height_at m.nodes p) × (height_at m.nodes p ≤ m.current_height))
                (λ p. height_at m.nodes p ≤ j) (λ p (a, b). ground (arith, b, t))
                (front m.nodes key seq ps) (front-back-All _ h.heights).0 in
            rw (t, get_or-replicate m.max_height j head)
              (sym (last_at_short (height_at m.nodes) j head (front m.nodes key seq ps) short))
      ])

  -- The search ends in front of the first node that is not less.
  pub seek-first : seek m key seq ≡ first (back m.nodes key seq ps)
  unfolding seek
  seek-first =
      let (low, high) = h.current in
      let (links, linked) =
        Linked-parts (forward_at m.nodes) (height_at m.nodes) head _ split_links in
      let (stop, notes) =
        descend-last_at m.nodes key seq (front m.nodes key seq ps) (back m.nodes key seq ps)
          (back-NotLess m.nodes key seq ps h.sorted) m.current_height head
          (front m.nodes key seq ps) [] place-Here (omega (arith, h.head_height, high))
          front_short in
      let some_level : (m.current_height == 0) ≡ false = ground (arith, low) in
      let tall =
        All-map (λ p. (0 < height_at m.nodes p) × (height_at m.nodes p ≤ m.current_height))
          (λ p. 0 < height_at m.nodes p) (λ p (a, b). a) (back m.nodes key seq ps)
          (front-back-All _ h.heights).1 in
      ap (λ p. forward_at m.nodes p 0) (stop ∙ (rw some_level refl))
      ∙ last_at-links (forward_at m.nodes) (height_at m.nodes) 0 head (front m.nodes key seq ps)
          (back m.nodes key seq ps) (links 0 (omega (arith, h.head_height, low, high))) linked
      ∙ next_at-first (height_at m.nodes) (back m.nodes key seq ps) tall
