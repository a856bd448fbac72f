-- ===== src/Memtable/Weave.antt =====
-- Linking a node behind the last tall enough node of each level keeps a skip list's shape.
use keystone_db.Prelude.{
  ℕ, ◌≤◌, ◌<◌, ◌≡◌, refl, sym, ap, ◌∙◌, List, [], ◌∷◌, ◌++◌, arith, true, false, Option, none, some,
  Bool-cases, Option-cases, inl, inr, All, All-map, All-append, All-split, ltb, ◌==◌, ==_refl,
  if◌then◌else◌,
}
use keystone_db.Memtable.Chain.{next_at, last_at, Linked, next_at-append}

-- A shape depends only on the nodes that stand in it.
module _ (F F₁ : ℕ → ℕ → Option ℕ) (H H₁ : ℕ → ℕ) where
  abbrev pub Agree : ℕ → Type 0
  Agree p = ((j : ℕ) → F₁ p j ≡ F p j) × (H₁ p ≡ H p)

  pub next_at_congr :
      (j : ℕ) (ps : List ℕ) → All (λ p. H₁ p ≡ H p) ps → next_at H₁ j ps ≡ next_at H j ps
  unfolding next_at
  next_at_congr j [] h = refl
  next_at_congr j (p ∷ ps) (hp, hs) = rw (hp, next_at_congr j ps hs) refl

  pub last_at_congr :
      (j p : ℕ) (ps : List ℕ) → All (λ q. H₁ q ≡ H q) ps → last_at H₁ j p ps ≡ last_at H j p ps
  unfolding last_at
  last_at_congr j p [] h = refl
  last_at_congr j p (q ∷ ps) (hq, hs) = rw hq (last_at_congr j (if ltb j (H q) then q else p) ps hs)

  pub Linked_congr : (ps : List ℕ) → All Agree ps → Linked F H ps → Linked F₁ H₁ ps
  unfolding Linked
  Linked_congr [] a h = tt
  Linked_congr (p ∷ ps) ((fp, hp), as') (links, h) = (
    λ i l.
        fp i
        ∙ links i (omega (arith, hp, l))
        ∙ sym (next_at_congr i ps (All-map Agree (λ q. H₁ q ≡ H q) (λ q a. a.1) ps as')),
    Linked_congr ps as' h,
  )

module _ (H : ℕ → ℕ) where
  last_at-none : (j p : ℕ) (ps : List ℕ) → next_at H j ps ≡ none → last_at H j p ps ≡ p
  unfolding next_at last_at
  last_at-none j p [] e = refl
  last_at-none j p (q ∷ ps) e = elim (Bool-cases (ltb j (H q))) [
    | inl t ↦ absurd (ground arith)
    | inr t ↦ rw t (last_at-none j p ps (ground arith))
  ]

  pub last_at-All : (P : ℕ → Type 0) (j p : ℕ) (ps : List ℕ) → P p → All P ps → P (last_at H j p ps)
  unfolding last_at
  last_at-All P j p [] hp h = hp
  last_at-All P j p (q ∷ ps) hp (hq, hs) = elim (Bool-cases (ltb j (H q))) [
    | inl t ↦ rw t (last_at-All P j q ps hq hs)
    | inr t ↦ rw t (last_at-All P j p ps hp hs)
  ]

  last_at-some :
      (P : ℕ → Type 0) (j p : ℕ) (ps : List ℕ) (q : ℕ)
      → next_at H j ps ≡ some q
      → All P ps
      → P (last_at H j p ps)
  unfolding next_at last_at
  last_at-some P j p [] q e h = absurd (ground arith)
  last_at-some P j p (r ∷ ps) q e (hr, hs) = elim (Bool-cases (ltb j (H r))) [
    | inl t ↦ rw t (last_at-All P j r ps hr hs)
    | inr t ↦ rw t (last_at-some P j p ps q (ground arith) hs)
  ]

  pub last_at_tall : (j p : ℕ) (ps : List ℕ) → j < H p → j < H (last_at H j p ps)
  unfolding last_at
  last_at_tall j p [] l = l
  last_at_tall j p (q ∷ ps) l = elim (Bool-cases (ltb j (H q))) [
    | inl t ↦ rw t (last_at_tall j q ps (ground arith))
    | inr t ↦ rw t (last_at_tall j p ps l)
  ]

pub last_self : (H : ℕ → ℕ) (j p : ℕ) (ps : List ℕ) → last_at H j p ps ≡ last_at H j p (p ∷ ps)
unfolding last_at
last_self H j p ps = elim (Bool-cases (ltb j (H p))) [ inl t ↦ rw t refl | inr t ↦ rw t refl ]

-- The last tall enough node in front of a place points to the first one behind it.
pub last_at-links :
    (F : ℕ → ℕ → Option ℕ) (H : ℕ → ℕ) (j p : ℕ) (ps qs : List ℕ)
    → F p j ≡ next_at H j (ps ++ qs)
    → Linked F H (ps ++ qs)
    → F (last_at H j p ps) j ≡ next_at H j qs
unfolding next_at last_at Linked
last_at-links F H j p [] qs e h = e
last_at-links F H j p (r ∷ ps) qs e (links, h) = elim (Bool-cases (ltb j (H r))) [
  | inl t ↦ rw t (last_at-links F H j r ps qs (links j (ground arith)) h)
  | inr t ↦ rw t (last_at-links F H j p ps qs (e ∙ (rw t refl)) h)
]

abbrev Apart : ℕ → ℕ → Type 0
Apart p q = (p == q) ≡ false

-- No node stands twice.
unfoldable pub Distinct : List ℕ → Type 0
Distinct [] = Unit {0}
Distinct (p ∷ ps) = All (λ q. (p == q) ≡ false) ps × Distinct ps

pub Distinct-append :
    (ps qs : List ℕ)
    → Distinct (ps ++ qs)
    → Distinct ps × (Distinct qs × All (λ p. All (λ q. (p == q) ≡ false) qs) ps)
unfolding Distinct
Distinct-append [] qs d = (tt, (d, tt))
Distinct-append (p ∷ ps) qs (h, d) =
    let (dp, (dq, cross)) = Distinct-append ps qs d in
    let (hp, hq) = All-split (λ q. (p == q) ≡ false) ps qs h in ((hp, dp), (dq, (hq, cross)))

pub Linked_rest :
    (F : ℕ → ℕ → Option ℕ) (H : ℕ → ℕ) (ps qs : List ℕ) → Linked F H (ps ++ qs) → Linked F H qs
unfolding Linked
Linked_rest F H [] qs h = h
Linked_rest F H (p ∷ ps) qs (links, h) = Linked_rest F H ps qs h

All_each :
    (P : ℕ → Type 0) (Q : ℕ → ℕ → Type 0) (qs : List ℕ)
    → All P qs
    → ((j : ℕ) → All (Q j) qs)
    → All (λ q. P q × ((j : ℕ) → Q j q)) qs
All_each P Q [] h k = tt
All_each P Q (q ∷ qs) (hq, hs) k = ((hq, λ j. (k j).0), All_each P Q qs hs (λ j. (k j).1))

module _ (F F' : ℕ → ℕ → Option ℕ) (H : ℕ → ℕ) (n : ℕ) (u : ℕ → ℕ)
    (pointer : (q j : ℕ)
      → F' q j ≡ (
          if ltb j (H n)
          then (if n == q then F (u j) j else if u j == q then some n else F q j)
          else F q j)) where
  -- Away from the new node and the ones that are written to nothing changes.
  untouched : (q j : ℕ) → (n == q) ≡ false → ((u j == q) ≡ false) → F' q j ≡ F q j
  untouched q j a b =
      pointer q j
      ∙ (elim (Bool-cases (ltb j (H n))) [ inl t ↦ rw (t, a, b) refl | inr t ↦ rw t refl ])

  Linked_above :
      (above : List ℕ)
      → All (λ q. ((n == q) ≡ false) × ((j : ℕ) → (u j == q) ≡ false)) above
      → Linked F H above
      → Linked F' H above
  unfolding Linked
  Linked_above [] a h = tt
  Linked_above (p ∷ ps) ((an, au), as') (links, h) =
      (λ i l. untouched p i an (au i) ∙ links i l, Linked_above ps as' h)

  -- The pointer of a node in front of the place.
  woven :
      (p : ℕ) (rest above : List ℕ) (j : ℕ)
      → (n == p) ≡ false
      → All (λ q. (p == q) ≡ false) rest
      → F p j ≡ next_at H j (rest ++ above)
      → u j ≡ last_at H j p rest
      → F' p j ≡ next_at H j (rest ++ (n ∷ above))
  woven p rest above j fresh apart e last = elim (Option-cases (next_at H j rest)) [
    | inl no_next ↦
        let own : u j ≡ p = last ∙ last_at-none H j p rest no_next in
        let old : F p j ≡ next_at H j above =
          e ∙ next_at-append H j rest above ∙ (rw no_next refl) in
        let write : (if ltb j (H n)
              then (if n == p then F (u j) j else if u j == p then some n else F p j)
              else F p j)
            ≡ (if ltb j (H n) then some n else next_at H j above) =
          rw (fresh, own, ==_refl p, old) refl in
        let goal : next_at H j (rest ++ (n ∷ above))
            ≡ (if ltb j (H n) then some n else next_at H j above) =
          next_at-append H j rest (n ∷ above) ∙ (rw no_next (unfold next_at in refl)) in
        pointer p j ∙ write ∙ sym goal
    | inr (q, next) ↦
        let far : (u j == p) ≡ false = rw last (
          last_at-some H (λ k. (k == p) ≡ false) j p rest q next
            (All-map (λ k. (p == k) ≡ false) (λ k. (k == p) ≡ false) (λ k a. ground (arith, a)) rest
              apart)) in
        let old : next_at H j (rest ++ above) ≡ some q =
          next_at-append H j rest above ∙ (rw next refl) in
        let goal : next_at H j (rest ++ (n ∷ above)) ≡ some q =
          next_at-append H j rest (n ∷ above) ∙ (rw next refl) in
        untouched p j fresh far ∙ e ∙ old ∙ sym goal
  ]

  pub Linked_below :
      (ps above : List ℕ)
      → All (λ q. (n == q) ≡ false) ps
      → Distinct ps
      → Linked F H (ps ++ above)
      → Linked F' H (n ∷ above)
      → ((j : ℕ) → (y : ℕ) × (u j ≡ last_at H j y ps))
      → Linked F' H (ps ++ (n ∷ above))
  unfolding Linked Distinct last_at
  Linked_below [] above fresh d h tail lasts = tail
  Linked_below (p ∷ rest) above (fp, fs) (dp, ds) (links, h) tail lasts = (
    λ j l.
        woven p rest above j fp dp (links j l) (
          let (y, e) = lasts j in
          let t : ltb j (H p) ≡ true = ground (arith, l) in e ∙ (rw t refl)),
    Linked_below rest above fs ds h tail
        (λ j. let (y, e) = lasts j in (if ltb j (H p) then p else y, e)),
  )

  -- The new node takes over the pointers of the nodes in front of it.
  pub Linked_weave :
      (first : ℕ) (below above : List ℕ)
      → All (λ q. (n == q) ≡ false) (first ∷ (below ++ above))
      → Distinct (first ∷ (below ++ above))
      → Linked F H (first ∷ (below ++ above))
      → ((j : ℕ) → u j ≡ last_at H j first below)
      → H n ≤ H first
      → Linked F' H (first ∷ (below ++ (n ∷ above)))
  unfolding Linked
  Linked_weave first below above fresh d h lasts tall =
      let (fresh_below, fresh_above) =
        All-split (λ q. (n == q) ≡ false) (first ∷ below) above fresh in
      let (d_below, (d_above, cross)) = Distinct-append (first ∷ below) above d in
      let far : (j : ℕ) → All (λ q. (u j == q) ≡ false) above = λ j.
        rw (lasts j)
          (last_at-All H (λ p. All (λ q. (p == q) ≡ false) above) j first below cross.0 cross.1) in
      let new_links : (i : ℕ) → i < H n → F' n i ≡ next_at H i above = λ i l.
        let t : ltb i (H n) ≡ true = ground (arith, l) in
        let old : F (u i) i ≡ next_at H i above =
          ap (λ k. F k i) (lasts i)
          ∙ last_at-links F H i first below above (h.0 i (omega (arith, l, tall))) h.1 in
        pointer n i ∙ (rw (t, ==_refl n) old) in
      let behind =
        Linked_above above
          (All_each (λ q. (n == q) ≡ false) (λ j q. (u j == q) ≡ false) above fresh_above far)
          (Linked_rest F H (first ∷ below) above h) in
      Linked_below (first ∷ below) above fresh_below d_below h (new_links, behind)
        (λ j. (first, lasts j ∙ (last_self H j first below)))

pub Distinct-insert :
    (n : ℕ) (ps qs : List ℕ)
    → Distinct (ps ++ qs)
    → All (λ q. (n == q) ≡ false) (ps ++ qs)
    → Distinct (ps ++ (n ∷ qs))
unfolding Distinct
Distinct-insert n [] qs d f = (f, d)
Distinct-insert n (p ∷ ps) qs (h, d) (fp, fs) =
    let (hp, hq) = All-split (λ q. (p == q) ≡ false) ps qs h in
    (
      All-append (λ q. (p == q) ≡ false) ps (n ∷ qs) hp (ground (arith, fp), hq),
      Distinct-insert n ps qs d fs,
    )
