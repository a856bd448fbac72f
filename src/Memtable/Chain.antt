-- ===== src/Memtable/Chain.antt =====
-- The shape of a skip list, over a function for the forward pointers and one for the heights: the
-- nodes in order, where a node's pointer on a level leads to the next node that is tall enough.
use keystone_db.Prelude.{
  ℕ, ◌≤◌, ◌<◌, ◌≡◌, refl, List, [], ◌∷◌, ◌++◌, arith, false, Option, none, some, Bool-cases, inl,
  inr, All, ltb, if◌then◌else◌,
}

-- The next node that is taller than level `i`.
unfoldable pub next_at : (ℕ → ℕ) → ℕ → List ℕ → Option ℕ
next_at height i [] = none
next_at height i (p ∷ ps) =
    let rest = next_at height i ps in if ltb i (height p) then some p else rest

-- The last node, from `p` on, that is taller than level `i`.
unfoldable pub last_at : (ℕ → ℕ) → ℕ → ℕ → List ℕ → ℕ
last_at height i p [] = p
last_at height i p (q ∷ qs) = last_at height i (if ltb i (height q) then q else p) qs

unfoldable pub Linked : (ℕ → ℕ → Option ℕ) → (ℕ → ℕ) → List ℕ → Type 0
Linked forward height [] = Unit {0}
Linked forward height (p ∷ ps) =
    ((i : ℕ) → i < height p → forward p i ≡ next_at height i ps) × Linked forward height ps

module _ (height : ℕ → ℕ) where
  pub next_at-All :
      (P : ℕ → Type 0) (i : ℕ) (ps : List ℕ) (q : ℕ)
      → All P ps
      → next_at height i ps ≡ some q
      → P q × (i < height q)
  unfolding next_at
  next_at-All P i [] q h e = absurd (ground arith)
  next_at-All P i (p ∷ ps) q (hp, hs) e = elim (Bool-cases (ltb i (height p))) [
    | inl t ↦ let s : p ≡ q = ground arith in rw (← s) (hp, ground arith)
    | inr t ↦ next_at-All P i ps q hs (ground arith)
  ]

  pub next_at-append :
      (i : ℕ) (ps qs : List ℕ)
      → next_at height i (ps ++ qs)
        ≡ elim (next_at height i ps) [ none ↦ next_at height i qs | some q ↦ some q ]
  unfolding next_at
  next_at-append i [] qs = refl
  next_at-append i (p ∷ ps) qs = ground (arith, next_at-append i ps qs)

  pub last_at-append :
      (i p : ℕ) (ps qs : List ℕ)
      → last_at height i p (ps ++ qs) ≡ last_at height i (last_at height i p ps) qs
  unfolding last_at
  last_at-append i p [] qs = refl
  last_at-append i p (q ∷ ps) qs = last_at-append i (if ltb i (height q) then q else p) ps qs

  -- No node behind the last one is tall enough.
  pub last_at_short :
      (i p : ℕ) (ps : List ℕ) → All (λ q. height q ≤ i) ps → last_at height i p ps ≡ p
  unfolding last_at
  last_at_short i p [] h = refl
  last_at_short i p (q ∷ ps) (hq, hs) =
      let t : ltb i (height q) ≡ false = ground (arith, hq) in rw t (last_at_short i p ps hs)

pub Linked-parts :
    (forward : ℕ → ℕ → Option ℕ) (height : ℕ → ℕ) (p : ℕ) (ps : List ℕ)
    → Linked forward height (p ∷ ps)
    → ((i : ℕ) → i < height p → forward p i ≡ next_at height i ps) × Linked forward height ps
unfolding Linked
Linked-parts forward height p ps h = h
