-- ===== src/Memtable/Search.antt =====
-- The walks of the skip list: on each level they stop at the last node in front of the place that
-- is searched.
use keystone_db.Prelude.{
  ℕ, zero, suc, ◌≤◌, ◌<◌, ◌≡◌, ◌≢◌, refl, sym, ap, ◌∙◌, List, [], ◌∷◌, ◌++◌, arith, true, false,
  some, Bool-cases, Option-cases, inl, inr, All, length, get_or, set, get_or-set_self,
  get_or-set_ne, length-set, ltb, ◌==◌, if◌then◌else◌,
}
use keystone_db.Prelude.Keys.{Bytes}
use keystone_db.Memtable.{Node, head, node_at, entry_at, forward_at, key_less, walk, descend}
use keystone_db.Memtable.Chain.{next_at, last_at, Linked, next_at-All}

abbrev pub height_at : List Node → ℕ → ℕ
height_at nodes p = length (node_at nodes p).forward

-- The nodes `below` the place and the ones from it on.
module _ (nodes : List Node) (key : Bytes) (seq : ℕ) where
  abbrev pub Less : ℕ → Type 0
  Less p = key_less (entry_at nodes p) key seq ≡ true

  abbrev pub NotLess : ℕ → Type 0
  NotLess p = key_less (entry_at nodes p) key seq ≡ false

module _ (nodes : List Node) (key : Bytes) (seq : ℕ) (below above : List ℕ)
    (stop : All (NotLess nodes key seq) above) where
  walk-last_at :
      (fuel i x : ℕ) (rest : List ℕ)
      → length rest ≤ fuel
      → forward_at nodes x i ≡ next_at (height_at nodes) i (rest ++ above)
      → Linked (forward_at nodes) (height_at nodes) (rest ++ above)
      → All (Less nodes key seq) rest
      → walk fuel nodes key seq i x ≡ last_at (height_at nodes) i x rest
  unfolding walk last_at next_at Linked
  walk-last_at zero i x [] l f k h = refl
  walk-last_at zero i x (q ∷ rest) l f k h = absurd (omega arith)
  walk-last_at (suc fuel) i x [] l f k h = elim (Option-cases (forward_at nodes x i)) [
    | inl e ↦ rw (walk, e) refl
    | inr (q, e) ↦
        let (n, tall) =
          next_at-All (height_at nodes) (NotLess nodes key seq) i above q stop (sym f ∙ e) in
        rw (walk, e, n) refl
  ]
  walk-last_at (suc fuel) i x (q ∷ rest) l f (links, k) (hq, hs) =
      elim (Bool-cases (ltb i (height_at nodes q))) [
        | inl t ↦
            let e : forward_at nodes x i ≡ some q = f ∙ (rw t refl) in
            let ih = walk-last_at fuel i q rest (omega arith) (links i (ground arith)) k hs in
            rw (t, walk, e, hq) ih
        | inr t ↦
            let e : forward_at nodes x i ≡ next_at (height_at nodes) i (rest ++ above) =
              f ∙ (rw t refl) in
            rw t (walk-last_at (suc fuel) i x rest (omega arith) e k hs)
      ]

  -- A node in front of the place, and the nodes between it and the place.
  pub record Here (x : ℕ) (rest : List ℕ) : Type 0 where
    pub links :
        (i : ℕ)
        → i < height_at nodes x
        → forward_at nodes x i ≡ next_at (height_at nodes) i (rest ++ above)
    pub linked : Linked (forward_at nodes) (height_at nodes) (rest ++ above)
    pub less : All (Less nodes key seq) rest
    pub size : length rest ≤ length below
    pub lasts :
        (i : ℕ)
        → (y : ℕ) × (last_at (height_at nodes) i head below
            ≡ last_at (height_at nodes) i y (x ∷ rest))

  Here-next : (x q : ℕ) (rest : List ℕ) → Here x (q ∷ rest) → Here q rest
  unfolding Linked last_at
  Here-next x q rest h = record {
    links = h.linked.0;
    linked = h.linked.1;
    less = h.less.1;
    size = omega (arith, h.size);
    lasts = λ i. let (y, e) = h.lasts i in (if ltb i (height_at nodes x) then x else y, e);
  }

  Here-last_at :
      (i p : ℕ) (rest_p : List ℕ) (cur : ℕ) (rest : List ℕ)
      → Here p rest_p
      → i < height_at nodes p
      → Here cur rest
      → (rest' : List ℕ) × Here (last_at (height_at nodes) i p rest) rest'
        × (i < height_at nodes (last_at (height_at nodes) i p rest))
  unfolding last_at
  Here-last_at i p rest_p cur [] hp tall h = (rest_p, hp, tall)
  Here-last_at i p rest_p cur (q ∷ rest) hp tall h =
      let hq = Here-next cur q rest h in
      elim (Bool-cases (ltb i (height_at nodes q))) [
        | inl t ↦ rw t (Here-last_at i q rest q rest hq (ground arith) hq)
        | inr t ↦ rw t (Here-last_at i p rest_p q rest hp tall hq)
      ]

  Here-lasts :
      (i x : ℕ) (rest : List ℕ)
      → Here x rest
      → i < height_at nodes x
      → last_at (height_at nodes) i head below ≡ last_at (height_at nodes) i x rest
  unfolding last_at
  Here-lasts i x rest h tall =
      let (y, e) = h.lasts i in
      let t : ltb i (height_at nodes x) ≡ true = ground (arith, tall) in e ∙ (rw t refl)

  noted :
      (update : List ℕ) (i stop j d : ℕ) (last : ℕ → ℕ)
      → i < length update
      → last i ≡ stop
      → (if ltb j i then last j else get_or (set update i stop) j d)
        ≡ (if ltb j (suc i) then last j else get_or update j d)
  noted update i stop j d last fits e = elim (Bool-cases (j == i)) [
    | inl same ↦
        let q : j ≡ i = ground arith in
        let no_lt : ltb i i ≡ false = ground arith in
        let lt : ltb i (suc i) ≡ true = ground arith in
        rw (q, no_lt, lt, get_or-set_self update i stop d fits) (sym e)
    | inr other ↦
        let ne : i ≢ j = λ q. absurd (ground (arith, q, other)) in
        rw (get_or-set_ne update i j stop d ne) (ground (arith, other))
  ]

  -- The loop over the levels below `n` ends at the last node in front of the place, and notes the
  -- last one on each of these levels.
  pub descend-last_at :
      (n x : ℕ) (rest update : List ℕ)
      → Here x rest
      → n ≤ height_at nodes x
      → length below ≤ length nodes
      → ((descend n nodes key seq x update).0
          ≡ (if n == 0 then x else last_at (height_at nodes) 0 head below))
        × (n ≤ length update
            → (j d : ℕ)
            → get_or (descend n nodes key seq x update).1 j d
              ≡ (if ltb j n then last_at (height_at nodes) j head below else get_or update j d))
  unfolding descend
  descend-last_at zero x rest update h tall room = (refl, λ fits j d. ground arith)
  descend-last_at (suc i) x rest update h tall room =
      let last = last_at (height_at nodes) i x rest in
      let w : walk (length nodes) nodes key seq i x ≡ last =
        walk-last_at (length nodes) i x rest (omega (arith, h.size, room))
          (h.links i (omega (arith, tall))) h.linked h.less in
      let (rest', h', tall') = Here-last_at i x rest x rest h (omega (arith, tall)) h in
      let whole = Here-lasts i x rest h (omega (arith, tall)) in
      let (ends, notes) =
        descend-last_at i last rest' (set update i last) h' (omega (arith, tall')) room in
      let step : descend (suc i) nodes key seq x update
          ≡ descend i nodes key seq last (set update i last) =
        ap (λ (y : ℕ). descend i nodes key seq y (set update i y)) w in
      let z : (if i == 0 then last else last_at (height_at nodes) 0 head below)
          ≡ last_at (height_at nodes) 0 head below =
        elim (Bool-cases (i == 0)) [
          | inl z ↦
              let q : i ≡ 0 = ground arith in
              rw z (sym whole ∙ ap (λ k. last_at (height_at nodes) k head below) q)
          | inr z ↦ rw z refl
        ] in
      let ne : (suc i == 0) ≡ false = ground arith in
      (
        ap (λ (r : ℕ × List ℕ). r.0) step ∙ ends ∙ z ∙ (rw ne refl),
        λ fits j d.
            ap (λ (r : ℕ × List ℕ). get_or r.1 j d) step
            ∙ notes (omega (arith, fits, length-set update i last)) j d
            ∙ noted update i last j d (λ k. last_at (height_at nodes) k head below) fits whole,
      )
