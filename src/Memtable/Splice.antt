-- ===== src/Memtable/Splice.antt =====
-- The loop that links a new node into the levels.
use keystone_db.Prelude.{
  ℕ, zero, suc, ◌+◌, ◌≤◌, ◌<◌, ◌≡◌, refl, sym, ap, ◌∙◌, List, arith, true, false, ◌&&◌, Option,
  some, Bool-cases, inl, inr, length, get_or, ltb, leb, ◌==◌, ==_refl, if◌then◌else◌,
}
use keystone_db.Memtable.{Node, head, entry_at, forward_at, set_forward, link}
use keystone_db.Memtable.Search.{height_at}
use keystone_db.Memtable.Store.{
  length-set_forward, entry_at-set_forward, height_at-set_forward, forward_at-set_forward,
}

module _ (n : ℕ) (update : List ℕ) (other : (j : ℕ) → (get_or update j head == n) ≡ false) where
  -- The writes of the rounds from `i` on stay inside the store and the towers.
  pub record Fits (nodes : List Node) (i count : ℕ) : Type 0 where
    pub node : n < length nodes
    pub tall : i + count ≤ height_at nodes n
    pub targets :
        (j : ℕ)
        → i ≤ j
        → j < i + count
        → (get_or update j head < length nodes) × (j < height_at nodes (get_or update j head))

  -- One round.
  round : List Node → ℕ → List Node
  round nodes i =
      let u = get_or update i head in
      set_forward u i (some n) (set_forward n i (forward_at nodes u i) nodes)

  pub record SameNodes (after before : List Node) : Type 0 where
    pub size : length after ≡ length before
    pub heights : (q : ℕ) → height_at after q ≡ height_at before q
    pub entries : (q : ℕ) → entry_at after q ≡ entry_at before q

  round-SameNodes :
      (nodes : List Node) (i count : ℕ) → Fits nodes i (suc count) → SameNodes (round nodes i) nodes
  unfolding round
  round-SameNodes nodes i count f =
      let u = get_or update i head in
      let v = forward_at nodes u i in
      let (inside, tall) = f.targets i (omega arith) (omega arith) in
      let size = length-set_forward n i v nodes in
      record {
        size = length-set_forward u i (some n) (set_forward n i v nodes) ∙ size;
        heights = λ q.
            height_at-set_forward u i (some n) (set_forward n i v nodes)
              (omega (arith, size, inside)) q
            ∙ height_at-set_forward n i v nodes f.node q;
        entries = λ q.
            entry_at-set_forward u i (some n) (set_forward n i v nodes)
              (omega (arith, size, inside)) q
            ∙ entry_at-set_forward n i v nodes f.node q;
      }

  round-forward :
      (nodes : List Node) (i count : ℕ)
      → Fits nodes i (suc count)
      → (q j : ℕ)
      → forward_at (round nodes i) q j ≡ (
          if (get_or update i head == q) && (i == j)
          then some n
          else if (n == q) && (i == j)
          then forward_at nodes (get_or update i head) i
          else forward_at nodes q j)
  unfolding round
  round-forward nodes i count f q j =
      let u = get_or update i head in
      let v = forward_at nodes u i in
      let (inside, tall) = f.targets i (omega arith) (omega arith) in
      let size = length-set_forward n i v nodes in
      let same = height_at-set_forward n i v nodes f.node u in
      forward_at-set_forward u i (some n) (set_forward n i v nodes) (omega (arith, size, inside))
        (omega (arith, same, tall)) q j
      ∙ (rw (forward_at-set_forward n i v nodes f.node (omega (arith, f.tall)) q j) refl)

  Fits-round :
      (nodes : List Node) (i count : ℕ)
      → Fits nodes i (suc count)
      → Fits (round nodes i) (i + 1) count
  Fits-round nodes i count f =
      let s = round-SameNodes nodes i count f in
      record {
        node = omega (arith, s.size, f.node);
        tall = omega (arith, s.heights n, f.tall);
        targets = λ j l h.
            let (inside, tall) = f.targets j (omega arith) (omega arith) in
            (omega (arith, s.size, inside), omega (arith, s.heights (get_or update j head), tall));
      }

  -- What the loop makes of a pointer.
  unfoldable pub linked_pointer : List Node → ℕ → ℕ → ℕ → ℕ → Option ℕ
  linked_pointer nodes i count q j =
      if leb i j && ltb j (i + count)
      then (if n == q
          then forward_at nodes (get_or update j head) j
          else if get_or update j head == q
          then some n
          else forward_at nodes q j)
      else forward_at nodes q j

  round-other :
      (nodes : List Node) (i count : ℕ)
      → Fits nodes i (suc count)
      → (q j : ℕ) → (i == j) ≡ false
      → forward_at (round nodes i) q j ≡ forward_at nodes q j
  round-other nodes i count f q j ne =
      round-forward nodes i count f q j ∙ (elim (Bool-cases (get_or update i head == q)) [
        | inl a ↦ elim (Bool-cases (n == q)) [
          | inl b ↦ rw (ne, a, b) refl
          | inr b ↦ rw (ne, a, b) refl
        ]
        | inr a ↦ elim (Bool-cases (n == q)) [
          | inl b ↦ rw (ne, a, b) refl
          | inr b ↦ rw (ne, a, b) refl
        ]
      ])

  linked_pointer-round :
      (nodes : List Node) (i count : ℕ)
      → Fits nodes i (suc count)
      → (q j : ℕ)
      → linked_pointer (round nodes i) (i + 1) count q j ≡ linked_pointer nodes i (suc count) q j
  unfolding linked_pointer
  linked_pointer-round nodes i count f q j = elim (Bool-cases (i == j)) [
    | inl here ↦
        let e : i ≡ j = ground arith in
        let past : leb (i + 1) j ≡ false = ground (arith, e) in
        let from : leb i j ≡ true = ground (arith, e) in
        let upto : ltb j (i + suc count) ≡ true = ground (arith, e) in
        rw (past, from, upto)
          (round-forward nodes i count f q j ∙ (elim (Bool-cases (n == q)) [
            | inl own ↦
                let nq : n ≡ q = ground arith in
                let c : (get_or update i head == q) ≡ false =
                  ap (λ k. get_or update i head == k) (sym nq) ∙ other i in
                rw (← e, ==_refl i, own, c) refl
            | inr old ↦ elim (Bool-cases (get_or update i head == q)) [
              | inl t ↦ rw (← e, ==_refl i, old, t) refl
              | inr t ↦ rw (← e, ==_refl i, old, t) refl
            ]
          ]))
    | inr there ↦
        let from : leb (i + 1) j ≡ leb i j = ground arith in
        let upto : ltb j (i + 1 + count) ≡ ltb j (i + suc count) = ground arith in
        rw
          (
            from,
            upto,
            round-other nodes i count f (get_or update j head) j there,
            round-other nodes i count f q j there,
          )
          refl
  ]

  pub link-pointer :
      (count i : ℕ) (nodes : List Node)
      → Fits nodes i count
      → SameNodes (link count i n update nodes) nodes
        × ((q j : ℕ)
            → forward_at (link count i n update nodes) q j ≡ linked_pointer nodes i count q j)
  unfolding link round linked_pointer
  link-pointer zero i nodes f = (
    record { size = refl; heights = λ q. refl; entries = λ q. refl },
    λ q j. (elim (Bool-cases (leb i j)) [
      | inl a ↦ let b : ltb j (i + 0) ≡ false = ground (arith, a) in rw (a, b) refl
      | inr a ↦ rw a refl
    ]),
  )
  link-pointer (suc count) i nodes f =
      let s = round-SameNodes nodes i count f in
      let (t, p) = link-pointer count (i + 1) (round nodes i) (Fits-round nodes i count f) in
      (
        record {
          size = t.size ∙ s.size;
          heights = λ q. t.heights q ∙ s.heights q;
          entries = λ q. t.entries q ∙ s.entries q;
        },
        λ q j. p q j ∙ linked_pointer-round nodes i count f q j,
      )
