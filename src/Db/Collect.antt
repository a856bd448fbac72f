-- ===== src/Db/Collect.antt =====
-- What a compaction keeps shows every live snapshot the same values.
use keystone_db.Prelude.{
  ℕ, ◌+◌, ◌≤◌, ◌≡◌, refl, sym, ap, ◌∙◌, List, [], ◌∷◌, arith, Bool, true, false, not, ◌&&◌,
  Bool-cases, inl, inr, ◌⊎◌, All, All-map, ltb, leb, if◌then◌else◌,
}
use keystone_db.Prelude.Keys.{
  Bytes, key_lt, key_eq, key_eq_refl, key_eq→eq, key_lt_trans, key_lt→not_eq,
}
use keystone_db.Sstable.{Entry}
use keystone_db.Sstable.Reader.{nothing}
use keystone_db.Sstable.Block.{entry_result}
use keystone_db.Db.Retain.{retain_loop, retain, newest, forget, IsAfter, larger, older, IsMerged}

-- The loop only leaves entries out.
module _ {κ} (P : Entry → Type κ) where
  pub retain_loop-All :
      (b : Bool) (o : ℕ) (prev : Bytes) (kept : Bool) (entries : List Entry)
      → All P entries
      → All P (retain_loop b o prev kept entries)
  unfolding retain_loop
  retain_loop-All b o prev kept [] h = tt
  retain_loop-All b o prev kept (e ∷ entries) (he, hs) =
      let is_new = not (key_eq e.key prev) in
      let anchored = if is_new then false else kept in
      let rest =
        retain_loop-All b o (if is_new then e.key else prev)
          (if ltb o e.seq then anchored else true) entries hs in
      elim (Bool-cases
        (if ltb o e.seq then true else if anchored then false else not (e.tombstone && b))) [
          | inl t ↦ rw t (he, rest)
          | inr t ↦ rw t rest
        ]

pub newest_other :
    (key : Bytes) (s : ℕ) (entries : List Entry)
    → All (λ e. key_eq e.key key ≡ false) entries
    → newest key s entries ≡ nothing
unfolding newest
newest_other key s [] h = refl
newest_other key s (e ∷ entries) (he, hs) = rw he (newest_other key s entries hs)

after_other :
    (key : Bytes) (e e' : Entry)
    → key_lt key e.key ≡ true
    → IsAfter e e'
    → key_eq e'.key key ≡ false
after_other key e e' h (larger l) = key_lt→not_eq key e'.key (key_lt_trans key e.key e'.key h l)
after_other key e e' h (older q l) = key_lt→not_eq key e'.key (rw (← q) h)

-- Past an entry of a larger key there is no entry of the key.
pub gone :
    (key : Bytes) (e : Entry) (entries : List Entry)
    → key_lt key e.key ≡ true
    → All (IsAfter e) entries
    → All (λ x. key_eq x.key key ≡ false) (e ∷ entries)
gone key e entries h after = (
  key_lt→not_eq key e.key h,
  All-map (IsAfter e) _ (λ x a. after_other key e x h a) entries after,
)

-- Behind an anchor nothing of its key is kept.
pub anchored-All :
    (b : Bool) (o : ℕ) (anchor : Entry) (entries : List Entry)
    → anchor.seq ≤ o
    → All (IsAfter anchor) entries
    → IsMerged entries
    → All (λ x. key_eq x.key anchor.key ≡ false) (retain_loop b o anchor.key true entries)
unfolding retain_loop IsMerged
anchored-All b o anchor [] l h m = tt
anchored-All b o anchor (e ∷ entries) l (larger lt, hs) m =
    retain_loop-All (λ x. key_eq x.key anchor.key ≡ false) b o anchor.key true (e ∷ entries)
      (gone anchor.key e entries lt m.0)
anchored-All b o anchor (e ∷ entries) l (older q lt, hs) m =
    let same : key_eq e.key anchor.key ≡ true = rw q (key_eq_refl e.key) in
    let below : ltb o e.seq ≡ false = ground (arith, l, lt) in
    rw (same, below) (anchored-All b o anchor entries l hs m.1)

newest-anchored :
    (b : Bool) (o s : ℕ) (anchor : Entry) (entries : List Entry)
    → anchor.seq ≤ o
    → All (IsAfter anchor) entries
    → IsMerged entries
    → newest anchor.key s (retain_loop b o anchor.key true entries) ≡ nothing
newest-anchored b o s anchor entries l h m =
    newest_other anchor.key s _ (anchored-All b o anchor entries l h m)

-- A round of the loop, `anchored` for whether the entry's key has an anchor.
unfoldable pub round : Bool → ℕ → Bool → Entry → List Entry → List Entry
round b o anchored e entries =
    let above = ltb o e.seq in
    let rest = retain_loop b o e.key (if above then anchored else true) entries in
    if (if above then true else if anchored then false else not (e.tombstone && b))
    then e ∷ rest
    else rest

pub retain_loop-round :
    (b : Bool) (o : ℕ) (prev : Bytes) (kept : Bool) (e : Entry) (entries : List Entry)
    → retain_loop b o prev kept (e ∷ entries)
      ≡ round b o (if key_eq e.key prev then kept else false) e entries
unfolding retain_loop round
retain_loop-round b o prev kept e entries = elim (Bool-cases (key_eq e.key prev)) [
  | inl same ↦ rw (same, ← key_eq→eq e.key prev same) refl
  | inr new ↦ rw new refl
]

-- The key that is looked up has no anchor yet.
NoAnchor : Bytes → Bool → Bytes → Type 0
NoAnchor prev kept key = (key_eq prev key ≡ false) ⊎ (kept ≡ false)

not_anchored :
    (prev : Bytes) (kept : Bool) (e : Entry) (key : Bytes)
    → NoAnchor prev kept key
    → key_eq e.key key ≡ true
    → (if key_eq e.key prev then kept else false) ≡ false
unfolding NoAnchor
not_anchored prev kept e key n mine = elim (Bool-cases (key_eq e.key prev)) [
  | inl same ↦
      let q = key_eq→eq e.key prev same in
      elim n [
        | inl other ↦ absurd (ground (arith, ap (λ k. key_eq k key) q))
        | inr free ↦ rw (same, free) refl
      ]
  | inr new ↦ rw new refl
]

forget-dropped :
    (b : Bool) (e : Entry)
    → (e.tombstone && b) ≡ true
    → forget b nothing ≡ forget b (entry_result e)
unfolding forget
forget-dropped false e h = absurd (ground arith)
forget-dropped true e h = elim (Bool-cases e.tombstone) [
  | inl t ↦ rw t refl
  | inr t ↦ absurd (ground (arith, h, t))
]

module _ (b : Bool) (o s : ℕ) (key : Bytes) (le : o ≤ s) where
  -- An entry of another key changes nothing.
  round-other :
      (a : Bool) (e : Entry) (entries : List Entry)
      → key_eq e.key key ≡ false
      → ((kept : Bool)
          → forget b (newest key s (retain_loop b o e.key kept entries))
            ≡ forget b (newest key s entries))
      → forget b (newest key s (round b o a e entries)) ≡ forget b (newest key s entries)
  unfolding round newest
  round-other a e entries other ih =
      let above = ltb o e.seq in
      elim (Bool-cases (if above then true else if a then false else not (e.tombstone && b))) [
        | inl t ↦ rw (t, other) (ih (if above then a else true))
        | inr t ↦ rw t (ih (if above then a else true))
      ]

  -- An entry of the key, which has no anchor yet.
  round-mine :
      (e : Entry) (entries : List Entry)
      → key_eq e.key key ≡ true
      → All (IsAfter e) entries
      → IsMerged entries
      → (forget b (newest key s (retain_loop b o e.key false entries))
          ≡ forget b (newest key s entries))
      → forget b (newest key s (round b o false e entries)) ≡ forget b (newest key s (e ∷ entries))
  unfolding round newest
  round-mine e entries mine after m ih = elim (Bool-cases (ltb o e.seq)) [
    | inl above ↦ elim (Bool-cases (leb e.seq s)) [
      | inl seen ↦ rw (above, mine, seen) refl
      | inr unseen ↦ rw (above, mine, unseen) ih
    ]
    | inr below ↦
        let low : e.seq ≤ o = ground arith in
        let seen : leb e.seq s ≡ true = ground (arith, low, le) in
        let none_left = newest-anchored b o s e entries low after m in
        elim (Bool-cases (e.tombstone && b)) [
          | inl dropped ↦
              let q = key_eq→eq e.key key mine in
              let empty : newest key s (retain_loop b o e.key true entries) ≡ nothing =
                ap (λ k. newest k s (retain_loop b o e.key true entries)) (sym q) ∙ none_left in
              rw (below, dropped, mine, seen, empty) (forget-dropped b e dropped)
          | inr stays ↦ rw (below, stays, mine, seen) refl
        ]
  ]

  retain_loop-newest :
      (prev : Bytes) (kept : Bool) (entries : List Entry)
      → NoAnchor prev kept key
      → IsMerged entries
      → forget b (newest key s (retain_loop b o prev kept entries))
        ≡ forget b (newest key s entries)
  unfolding newest NoAnchor IsMerged
  retain_loop-newest prev kept [] n m = unfold retain_loop in refl
  retain_loop-newest prev kept (e ∷ entries) n (after, m) =
      rw (retain_loop-round b o prev kept e entries) (elim (Bool-cases (key_eq e.key key)) [
        | inl mine ↦
            let free = not_anchored prev kept e key n mine in
            let ih = retain_loop-newest e.key false entries (inr refl) m in
            rw free (round-mine e entries mine after m ih)
        | inr other ↦
            let ih : (k : Bool)
                → forget b (newest key s (retain_loop b o e.key k entries))
                  ≡ forget b (newest key s entries) =
              λ k. retain_loop-newest e.key k entries (inl other) m in
            rw other (round-other (if key_eq e.key prev then kept else false) e entries other ih)
      ])

-- What a compaction keeps of the merged entries shows every snapshot that is not older than the
-- oldest live one the same value of every key; at the bottommost level a key whose version is a
-- tombstone may be gone instead.
pub retain-newest :
    (bottommost : Bool) (oldest_snap snapshot_seq : ℕ) (key : Bytes) (entries : List Entry)
    → oldest_snap ≤ snapshot_seq
    → IsMerged entries
    → forget bottommost (newest key snapshot_seq (retain bottommost oldest_snap entries))
      ≡ forget bottommost (newest key snapshot_seq entries)
unfolding retain
retain-newest bottommost oldest_snap snapshot_seq key entries le m =
    retain_loop-newest bottommost oldest_snap snapshot_seq key le [] false entries
      (unfold NoAnchor in inr refl) m

newest-snapshot :
    (key : Bytes) (s s' : ℕ) (entries : List Entry)
    → s ≤ s'
    → All (λ e. e.seq ≤ s) entries
    → newest key s entries ≡ newest key s' entries
unfolding newest
newest-snapshot key s s' [] le h = refl
newest-snapshot key s s' (e ∷ entries) le (he, hs) =
    let ih = newest-snapshot key s s' entries le hs in
    let seen : leb e.seq s ≡ true = ground (arith, he) in
    let seen' : leb e.seq s' ≡ true = ground (arith, he, le) in rw (seen, seen', ih) refl

-- A snapshot that sees every merged entry, as one that is taken later does, keeps its values
-- too, whatever the oldest live snapshot was; at the bottommost level a key whose version is a
-- tombstone may be gone instead.
pub retain-newest_later :
    (bottommost : Bool) (oldest_snap snapshot_seq : ℕ) (key : Bytes) (entries : List Entry)
    → All (λ e. e.seq ≤ snapshot_seq) entries
    → IsMerged entries
    → forget bottommost (newest key snapshot_seq (retain bottommost oldest_snap entries))
      ≡ forget bottommost (newest key snapshot_seq entries)
retain-newest_later bottommost oldest_snap snapshot_seq key entries seen m =
    let top = oldest_snap + snapshot_seq in
    let kept = retain bottommost oldest_snap entries in
    let seen_kept : All (λ e. e.seq ≤ snapshot_seq) kept =
      unfold retain in
      retain_loop-All (λ e. e.seq ≤ snapshot_seq) bottommost oldest_snap [] false entries seen in
    let whole = newest-snapshot key snapshot_seq top entries (omega arith) seen in
    let part = newest-snapshot key snapshot_seq top kept (omega arith) seen_kept in
    ap (forget bottommost) part
    ∙ retain-newest bottommost oldest_snap top key entries (omega arith) m
    ∙ ap (forget bottommost) (sym whole)
