-- ===== src/Memtable/Run.antt =====
-- A memtable after any sequence of puts and dels, whatever coins are thrown for the levels.
use keystone_db.Prelude.{
  ℕ, ◌+◌, ◌-◌, ◌^◌, ◌≤◌, ◌<◌, ◌≡◌, refl, sym, ap, ◌∙◌, List, [], ◌∷◌, arith, Bool, true, false,
  none, Bool-cases, inl, inr, length-replicate, get_or-replicate, ltb, if◌then◌else◌,
}
use keystone_db.Prelude.Keys.{Bytes}
use keystone_db.Sstable.{Entry}
use keystone_db.Db.Retain.{newest, IsMerged}
use keystone_db.Memtable.{
  Memtable, new_node, no_entry, raw_from, new_memtable, random_level_loop, random_level,
  insert_node, put, del, lookup, raw_entries, entries, raw_lower_bound, lower_bound,
}
use keystone_db.Memtable.Chain.{next_at, Linked}
use keystone_db.Memtable.Weave.{Distinct}
use keystone_db.Memtable.Abstract.{insert_entry, entries_from_place}
use keystone_db.Memtable.Invariant.{IsMemtable}
use keystone_db.Memtable.Insert.{insert_node-IsMemtable, insert_node-entries_of}
use keystone_db.Memtable.Reads.{
  latest, raw_entries-entries_of, raw_entries-IsMerged, entries-latest, raw_lower_bound-place,
  lower_bound-latest, lookup-newest,
}

-- A put or, with `tombstone`, a del, and the coins that its level takes.
pub record Write : Type 0 where
  pub entry : Entry
  pub coins : List Bool

unfoldable pub apply_write : Write → Memtable → Memtable
apply_write w m =
    let lvl = random_level m.max_height w.coins in
    if w.entry.tombstone
    then del m w.entry.key w.entry.seq lvl
    else put m w.entry.key w.entry.value w.entry.seq lvl

unfoldable pub apply_writes : List Write → Memtable → Memtable
apply_writes [] m = m
apply_writes (w ∷ writes) m = apply_writes writes (apply_write w m)

-- The version that a write puts in.
abbrev pub version : Write → Entry
version w =
    if w.entry.tombstone
    then record { key = w.entry.key; value = []; tombstone = true; seq = w.entry.seq }
    else record { key = w.entry.key; value = w.entry.value; tombstone = false; seq = w.entry.seq }

unfoldable pub insert_all : List Write → List Entry → List Entry
insert_all [] entries = entries
insert_all (w ∷ writes) entries = insert_all writes (insert_entry (version w) entries)

random_level_loop-bounds :
    (max_height lvl : ℕ) (coins : List Bool)
    → lvl ≤ max_height
    → (lvl ≤ random_level_loop max_height lvl coins)
      × (random_level_loop max_height lvl coins ≤ max_height)
unfolding random_level_loop
random_level_loop-bounds max_height lvl [] h = (omega arith, h)
random_level_loop-bounds max_height lvl (coin ∷ coins) h = elim (Bool-cases (ltb lvl max_height)) [
  | inl t ↦
      let (a, b) = random_level_loop-bounds max_height (lvl + 1) coins (ground (arith, t)) in
      elim (Bool-cases coin) [
        | inl c ↦ rw (t, c) (omega (arith, a), b)
        | inr c ↦ rw (t, c) (omega arith, h)
      ]
  | inr t ↦ rw t (omega arith, h)
]

-- A level that is drawn is at least 1 and at most the maximal height.
pub random_level-bounds :
    (max_height : ℕ) (coins : List Bool)
    → 0 < max_height
    → (0 < random_level max_height coins) × (random_level max_height coins ≤ max_height)
unfolding random_level
random_level-bounds max_height coins h =
    let (a, b) = random_level_loop-bounds max_height 1 coins (omega (arith, h)) in
    (omega (arith, a), b)

abbrev pub WellFormed : Memtable → Type 0
WellFormed m = (ps : List ℕ) × IsMemtable m ps

pub new_memtable-WellFormed :
    (max_height : ℕ) → 0 < max_height → WellFormed (new_memtable max_height)
unfolding new_memtable Linked next_at Distinct IsMerged
new_memtable-WellFormed max_height h = (
  [],
  record {
    links = (λ i l. get_or-replicate max_height i none, tt);
    head_height = length-replicate max_height none;
    heights = tt;
    current = (omega arith, omega (arith, h));
    inside = (omega arith, tt);
    distinct = (tt, tt);
    size = omega arith;
    sorted = tt;
  },
)

-- put and del: a node is inserted, and the size is counted up.
inserted :
    (m : Memtable) (e : Entry) (lvl bytes : ℕ)
    → 0 < lvl
    → lvl ≤ m.max_height
    → WellFormed m
    → WellFormed (record (insert_node m e lvl) { approx_bytes = bytes })
      × (raw_entries (record (insert_node m e lvl) { approx_bytes = bytes })
          ≡ insert_entry e (raw_entries m))
      × ((insert_node m e lvl).max_height ≡ m.max_height)
inserted m e lvl bytes low high (ps, h) =
    let h' = insert_node-IsMemtable m ps h e lvl low high in
    let same : raw_entries (record (insert_node m e lvl) { approx_bytes = bytes })
        ≡ raw_entries (insert_node m e lvl) =
      unfold raw_entries in refl in
    (
      (
        _,
        record {
          links = h'.links;
          head_height = h'.head_height;
          heights = h'.heights;
          current = h'.current;
          inside = h'.inside;
          distinct = h'.distinct;
          size = h'.size;
          sorted = h'.sorted;
        },
      ),
      same
          ∙ raw_entries-entries_of (insert_node m e lvl) _ h'
          ∙ insert_node-entries_of m ps h e lvl low high
          ∙ ap (insert_entry e) (sym (raw_entries-entries_of m ps h)),
      unfold insert_node in refl,
    )

-- One write keeps the memtable well formed and inserts its version.
pub apply_write-insert :
    (w : Write) (m : Memtable)
    → WellFormed m
    → WellFormed (apply_write w m)
      × (raw_entries (apply_write w m) ≡ insert_entry (version w) (raw_entries m))
      × ((apply_write w m).max_height ≡ m.max_height)
unfolding apply_write put del
apply_write-insert w m (ps, h) =
    let (c₁, c₂) = h.current in
    let (low, high) = random_level-bounds m.max_height w.coins (omega (arith, c₁, c₂)) in
    elim (Bool-cases w.entry.tombstone) [
      | inl t ↦ rw t (inserted m _ (random_level m.max_height w.coins) _ low high (ps, h))
      | inr t ↦ rw t (inserted m _ (random_level m.max_height w.coins) _ low high (ps, h))
    ]

pub apply_writes-insert_all :
    (writes : List Write) (m : Memtable)
    → WellFormed m
    → WellFormed (apply_writes writes m)
      × (raw_entries (apply_writes writes m) ≡ insert_all writes (raw_entries m))
unfolding apply_writes insert_all
apply_writes-insert_all [] m h = (h, refl)
apply_writes-insert_all (w ∷ writes) m h =
    let (h', same, top) = apply_write-insert w m h in
    let (h'', e) = apply_writes-insert_all writes (apply_write w m) h' in
    (h'', e ∙ ap (insert_all writes) same)

pub new_memtable-raw : (max_height : ℕ) → raw_entries (new_memtable max_height) ≡ []
unfolding new_memtable raw_entries raw_from
new_memtable-raw max_height =
    ap (raw_from 1 (new_node no_entry max_height ∷ [])) (get_or-replicate max_height 0 none)

-- After any puts and dels, whatever coins were thrown, the skip list refines the list into which
-- their versions are inserted: the raw iterator yields that list, which is in order, the default
-- iterator the newest version of each key, and a lookup the newest version that the snapshot sees.
pub apply_writes-refines :
    (max_height : ℕ) (writes : List Write) (key : Bytes) (snapshot_seq : ℕ)
    → 0 < max_height
    → (raw_entries (apply_writes writes (new_memtable max_height)) ≡ insert_all writes [])
      × IsMerged (insert_all writes [])
      × (entries (apply_writes writes (new_memtable max_height)) ≡ latest (insert_all writes []))
      × (lookup (apply_writes writes (new_memtable max_height)) key snapshot_seq
          ≡ newest key snapshot_seq (insert_all writes []))
apply_writes-refines max_height writes key snapshot_seq h =
    let ((ps, wf), e) =
      apply_writes-insert_all writes (new_memtable max_height)
        (new_memtable-WellFormed max_height h) in
    let m = apply_writes writes (new_memtable max_height) in
    let raw : raw_entries m ≡ insert_all writes [] =
      e ∙ ap (insert_all writes) (new_memtable-raw max_height) in
    (
      raw,
      rw (← raw) (raw_entries-IsMerged m ps wf),
      entries-latest m ps wf ∙ ap latest raw,
      lookup-newest m ps wf key snapshot_seq ∙ ap (newest key snapshot_seq) raw,
    )

-- After any puts and dels the raw iterator from a key on yields the versions from the key's place
-- on, and the default one the newest version of each of their keys.
pub apply_writes-lower_bound :
    (max_height : ℕ) (writes : List Write) (key : Bytes)
    → 0 < max_height
    → (raw_lower_bound (apply_writes writes (new_memtable max_height)) key
        ≡ entries_from_place key (2 ^ 64 - 1) (insert_all writes []))
      × (lower_bound (apply_writes writes (new_memtable max_height)) key
          ≡ latest (entries_from_place key (2 ^ 64 - 1) (insert_all writes [])))
apply_writes-lower_bound max_height writes key h =
    let ((ps, wf), e) =
      apply_writes-insert_all writes (new_memtable max_height)
        (new_memtable-WellFormed max_height h) in
    let m = apply_writes writes (new_memtable max_height) in
    let raw : raw_entries m ≡ insert_all writes [] =
      e ∙ ap (insert_all writes) (new_memtable-raw max_height) in
    let place : raw_lower_bound m key ≡ entries_from_place key (2 ^ 64 - 1) (insert_all writes []) =
      raw_lower_bound-place m ps wf key ∙ ap (entries_from_place key (2 ^ 64 - 1)) raw in
    (place, lower_bound-latest m ps wf key ∙ ap latest place)
