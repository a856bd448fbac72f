-- ===== src/Sstable/Passed.antt =====
-- Which entries a seek passes over: where the entries are in key order and one of them at most has the
-- sought key, those in front of the block that find_block_idx finds are all below the key.
use keystone_db.Prelude.{
  ℕ, zero, suc, ◌<◌, ◌≡◌, refl, sym, ap, ◌∙◌, List, [], ◌∷◌, ◌++◌, arith, true, false, ◌&&◌, inl,
  inr, All, All-split, Option-cases, length, length-take, take, drop, take-append-drop,
}
use keystone_db.Prelude.Keys.{Bytes, key_le, key_lt, key_eq, key_lt_of_once}
use keystone_db.Sstable.{Entry, IndexEntry}
use keystone_db.Sstable.Reader.{find_block_idx, first_key_at}
use keystone_db.Sstable.Search.{find_block_idx-some}
use keystone_db.Sstable.Iterator.{block_or_first}
use keystone_db.Sstable.Blocks.{
  all_entries, all_entries-append, Indexed, Indexed-at, Indexed-first_key, Indexed-length,
}
use keystone_db.Sstable.Seek.{skip_less}

-- The second entry is not below the first, and they do not both have the sought key.
pub record IsBehind (target : Bytes) (e x : Entry) : Type 0 where
  pub order : key_le e.key x.key ≡ true
  pub once : (key_eq e.key target && key_eq x.key target) ≡ false

-- The entries are in key order, and one of them at most has the sought key.
unfoldable pub IsSeekable : Bytes → List Entry → Type 0
IsSeekable target [] = Unit {0}
IsSeekable target (e ∷ entries) = All (IsBehind target e) entries × IsSeekable target entries

abbrev IsBelow : Bytes → Entry → Type 0
IsBelow target e = key_lt e.key target ≡ true

-- The entries in front of one up to the target are below it.
IsSeekable-All :
    (target : Bytes) (front : List Entry) (e : Entry) (back : List Entry)
    → IsSeekable target (front ++ (e ∷ back))
    → key_le e.key target ≡ true
    → All (IsBelow target) front
unfolding IsSeekable
IsSeekable-All target [] e back h k = tt
IsSeekable-All target (x ∷ front) e back (hx, h) k =
    let (_, behind) = All-split (IsBehind target x) front (e ∷ back) hx in
    (
      key_lt_of_once x.key e.key target behind.0.order k behind.0.once,
      IsSeekable-All target front e back h k,
    )

skip_less-append :
    (target : Bytes) (front back : List Entry)
    → All (IsBelow target) front
    → skip_less target (front ++ back) ≡ skip_less target back
unfolding skip_less
skip_less-append target [] back h = refl
skip_less-append target (x ∷ front) back (hx, h) = rw hx (skip_less-append target front back h)

pub drop-cons :
    (n : ℕ) (blocks : List (List Entry))
    → n < length blocks
    → (b : List Entry) × (rest : List (List Entry)) × (drop n blocks ≡ b ∷ rest)
drop-cons n [] l = absurd (omega (arith, l))
drop-cons zero (b ∷ blocks) l = (b, blocks, refl)
drop-cons (suc n) (b ∷ blocks) l = drop-cons n blocks (omega (arith, l))

-- The blocks in front of one that begins up to the target are passed over.
passed-at :
    (index : List IndexEntry) (blocks : List (List Entry)) (target : Bytes) (i : ℕ) (b : List Entry)
    (rest : List (List Entry))
    → Indexed 0 index blocks
    → IsSeekable target (all_entries blocks)
    → i < length blocks
    → key_le (first_key_at index i) target ≡ true
    → drop i blocks ≡ b ∷ rest
    → skip_less target (all_entries (drop i blocks)) ≡ skip_less target (all_entries blocks)
unfolding all_entries
passed-at index blocks target i [] rest h order l k d =
    let split : blocks ≡ take i blocks ++ ([] ∷ rest) =
      sym (take-append-drop i blocks) ∙ ap (λ r. take i blocks ++ r) d in
    absurd (omega (arith, (Indexed-at 0 index (take i blocks) [] rest (rw split at h)).2))
passed-at index blocks target i (e ∷ es) rest h order l k d =
    let front = take i blocks in
    let split : blocks ≡ front ++ ((e ∷ es) ∷ rest) =
      sym (take-append-drop i blocks) ∙ ap (λ r. front ++ r) d in
    let size : length front ≡ i = omega (arith, length-take i blocks, l) in
    let at_front : first_key_at index (length front) ≡ e.key =
      Indexed-first_key 0 index front (e ∷ es) rest (rw split at h) in
    let first : first_key_at index i ≡ e.key = ap (first_key_at index) (sym size) ∙ at_front in
    let up : key_le e.key target ≡ true = ap (λ x. key_le x target) (sym first) ∙ k in
    let every = ap all_entries split ∙ all_entries-append front ((e ∷ es) ∷ rest) in
    let below =
      IsSeekable-All target (all_entries front) e (es ++ all_entries rest) (rw every at order) up in
    ap (λ bs. skip_less target (all_entries bs)) d
    ∙ sym (skip_less-append target (all_entries front) (all_entries ((e ∷ es) ∷ rest)) below)
    ∙ ap (skip_less target) (sym every)

pub passed :
    (index : List IndexEntry) (blocks : List (List Entry)) (target : Bytes)
    → Indexed 0 index blocks
    → IsSeekable target (all_entries blocks)
    → skip_less target (all_entries (drop (block_or_first (find_block_idx index target)) blocks))
      ≡ skip_less target (all_entries blocks)
passed index blocks target h order = elim (Option-cases (find_block_idx index target)) [
  | inl e ↦ rw e refl
  | inr (i, e) ↦
      let (l, k, _) = find_block_idx-some index target i e in
      let inside : i < length blocks = omega (arith, l, Indexed-length 0 index blocks h) in
      let (b, rest, d) = drop-cons i blocks inside in
      rw e (passed-at index blocks target i b rest h order inside k d)
]
