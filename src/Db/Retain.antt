-- ===== src/Db/Retain.antt =====
-- The filter of DB::compaction_loop: which versions a compaction keeps.
use keystone_db.Prelude.{
  ℕ, ◌≤◌, ◌≡◌, List, [], ◌∷◌, Bool, true, false, not, ◌&&◌, All, ltb, leb, if◌then◌else◌, ◌∙◌,
  arith,
}
use keystone_db.Prelude.Keys.{Bytes, key_lt_trans, key_lt, key_eq}
use keystone_db.Sstable.{Entry, LookupResult, LookupStatus}
use keystone_db.Sstable.Reader.{nothing}
use keystone_db.Sstable.Block.{entry_result}

-- The loop over the merged entries, with the variables `prev_key` and `kept_anchor`.
unfoldable pub retain_loop : Bool → ℕ → Bytes → Bool → List Entry → List Entry
retain_loop bottommost oldest_snap prev_key kept_anchor [] = []
retain_loop bottommost oldest_snap prev_key kept_anchor (e ∷ entries) =
    let is_new_key = not (key_eq e.key prev_key) in
    let anchored = if is_new_key then false else kept_anchor in
    let above = ltb oldest_snap e.seq in
    let rest =
      retain_loop bottommost oldest_snap (if is_new_key then e.key else prev_key)
        (if above then anchored else true) entries in
    let keep =
      if above then true else if anchored then false else not (e.tombstone && bottommost) in
    if keep then e ∷ rest else rest

unfoldable pub retain : Bool → ℕ → List Entry → List Entry
unfolding retain_loop
retain bottommost oldest_snap entries = retain_loop bottommost oldest_snap [] false entries

-- What a snapshot sees of a key: the first of its versions that is not newer.
unfoldable pub newest : Bytes → ℕ → List Entry → LookupResult
newest key snapshot_seq [] = nothing
newest key snapshot_seq (e ∷ entries) =
    let rest = newest key snapshot_seq entries in
    if key_eq e.key key then (if leb e.seq snapshot_seq then entry_result e else rest) else rest

-- Below the last level a tombstone hides something; at the last level it is as good as nothing.
unfoldable pub forget : Bool → LookupResult → LookupResult
forget false r = r
forget true r = elim r.status [
  | LookupStatus.found ↦ r
  | LookupStatus.deleted ↦ nothing
  | LookupStatus.not_found ↦ nothing
]

-- The order of the merged entries: by key, the newest version first.
pub data IsAfter (e e' : Entry) : Type 0 where
  larger : key_lt e.key e'.key ≡ true → IsAfter e e'
  older : e.key ≡ e'.key → e'.seq ≤ e.seq → IsAfter e e'

unfoldable pub IsMerged : List Entry → Type 0
IsMerged [] = Unit {0}
IsMerged (e ∷ entries) = All (IsAfter e) entries × IsMerged entries

pub IsAfter-trans : (a b c : Entry) → IsAfter a b → IsAfter b c → IsAfter a c
IsAfter-trans a b c (larger h) (larger k) = larger (key_lt_trans a.key b.key c.key h k)
IsAfter-trans a b c (larger h) (older q k) = larger (rw (← q) h)
IsAfter-trans a b c (older q h) (larger k) = larger (rw q k)
IsAfter-trans a b c (older q h) (older r k) = older (q ∙ r) (omega arith)
