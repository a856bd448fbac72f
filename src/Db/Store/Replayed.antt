-- ===== src/Db/Store/Replayed.antt =====
-- What the records of a log stand for, and that the replay in DB::open rebuilds it.
use keystone_db.Prelude.{
  ℕ, ◌≤◌, ◌≡◌, refl, ap, ◌∙◌, List, [], ◌∷◌, ◌++◌, arith, Bool, All, ltb, if◌then◌else◌,
}
use keystone_db.Wal.{Record}
use keystone_db.Sstable.{Entry}
use keystone_db.Memtable.{Memtable, raw_entries}
use keystone_db.Memtable.Abstract.{insert_entry}
use keystone_db.Memtable.Run.{WellFormed, version, apply_write, insert_all, apply_write-insert}
use keystone_db.Db.Store.{WriteRequest, record_of, records_of, write_of, writes_of, recover_loop}

-- The version of a record, and the sorted versions of records over others.
unfoldable pub version_of : Record → Entry
version_of r = version (write_of r [])

unfoldable pub insert_records : List Record → List Entry → List Entry
insert_records [] entries = entries
insert_records (r ∷ records) entries = insert_records records (insert_entry (version_of r) entries)

pub insert_records-append :
    (xs ys : List Record) (entries : List Entry)
    → insert_records (xs ++ ys) entries ≡ insert_records ys (insert_records xs entries)
unfolding insert_records
insert_records-append [] ys entries = refl
insert_records-append (r ∷ xs) ys entries =
    insert_records-append xs ys (insert_entry (version_of r) entries)

pub insert_all-writes_of :
    (batch : List WriteRequest) (entries : List Entry)
    → insert_all (writes_of batch) entries ≡ insert_records (records_of batch) entries
unfolding insert_all writes_of records_of insert_records version_of
insert_all-writes_of [] entries = refl
insert_all-writes_of (r ∷ batch) entries =
    insert_all-writes_of batch (insert_entry (version (write_of (record_of r) [])) entries)

pub records_of-append :
    (xs ys : List WriteRequest) → records_of (xs ++ ys) ≡ records_of xs ++ records_of ys
unfolding records_of
records_of-append [] ys = refl
records_of-append (r ∷ xs) ys = ap (λ t. record_of r ∷ t) (records_of-append xs ys)

-- The replay inserts the records' versions, whatever coins are thrown, and its number is the
-- largest one.
pub recover_loop-insert_records :
    (coins : Record → List Bool) (records : List Record) (m : Memtable) (top : ℕ)
    → WellFormed m
    → WellFormed (recover_loop coins records m top).0
      × (raw_entries (recover_loop coins records m top).0 ≡ insert_records records (raw_entries m))
      × (top ≤ (recover_loop coins records m top).1)
      × All (λ r. r.seq ≤ (recover_loop coins records m top).1) records
unfolding recover_loop insert_records version_of
recover_loop-insert_records coins [] m top h = (h, refl, omega arith, tt)
recover_loop-insert_records coins (r ∷ records) m top h =
    let (h₁, e₁, _) = apply_write-insert (write_of r (coins r)) m h in
    let next = if ltb top r.seq then r.seq else top in
    let (h₂, e₂, l, all) =
      recover_loop-insert_records coins records (apply_write (write_of r (coins r)) m) next h₁ in
    let a : top ≤ next = ground arith in
    let b : r.seq ≤ next = ground arith in
    (h₂, e₂ ∙ ap (insert_records records) e₁, omega (arith, a, l), (omega (arith, b, l), all))
