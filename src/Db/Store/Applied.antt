-- ===== src/Db/Store/Applied.antt =====
-- What a store holds, and what a batch adds to the log: every request that was applied is in a table of
-- level 0 or in the log, and the memtable has the versions of the log's records.
use keystone_db.Prelude.{
  ◌<◌, ◌≡◌, refl, sym, ap, ◌∙◌, List, [], ◌∷◌, ◌++◌, append_assoc, append-nil, arith, length, set,
  get_or, All,
}
use keystone_db.Prelude.Keys.{Bytes}
use keystone_db.Wal.{
  Record, Wal, SyncMode, every_write, batched, write_file, sync, sync_after_write, encode_batch,
  append_batch,
}
use keystone_db.Wal.RoundTrip.{IsRecord}
use keystone_db.Wal.Durable.{IsLog, append_batch-every_write, append_batch-batched}
use keystone_db.Sstable.{Entry}
use keystone_db.Memtable.{raw_entries}
use keystone_db.Memtable.Run.{WellFormed}
use keystone_db.Db.{Options, FileMeta, files_at}
use keystone_db.Db.Store.{
  WriteRequest, Stage, idle, numbered, applied, settled, Store, records_of, flush_writer,
}
use keystone_db.Db.Store.Replayed.{insert_records}

-- What holds where every write is synced.
abbrev pub WhenSynced : SyncMode → Type 0 → Type 0
WhenSynced every_write P = P
WhenSynced batched P = Unit {0}

pub WhenSynced-all : (mode : SyncMode) (P : Type 0) → P → WhenSynced mode P
WhenSynced-all every_write P p = p
WhenSynced-all batched P p = tt

pub WhenSynced-map :
    (mode : SyncMode) (P Q : Type 0) → (P → Q) → WhenSynced mode P → WhenSynced mode Q
WhenSynced-map every_write P Q f p = f p
WhenSynced-map batched P Q f p = tt

abbrev pub applied_of : Stage → List WriteRequest
applied_of idle = []
applied_of (numbered batch) = []
applied_of (applied batch) = batch
applied_of (settled batch) = batch

unfoldable pub concat : List (List WriteRequest) → List WriteRequest
concat [] = []
concat (segment ∷ segments) = segment ++ concat segments

-- The versions of a segment of the log in order, and the file of the table that is flushed of them.
abbrev pub versions_of : List WriteRequest → List Entry
versions_of segment = insert_records (records_of segment) []

unfoldable pub segment_files : List (List WriteRequest) → List Bytes
segment_files [] = []
segment_files (segment ∷ segments) =
    (flush_writer (versions_of segment)).file ∷ segment_files segments

unfoldable pub table_files : List FileMeta → List Bytes
table_files [] = []
table_files (fm ∷ files) = fm.table.file ∷ table_files files

pub record IsHeld (opts : Options) (files₀ : List Bytes) (s : Store) : Type 0 where
  pub options : s.opts ≡ opts
  pub segments : List (List WriteRequest)
  pub logged : List WriteRequest
  pub acked : List Record
  pub pending : List Record
  pub written : s.answered ++ applied_of s.stage ≡ concat segments ++ logged
  pub tables : table_files (files_at s.version 0) ≡ files₀ ++ segment_files segments
  pub levels : 0 < length s.version.files
  pub log : IsLog s.wal acked pending
  pub records : acked ++ pending ≡ records_of logged
  pub mode : s.wal.mode ≡ s.opts.sync
  pub durable : WhenSynced s.opts.sync (pending ≡ [])
  pub memtable : WellFormed s.memtable
  pub entries : raw_entries s.memtable ≡ versions_of logged

pub concat-append : (xs ys : List (List WriteRequest)) → concat (xs ++ ys) ≡ concat xs ++ concat ys
unfolding concat
concat-append [] ys = refl
concat-append (s ∷ xs) ys =
    ap (λ t. s ++ t) (concat-append xs ys) ∙ sym (append_assoc s (concat xs) (concat ys))

pub segment_files-append :
    (xs ys : List (List WriteRequest))
    → segment_files (xs ++ ys) ≡ segment_files xs ++ segment_files ys
unfolding segment_files
segment_files-append [] ys = refl
segment_files-append (s ∷ xs) ys =
    ap (λ t. (flush_writer (versions_of s)).file ∷ t) (segment_files-append xs ys)

pub table_files-append :
    (xs ys : List FileMeta) → table_files (xs ++ ys) ≡ table_files xs ++ table_files ys
unfolding table_files
table_files-append [] ys = refl
table_files-append (fm ∷ xs) ys = ap (λ t. fm.table.file ∷ t) (table_files-append xs ys)

pub table_files-set :
    (files : List (List FileMeta)) (fm : FileMeta)
    → 0 < length files
    → table_files (get_or (set files 0 (get_or files 0 [] ++ (fm ∷ []))) 0 [])
      ≡ table_files (get_or files 0 []) ++ (fm.table.file ∷ [])
unfolding table_files
table_files-set [] fm h = absurd (omega (arith, h))
table_files-set (level ∷ files) fm h = table_files-append level (fm ∷ [])

pub sync_after_write-mode : (w : Wal) (mode : SyncMode) → (sync_after_write w mode).mode ≡ w.mode
unfolding sync_after_write sync
sync_after_write-mode w every_write = refl
sync_after_write-mode w batched = refl

pub append_batch-mode : (w : Wal) (records : List Record) → (append_batch w records).mode ≡ w.mode
unfolding append_batch
append_batch-mode w [] = refl
append_batch-mode w (r ∷ records) =
    sync_after_write-mode (write_file w (encode_batch (r ∷ records))) w.mode

-- A batch that is appended is behind the log's records, and durable where every write is synced.
pub append_batch-IsLog :
    (mode : SyncMode) (w : Wal) (acked pending records : List Record)
    → w.mode ≡ mode
    → WhenSynced mode (pending ≡ [])
    → IsLog w acked pending
    → All IsRecord records
    → (acked' : List Record) × (pending' : List Record) × IsLog
        (append_batch w records)
        acked'
        pending'
      × (acked' ++ pending' ≡ (acked ++ pending) ++ records)
      × WhenSynced mode (pending' ≡ [])
      × ((append_batch w records).mode ≡ mode)
unfolding append_batch
append_batch-IsLog mode w acked pending [] m d h all = (acked, pending, h, sym (append-nil _), d, m)
append_batch-IsLog every_write w acked pending (r ∷ records) m d h all =
    let (h', _) = append_batch-every_write w acked pending r records m h all in
    (
      acked ++ (pending ++ (r ∷ records)),
      [],
      h',
      append-nil _ ∙ sym (append_assoc acked pending (r ∷ records)),
      refl,
      append_batch-mode w (r ∷ records) ∙ m,
    )
append_batch-IsLog batched w acked pending (r ∷ records) m d h all =
    let (h', _) = append_batch-batched w acked pending r records m h all in
    (
      acked,
      pending ++ (r ∷ records),
      h',
      sym (append_assoc acked pending (r ∷ records)),
      tt,
      append_batch-mode w (r ∷ records) ∙ m,
    )
