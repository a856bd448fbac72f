-- ===== src/Db/Store/Reads.antt =====
-- The table that a flush adds, read back.
use keystone_db.Prelude.{
  List, [], ◌∷◌, ◌++◌, ◌+◌, drop, set, get_or, ◌^◌, ◌<◌, ◌≡◌, refl, ap, arith, some, false, All,
  length, ◌==◌,
}
use keystone_db.Coding.{IsU64}
use keystone_db.Bloom.{new_bloom}
use keystone_db.Bloom.Serial.{IsSmall}
use keystone_db.Sstable.Writer.{Writer, new_writer, flush_block, add_entries, finish}
use keystone_db.Sstable.Open.{opened, open_table}
use keystone_db.Sstable.Block.{IsEntry}
use keystone_db.Sstable.Finish.{
  new_writer-IsWriter, add_entries-IsWriter, table_of, open_table-finish,
}
use keystone_db.Sstable.Iterator.{iterate}
use keystone_db.Sstable.Blocks.{first_key_of}
use keystone_db.Sstable.Range.{last_key_of, finish-range}
use keystone_db.Sstable.EntryRead.{stored_all}
use keystone_db.Sstable.Iterate.{iterate-finish}
use keystone_db.Memtable.{raw_entries}
use keystone_db.Wal.{open_wal}
use keystone_db.Manifest.{encode_snapshot, append_snapshot}
use keystone_db.Memtable.Run.{new_memtable-raw}
use keystone_db.Db.{FileMeta, files_at, version_to_manifest}
use keystone_db.Db.Store.{default_height, Store, install, installed, flush_writer, flush}

abbrev pub written_by : Store → Writer
written_by s = add_entries new_writer (raw_entries s.memtable)

-- What the format of a table can hold.
pub record IsFlushable (w : Writer) : Type 0 where
  pub bytes : 0 < (flush_block w).current_offset
  pub size : length (finish w).file < 2 ^ 64
  pub count : IsU64 w.entry_count
  pub filter : IsSmall (new_bloom (length w.keys) 10)

-- What a flush does to the store: `fm` is the file that it adds.
pub record IsFlushed (s s' : Store) (fm : FileMeta) : Type 0 where
  pub level_0 : files_at s'.version 0 ≡ files_at s.version 0 ++ (fm ∷ [])
  pub levels : drop 1 s'.version.files ≡ drop 1 s.version.files
  pub level : fm.level ≡ 0
  pub range :
      (fm.smallest_key ≡ first_key_of (raw_entries s.memtable))
      × (fm.largest_key ≡ last_key_of [] (raw_entries s.memtable))
  pub number : fm.number ≡ s.next_sst_number
  pub next_number : s'.next_sst_number ≡ s.next_sst_number + 1
  pub content : iterate fm.table ≡ some (stored_all (raw_entries s.memtable))
  pub listed :
      s'.manifest.file ≡ s.manifest.file ++ encode_snapshot (version_to_manifest s'.version.files)
  pub listed_synced : s'.manifest.synced ≡ length s'.manifest.file
  pub log : s'.wal.file ≡ []
  pub memtable : raw_entries s'.memtable ≡ []
  pub queue :
      (s'.write_queue ≡ s.write_queue) × (s'.answered ≡ s.answered) × (s'.next_seq ≡ s.next_seq)

files_at-set :
    (files : List (List FileMeta)) (fm : FileMeta)
    → 0 < length files
    → (get_or (set files 0 (get_or files 0 [] ++ (fm ∷ []))) 0 [] ≡ get_or files 0 [] ++ (fm ∷ []))
      × (drop 1 (set files 0 (get_or files 0 [] ++ (fm ∷ []))) ≡ drop 1 files)
files_at-set [] fm h = absurd (omega (arith, h))
files_at-set (level ∷ files) fm h = (refl, refl)

installed-IsFlushed :
    (s : Store)
    → 0 < length s.version.files
    → All IsEntry (raw_entries s.memtable)
    → (fm : FileMeta) × IsFlushed s
        (installed (flush_writer (raw_entries s.memtable)) (table_of (written_by s)) s)
        fm
unfolding installed open_wal append_snapshot
installed-IsFlushed s l fits =
    let writer = flush_writer (raw_entries s.memtable) in
    let fm : FileMeta = record {
      number = s.next_sst_number;
      level = 0;
      smallest_key = writer.smallest_key;
      largest_key = writer.largest_key;
      table = table_of (written_by s);
    } in
    let (level_0, levels) = files_at-set s.version.files fm l in
    (
      fm,
      record {
        level_0 = level_0;
        levels = levels;
        level = refl;
        range = finish-range (raw_entries s.memtable);
        number = refl;
        next_number = refl;
        content = iterate-finish (raw_entries s.memtable) fits;
        listed = refl;
        listed_synced = refl;
        log = refl;
        memtable = new_memtable-raw default_height;
        queue = (refl, refl, refl);
      },
    )

-- A flush of a memtable that is not empty, whose entries, file size, count and filter fit the format, comes
-- to its end, if the version has a level 0. It adds one file behind those of level 0, with the next number and
-- the keys of the first and the last version for its range, and leaves the other levels; the iteration over its table gives the memtable's versions in order, a tombstone
-- without a value; a synced snapshot behind the MANIFEST lists the new version; the log and the memtable are
-- empty, and queue, answers and numbers as they were.
pub flush-IsFlushed :
    (s : Store)
    → 0 < s.memtable.approx_bytes
    → 0 < length s.version.files
    → All IsEntry (raw_entries s.memtable)
    → IsFlushable (written_by s)
    → (s' : Store) × (fm : FileMeta) × (flush s ≡ some s') × IsFlushed s s' fm
unfolding flush install
flush-IsFlushed s n l fits h =
    let w = written_by s in
    let full : (s.memtable.approx_bytes == 0) ≡ false = ground (arith, n) in
    let read : open_table (finish w).file ≡ opened (table_of w) =
      open_table-finish w
        (add_entries-IsWriter new_writer (raw_entries s.memtable) fits new_writer-IsWriter) h.bytes
        h.size h.count h.filter in
    let (fm, flushed) = installed-IsFlushed s l fits in
    (
      installed (flush_writer (raw_entries s.memtable)) (table_of w) s,
      fm,
      rw (flush, full) (ap (λ o. install (flush_writer (raw_entries s.memtable)) o s) read),
      flushed,
    )
