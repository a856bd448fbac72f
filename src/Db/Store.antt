-- ===== src/Db/Store.antt =====
-- src/db.cpp: the write path. A store is what DB::write, DB::maybe_flush, DB::flush and the
-- recovery in DB::open work on. The threads that call write share it: one of them, the leader, is at
-- some stage of write, the others wait in the queue; each part of write that runs under a lock is
-- one event.
pub mod Numbers
pub mod Numbered
pub mod Replayed
pub mod Flushed
pub mod Applied
pub mod Held
pub mod Runs
pub mod Reads
mod Tests
mod FlushTests
use keystone_db.Prelude.{
  ℕ, ◌+◌, ◌%◌, ◌^◌, List, [], ◌∷◌, ◌++◌, Bool, true, false, not, ◌&&◌, Option, none, some, length,
  set, replicate, drop, max, ltb, leb, ◌==◌, if◌then◌else◌, ◌>>=◌,
}
use keystone_db.Prelude.Keys.{Bytes}
use keystone_db.Wal.{RecType, rec_put, SyncMode, Record, Wal, open_wal, append_batch}
use keystone_db.Manifest.{Manifest, open_manifest, append_snapshot}
use keystone_db.Sstable.{Entry}
use keystone_db.Sstable.Writer.{Writer, new_writer, add_entries, finish}
use keystone_db.Sstable.Reader.{Table}
use keystone_db.Sstable.Open.{Opened, opened, refused, open_table}
use keystone_db.Memtable.{Memtable, new_memtable, raw_entries}
use keystone_db.Memtable.Run.{Write, apply_write, apply_writes}
use keystone_db.Db.{k_max_levels, Options, FileMeta, Version, files_at, version_to_manifest}

-- A caller's request; the coins are those that its node's level will take.
pub record WriteRequest : Type 0 where
  pub type : RecType
  pub key : Bytes
  pub value : Bytes
  pub seq : ℕ
  pub coins : List Bool

-- Where the leader stands: nobody leads, the batch has its numbers, it is in the log and in the
-- memtable, and maybe_flush is over.
pub data Stage : Type 0 where
  idle : Stage
  numbered : List WriteRequest → Stage
  applied : List WriteRequest → Stage
  settled : List WriteRequest → Stage

-- `answered` has the requests whose `done` is set.
pub record Store : Type 0 where
  pub opts : Options
  pub wal : Wal
  pub memtable : Memtable
  pub manifest : Manifest
  pub version : Version
  pub next_sst_number : ℕ
  pub next_seq : ℕ
  pub write_queue : List WriteRequest
  pub stage : Stage
  pub answered : List WriteRequest
  pub compaction_pending : Bool
  pub compaction_running : Bool

-- The memtable's maximal height.
abbrev pub default_height : ℕ
default_height = 12

-- The numbers of a batch, and the number after them.
unfoldable pub assign : ℕ → List WriteRequest → List WriteRequest
assign next_seq [] = []
assign next_seq (r ∷ batch) = record r { seq = next_seq } ∷ assign ((next_seq + 1) % 2 ^ 64) batch

unfoldable pub seq_after : ℕ → List WriteRequest → ℕ
seq_after next_seq [] = next_seq
seq_after next_seq (r ∷ batch) = seq_after ((next_seq + 1) % 2 ^ 64) batch

abbrev pub record_of : WriteRequest → Record
record_of r = record { type = r.type; seq = r.seq; key = r.key; value = r.value }

unfoldable pub records_of : List WriteRequest → List Record
records_of [] = []
records_of (r ∷ batch) = record_of r ∷ records_of batch

-- A record of type Put is put into the memtable, any other is a del.
abbrev pub write_of : Record → List Bool → Write
write_of r coins = record {
  entry = record { key = r.key; value = r.value; tombstone = not (r.type == rec_put); seq = r.seq };
  coins = coins;
}

unfoldable pub writes_of : List WriteRequest → List Write
writes_of [] = []
writes_of (r ∷ batch) = write_of (record_of r) r.coins ∷ writes_of batch

-- The part of write under `write_mu_` before the wait.
unfoldable pub enqueue : WriteRequest → Store → Store
enqueue r s = record s { write_queue = s.write_queue ++ (r ∷ []) }

-- The thread at the front of the queue stops waiting and numbers the batch; the requests are those
-- in the queue.
unfoldable pub lead : Store → Store
unfolding assign seq_after
lead s = elim s.stage [
  | idle ↦ elim s.write_queue [
    | [] ↦ s
    | r ∷ queue ↦
        let batch = assign s.next_seq (r ∷ queue) in
        record s {
          write_queue = batch;
          next_seq = seq_after s.next_seq (r ∷ queue);
          stage = numbered batch;
        }
  ]
  | _ ↦ s
]

-- The part under `mu_`: the log, then the memtable.
unfoldable pub apply_batch : Store → Store
unfolding records_of writes_of
apply_batch s = elim s.stage [
  | numbered batch ↦ record s {
    wal = append_batch s.wal (records_of batch);
    memtable = apply_writes (writes_of batch) s.memtable;
    stage = applied batch;
  }
  | _ ↦ s
]

-- What flush does with the table that it has written and opened.
unfoldable pub installed : Writer → Table → Store → Store
installed writer table s =
    let fm : FileMeta = record {
      number = s.next_sst_number;
      level = 0;
      smallest_key = writer.smallest_key;
      largest_key = writer.largest_key;
      table = table;
    } in
    let new_ver : Version = record {
      files = set s.version.files 0 (files_at s.version 0 ++ (fm ∷ []));
    } in
    let due =
      leb s.opts.compaction_trigger (length (files_at new_ver 0))
      && (not s.compaction_pending && not s.compaction_running) in
    record s {
      next_sst_number = s.next_sst_number + 1;
      manifest = append_snapshot s.manifest (version_to_manifest new_ver.files);
      version = new_ver;
      wal = open_wal [] 0 s.opts.sync;
      memtable = new_memtable default_height;
      compaction_pending = if due then true else s.compaction_pending;
    }

-- `none` is the exception that SSTable::open throws.
unfoldable pub install : Writer → Opened → Store → Option Store
unfolding installed
install writer (refused error) s = none
install writer (opened table) s = some (installed writer table s)

abbrev pub flush_writer : List Entry → Writer
flush_writer entries = finish (add_entries new_writer entries)

unfoldable pub flush : Store → Option Store
unfolding install
flush s =
    let writer = flush_writer (raw_entries s.memtable) in
    if s.memtable.approx_bytes == 0 then some s else install writer (open_table writer.file) s

unfoldable pub maybe_flush : Store → Option Store
unfolding flush
maybe_flush s = if leb s.opts.flush_threshold_bytes s.memtable.approx_bytes then flush s else some s

abbrev pub settle : List WriteRequest → Option Store → Option Store
settle batch none = none
settle batch (some s) = some (record s { stage = settled batch })

unfoldable pub check_flush : Store → Option Store
unfolding maybe_flush
check_flush s = elim s.stage [ applied batch ↦ settle batch (maybe_flush s) | _ ↦ some s ]

-- The last part of write: the batch leaves the queue and its threads return.
unfoldable pub answer_batch : Store → Store
answer_batch s = elim s.stage [
  | settled batch ↦ record s {
    write_queue = drop (length batch) s.write_queue;
    answered = s.answered ++ batch;
    stage = idle;
  }
  | _ ↦ s
]

-- The replay in DB::open: the memtable and the largest number; `coins` are those of each record.
unfoldable pub recover_loop : (Record → List Bool) → List Record → Memtable → ℕ → Memtable × ℕ
recover_loop coins [] memtable max_wal_seq = (memtable, max_wal_seq)
recover_loop coins (rec ∷ records) memtable max_wal_seq =
    recover_loop coins records (apply_write (write_of rec (coins rec)) memtable)
      (if ltb max_wal_seq rec.seq then rec.seq else max_wal_seq)

unfoldable pub recover : (Record → List Bool) → List Record → Memtable × ℕ
unfolding recover_loop
recover coins records = recover_loop coins records (new_memtable default_height) 0

-- What a thread does next: it calls write, leads, applies the batch, checks for a flush, answers;
-- or it calls flush itself.
pub data Event : Type 0 where
  request : WriteRequest → Event
  leads applies checks answers flushes : Event

unfoldable pub step : Event → Store → Option Store
unfolding enqueue lead apply_batch check_flush answer_batch flush
step (request r) s = some (enqueue r s)
step leads s = some (lead s)
step applies s = some (apply_batch s)
step checks s = check_flush s
step answers s = some (answer_batch s)
step flushes s = flush s

unfoldable pub run : List Event → Store → Option Store
unfolding step
run [] s = some s
run (event ∷ events) s = do s₁ ← step event s; run events s₁

-- The requests that came in.
unfoldable pub arrivals : List Event → List WriteRequest
arrivals [] = []
arrivals (request r ∷ events) = r ∷ arrivals events
arrivals (_ ∷ events) = arrivals events

abbrev pub batch_of : Stage → List WriteRequest
batch_of idle = []
batch_of (numbered batch) = batch
batch_of (applied batch) = batch
batch_of (settled batch) = batch

-- What DB::open makes in an empty directory.
unfoldable pub empty_store : Options → Store
empty_store opts = record {
  opts = opts;
  wal = open_wal [] 0 opts.sync;
  memtable = new_memtable default_height;
  manifest = open_manifest [];
  version = record { files = replicate k_max_levels [] };
  next_sst_number = 1;
  next_seq = 1;
  write_queue = [];
  stage = idle;
  answered = [];
  compaction_pending = false;
  compaction_running = false;
}
