-- ===== src/Db/Store/Tests.antt =====
-- Runs of the write path.
use keystone_db.Prelude.{
  ℕ, ◌≤◌, ◌<◌, ◌≡◌, refl, List, [], ◌∷◌, ◌++◌, arith, Bool, true, false, none, some, take, All,
}
use keystone_db.Prelude.Keys.{compare_keys}
use keystone_db.Wal.{Record, every_write, rec_put, rec_delete, replay}
use keystone_db.Wal.Durable.{IsLog}
use keystone_db.Memtable.{insert_node, random_level, key_less, new_memtable, put, del, raw_entries}
use keystone_db.Memtable.Run.{apply_write, apply_writes}
use keystone_db.Db.{Options}
use keystone_db.Db.Store.{
  WriteRequest, Store, empty_store, Event, request, leads, applies, checks, answers, run, arrivals,
  recover,
}
use keystone_db.Db.Store.Replayed.{insert_records}
use keystone_db.Db.Store.Applied.{WhenSynced, IsHeld}
use keystone_db.Db.Store.Runs.{IsRequest, IsOrdered, run-IsOrdered, run-IsHeld, recover-run}

abbrev pub opts : Options
opts = record {
  sync = every_write;
  flush_threshold_bytes = 1000;
  compaction_trigger = 4;
  block_cache_bytes = 0;
  target_file_size = 1000;
  l1_max_bytes = 1000;
  level_size_multiplier = 10;
}

abbrev put_request : ℕ → ℕ → WriteRequest
put_request key value = record {
  type = rec_put;
  key = key ∷ [];
  value = value ∷ [];
  seq = 0;
  coins = true ∷ false ∷ [];
}

abbrev del_request : ℕ → WriteRequest
del_request key = record { type = rec_delete; key = key ∷ []; value = []; seq = 0; coins = [] }

-- The second batch is in the log and in the memtable, and not yet answered; a request waits.
abbrev events : List Event
events =
    request (put_request 1 10)
    ∷ request (put_request 2 20)
    ∷ leads
    ∷ request (del_request 1)
    ∷ applies
    ∷ checks
    ∷ answers
    ∷ leads
    ∷ applies
    ∷ request (put_request 3 30)
    ∷ []

abbrev state_after : List Event → Store
state_after events = elim (run events (empty_store opts)) [ none ↦ empty_store opts | some s ↦ s ]

run-events : run events (empty_store opts) ≡ some (state_after events)
unfolding run empty_store apply_writes apply_write put del new_memtable
run-events = refl

abbrev seqs : List WriteRequest → List ℕ
seqs [] = []
seqs (r ∷ batch) = r.seq ∷ seqs batch

answered_seqs : seqs (state_after events).answered ≡ 1 ∷ 2 ∷ []
unfolding run empty_store apply_writes apply_write put del new_memtable
answered_seqs = refl

raw_after :
    raw_entries (state_after events).memtable
    ≡ record { key = 1 ∷ []; value = []; tombstone = true; seq = 3 }
      ∷ record { key = 1 ∷ []; value = 10 ∷ []; tombstone = false; seq = 1 }
      ∷ record { key = 2 ∷ []; value = 20 ∷ []; tombstone = false; seq = 2 }
      ∷ []
unfolding run empty_store apply_writes apply_write put del new_memtable raw_entries insert_node
    random_level key_less compare_keys
raw_after = refl

put_request-IsRequest :
    (key value : ℕ) → key < 256 → value < 256 → IsRequest (put_request key value)
put_request-IsRequest key value k v = record {
  type = omega arith;
  key = omega arith;
  value = omega arith;
  key_bytes = (k, tt);
  value_bytes = (v, tt);
}

del_request-IsRequest : (key : ℕ) → key < 256 → IsRequest (del_request key)
del_request-IsRequest key k = record {
  type = omega arith;
  key = omega arith;
  value = omega arith;
  key_bytes = (k, tt);
  value_bytes = tt;
}

events-IsRequest : All IsRequest (arrivals events)
unfolding arrivals
events-IsRequest = (
  put_request-IsRequest 1 10 (omega arith) (omega arith),
  (
    put_request-IsRequest 2 20 (omega arith) (omega arith),
    (
      del_request-IsRequest 1 (omega arith),
      (put_request-IsRequest 3 30 (omega arith) (omega arith), tt),
    ),
  ),
)

run-IsOrdered_example : IsOrdered (arrivals events) (state_after events)
run-IsOrdered_example = run-IsOrdered opts events (state_after events) events-IsRequest run-events

run-IsHeld_example : IsHeld opts [] (state_after events)
run-IsHeld_example = run-IsHeld opts events (state_after events) events-IsRequest run-events

-- The crash leaves what was durable.
abbrev coins_of : Record → List Bool
coins_of r = true ∷ []

abbrev left : ℕ
left = (state_after events).wal.synced

recover-run_example :
    (acked : List Record) × (pending : List Record) × (m : ℕ) × IsLog
      (state_after events).wal
      acked
      pending
    × (raw_entries (state_after events).memtable ≡ insert_records (acked ++ pending) [])
    × WhenSynced opts.sync (pending ≡ [])
    × (replay (some (take left (state_after events).wal.file)) ≡ acked ++ take m pending)
    × (raw_entries (recover coins_of (replay (some (take left (state_after events).wal.file)))).0
        ≡ insert_records (acked ++ take m pending) [])
    × All
        (λ r.
          r.seq ≤ (recover coins_of (replay (some (take left (state_after events).wal.file)))).1)
        (acked ++ take m pending)
    × WhenSynced opts.sync (
        raw_entries (recover coins_of (replay (some (take left (state_after events).wal.file)))).0
        ≡ raw_entries (state_after events).memtable)
recover-run_example =
    recover-run opts events (state_after events) left coins_of events-IsRequest run-events
      (omega arith)
