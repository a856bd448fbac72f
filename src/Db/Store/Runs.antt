-- ===== src/Db/Store/Runs.antt =====
-- Any events of any threads from an empty directory on, and a crash behind them.
use keystone_db.Prelude.{
  ◌+◌, ◌%◌, ◌^◌, ℕ, ◌≤◌, ◌<◌, ◌≡◌, refl, sym, ap, ◌∙◌, List, [], ◌∷◌, ◌++◌, append_assoc,
  append-nil, arith, Bool, some, inl, inr, Option-cases, length, take, take-nil, All, All-split,
}
use keystone_db.Prelude.Keys.{Bytes, IsByte}
use keystone_db.Wal.{SyncMode, Record, max_length, open_wal, encode_batch, replay}
use keystone_db.Wal.Log.{valid_end}
use keystone_db.Wal.RoundTrip.{IsRecord}
use keystone_db.Wal.Durable.{IsLog, Survives, replay-crash}
use keystone_db.Memtable.{raw_entries, new_memtable}
use keystone_db.Memtable.Run.{new_memtable-raw, new_memtable-WellFormed}
use keystone_db.Db.{Options}
use keystone_db.Db.Store.{
  WriteRequest, Store, default_height, empty_store, assign, seq_after, record_of, records_of, Event,
  request, step, run, arrivals, batch_of, recover,
}
use keystone_db.Db.Store.Numbers.{assign-All, Consecutive, assign-Consecutive, seq_after-length}
use keystone_db.Db.Store.Numbered.{IsNumbered, step-IsNumbered}
use keystone_db.Db.Store.Replayed.{insert_records, recover_loop-insert_records}
use keystone_db.Db.Store.Applied.{
  WhenSynced, WhenSynced-all, WhenSynced-map, concat, segment_files, table_files, IsHeld,
}
use keystone_db.Db.Store.Held.{step-IsHeld}

-- A request that the log's format can hold.
pub record IsRequest (r : WriteRequest) : Type 0 where
  pub type : IsByte r.type
  pub key : length r.key ≤ max_length
  pub value : length r.value ≤ max_length
  pub key_bytes : All IsByte r.key
  pub value_bytes : All IsByte r.value

IsRequest-numbered :
    (r : WriteRequest) (n : ℕ)
    → n < 2 ^ 64
    → IsRequest r
    → IsRecord (record_of (record r { seq = n }))
IsRequest-numbered r n l h = record {
  type = h.type;
  seq = l;
  key = h.key;
  value = h.value;
  key_bytes = h.key_bytes;
  value_bytes = h.value_bytes;
}

records_of-All :
    (batch : List WriteRequest)
    → All (λ r. IsRecord (record_of r)) batch
    → All IsRecord (records_of batch)
unfolding records_of
records_of-All [] h = tt
records_of-All (r ∷ batch) (hr, hs) = (hr, records_of-All batch hs)

-- The batch in work fits the log's format, since its requests have come in and are numbered.
batch-IsRecord :
    (arrived : List WriteRequest) (s : Store)
    → All IsRequest arrived
    → IsNumbered 1 arrived s
    → All IsRecord (records_of (batch_of s.stage))
batch-IsRecord arrived s fits h =
    let (taken, waiting) = All-split IsRequest h.taken h.waiting (rw (← h.split) fits) in
    let all : All (λ r. IsRecord (record_of r)) (assign 1 h.taken) =
      assign-All IsRequest (λ r. IsRecord (record_of r)) IsRequest-numbered 1 h.taken (omega arith)
        taken in
    let both : All (λ r. IsRecord (record_of r)) (s.answered ++ batch_of s.stage) =
      rw h.numbers all in
    records_of-All (batch_of s.stage)
      (All-split (λ r. IsRecord (record_of r)) s.answered (batch_of s.stage) both).1

arrivals-append : (xs ys : List Event) → arrivals (xs ++ ys) ≡ arrivals xs ++ arrivals ys
unfolding arrivals
arrivals-append [] ys = refl
arrivals-append (request r ∷ xs) ys = ap (λ t. r ∷ t) (arrivals-append xs ys)
arrivals-append (Event.leads ∷ xs) ys = arrivals-append xs ys
arrivals-append (Event.applies ∷ xs) ys = arrivals-append xs ys
arrivals-append (Event.checks ∷ xs) ys = arrivals-append xs ys
arrivals-append (Event.answers ∷ xs) ys = arrivals-append xs ys
arrivals-append (Event.flushes ∷ xs) ys = arrivals-append xs ys

run_from :
    (opts : Options) (files₀ : List Bytes) (events : List Event) (arrived : List WriteRequest)
    (s s' : Store)
    → run events s ≡ some s'
    → All IsRequest (arrived ++ arrivals events)
    → IsNumbered 1 arrived s
    → IsHeld opts files₀ s
    → IsNumbered 1 (arrived ++ arrivals events) s' × IsHeld opts files₀ s'
unfolding run arrivals
run_from opts files₀ [] arrived s s' e fits n h =
    let q : s' ≡ s = ground arith in rw (q, append-nil) (n, h)
run_from opts files₀ (event ∷ events) arrived s s' e fits n h = elim (Option-cases (step event s)) [
  | inl stuck ↦ absurd (ground arith)
  | inr (s₁, e₁) ↦
      let rest : run events s₁ ≡ some s' = ground arith in
      let same : (arrived ++ arrivals (event ∷ [])) ++ arrivals events
          ≡ arrived ++ arrivals (event ∷ events) =
        append_assoc arrived (arrivals (event ∷ [])) (arrivals events)
        ∙ ap (λ t. arrived ++ t) (sym (arrivals-append (event ∷ []) events)) in
      let now = (All-split IsRequest arrived (arrivals (event ∷ events)) fits).0 in
      let n₁ = step-IsNumbered 1 arrived event s s₁ e₁ n in
      let h₁ = step-IsHeld opts files₀ event s s₁ e₁ (batch-IsRecord arrived s now n) h in
      rw (← same) (
        run_from opts files₀ events (arrived ++ arrivals (event ∷ [])) s₁ s' rest (rw same fits) n₁
          h₁)
]

module _ (opts : Options) where
  empty-IsNumbered : IsNumbered 1 [] (empty_store opts)
  unfolding empty_store assign seq_after
  empty-IsNumbered = record {
    taken = [];
    waiting = [];
    split = refl;
    queue = refl;
    numbers = refl;
    next = refl;
  }

  empty-IsHeld : IsHeld opts [] (empty_store opts)
  unfolding empty_store open_wal encode_batch valid_end records_of insert_records concat
      segment_files table_files
  empty-IsHeld = record {
    options = refl;
    segments = [];
    logged = [];
    acked = [];
    pending = [];
    written = refl;
    tables = refl;
    levels = omega arith;
    log = record { file = refl; synced = refl; records = tt };
    records = refl;
    mode = refl;
    durable = WhenSynced-all opts.sync _ refl;
    memtable = new_memtable-WellFormed default_height (omega arith);
    entries = new_memtable-raw default_height;
  }

-- What has become of the requests that came in: the first ones are answered or in the batch in work, with
-- the numbers from 1 on, the batch in work is in front of the queue, and the others wait behind it.
pub record IsOrdered (arrived : List WriteRequest) (s : Store) : Type 0 where
  pub taken : List WriteRequest
  pub waiting : List WriteRequest
  pub split : arrived ≡ taken ++ waiting
  pub queue : s.write_queue ≡ batch_of s.stage ++ waiting
  pub numbers : Consecutive 1 taken (s.answered ++ batch_of s.stage)
  pub next : s.next_seq ≡ (1 + length taken) % 2 ^ 64

-- After any events of any threads from an empty directory on, the requests that came in first are those that
-- are answered or in the batch in work, in the order in which they came, and their numbers are 1, 2 and so on
-- (modulo 2 ^ 64), where the next number follows; the batch in work is in front of the queue, and behind it
-- wait the others. The requests fit the log's format.
pub run-IsOrdered :
    (opts : Options) (events : List Event) (s : Store)
    → All IsRequest (arrivals events)
    → run events (empty_store opts) ≡ some s
    → IsOrdered (arrivals events) s
run-IsOrdered opts events s fits e =
    let h =
      (run_from opts [] events [] (empty_store opts) s e fits (empty-IsNumbered opts)
        (empty-IsHeld opts)).0 in
    record {
      taken = h.taken;
      waiting = h.waiting;
      split = h.split;
      queue = h.queue;
      numbers = rw h.numbers (assign-Consecutive 1 h.taken);
      next = h.next ∙ seq_after-length 1 h.taken;
    }

-- Then no request that was applied is lost: in their order they are those of the tables of level 0,
-- each the file that was written of its segment's versions, and then those of the log; the memtable
-- holds the versions of the log's records; and with EveryWrite all of them are durable.
pub run-IsHeld :
    (opts : Options) (events : List Event) (s : Store)
    → All IsRequest (arrivals events)
    → run events (empty_store opts) ≡ some s
    → IsHeld opts [] s
run-IsHeld opts events s fits e =
    (run_from opts [] events [] (empty_store opts) s e fits (empty-IsNumbered opts)
      (empty-IsHeld opts)).1

take-nothing :
    (m : ℕ) (acked pending : List Record)
    → pending ≡ []
    → acked ++ take m pending ≡ acked ++ pending
take-nothing m acked pending e =
    ap (λ t. acked ++ take m t) e ∙ ap (λ t. acked ++ t) (take-nil m ∙ sym e)

WhenSynced-at : {m n : SyncMode} (P : Type 0) → m ≡ n → WhenSynced m P → WhenSynced n P
WhenSynced-at P e h = rw e at h

-- The memtable that is rebuilt of records holds their versions, and the number that is found is not smaller
-- than theirs.
recover-insert_records :
    (coins : Record → List Bool) (found records : List Record)
    → found ≡ records
    → (raw_entries (recover coins found).0 ≡ insert_records records [])
      × All (λ r. r.seq ≤ (recover coins found).1) records
unfolding recover
recover-insert_records coins found records e =
    let (_, raw, _, top) =
      recover_loop-insert_records coins records (new_memtable default_height) 0
        (new_memtable-WellFormed default_height (omega arith)) in
    rw e (raw ∙ ap (insert_records records) (new_memtable-raw default_height), top)

-- After any such events the log has some durable records and behind them some pending ones, and the
-- memtable holds the versions of all of them; with EveryWrite none is pending. A crash then leaves at least
-- the durable bytes of the file. DB::open replays of it every durable record and some first part of the
-- pending ones, the memtable that it rebuilds holds the versions of just the replayed records, whatever coins
-- are thrown, and no number of them is larger than the one that it finds.
pub recover-run :
    (opts : Options) (events : List Event) (s : Store) (n : ℕ) (coins : Record → List Bool)
    → All IsRequest (arrivals events)
    → run events (empty_store opts) ≡ some s
    → Survives s.wal n
    → (acked : List Record) × (pending : List Record) × (m : ℕ) × IsLog s.wal acked pending
      × (raw_entries s.memtable ≡ insert_records (acked ++ pending) [])
      × WhenSynced opts.sync (pending ≡ [])
      × (replay (some (take n s.wal.file)) ≡ acked ++ take m pending)
      × (raw_entries (recover coins (replay (some (take n s.wal.file)))).0
          ≡ insert_records (acked ++ take m pending) [])
      × All
          (λ r. r.seq ≤ (recover coins (replay (some (take n s.wal.file)))).1)
          (acked ++ take m pending)
      × WhenSynced opts.sync (
          raw_entries (recover coins (replay (some (take n s.wal.file)))).0
          ≡ raw_entries s.memtable)
recover-run opts events s n coins fits e l =
    let h = run-IsHeld opts events s fits e in
    let (m, found) = replay-crash s.wal h.acked h.pending n h.log l in
    let (raw, top) =
      recover-insert_records coins (replay (some (take n s.wal.file))) (h.acked ++ take m h.pending)
        found in
    let held : raw_entries s.memtable ≡ insert_records (h.acked ++ h.pending) [] =
      h.entries ∙ ap (λ t. insert_records t []) (sym h.records) in
    let durable : WhenSynced opts.sync (h.pending ≡ []) =
      WhenSynced-at (h.pending ≡ []) (ap (λ (o : Options). o.sync) h.options) h.durable in
    (
      h.acked,
      h.pending,
      m,
      h.log,
      held,
      durable,
      found,
      raw,
      top,
      WhenSynced-map opts.sync (h.pending ≡ []) _
          (λ none_pending.
            raw
            ∙ ap (λ t. insert_records t []) (take-nothing m h.acked h.pending none_pending)
            ∙ sym held)
          durable,
    )
