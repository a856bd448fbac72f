-- ===== src/Db/Store/Held.antt =====
-- Every event keeps what a store holds.
use keystone_db.Prelude.{
  ◌≡◌, refl, sym, ap, ◌∙◌, List, [], ◌∷◌, ◌++◌, append_assoc, append-nil, arith, some, inl, inr,
  All, length-set,
}
use keystone_db.Prelude.Keys.{Bytes}
use keystone_db.Wal.{open_wal, encode_batch}
use keystone_db.Wal.Log.{valid_end}
use keystone_db.Wal.RoundTrip.{IsRecord}
use keystone_db.Sstable.Reader.{Table}
use keystone_db.Memtable.{raw_entries}
use keystone_db.Memtable.Run.{
  insert_all, new_memtable-raw, new_memtable-WellFormed, apply_writes-insert_all,
}
use keystone_db.Db.{Options}
use keystone_db.Db.Store.{
  WriteRequest, Stage, idle, numbered, applied, settled, Store, default_height, records_of,
  writes_of, enqueue, lead, apply_batch, installed, flush_writer, answer_batch, batch_of, Event,
  request, leads, applies, checks, answers, flushes, step,
}
use keystone_db.Db.Store.Replayed.{
  insert_records, insert_records-append, insert_all-writes_of, records_of-append,
}
use keystone_db.Db.Store.Flushed.{Flushes, Checks, Flushes-stage, flush-some, check_flush-some}
use keystone_db.Db.Store.Applied.{
  WhenSynced-all, applied_of, concat, versions_of, segment_files, IsHeld, concat-append,
  segment_files-append, table_files-set, append_batch-IsLog,
}

module _ (opts : Options) (files₀ : List Bytes) where
  -- Only what the store holds, and the requests that were applied, count.
  pub same-IsHeld :
      (s s' : Store)
      → s'.answered ++ applied_of s'.stage ≡ s.answered ++ applied_of s.stage
      → s'.version ≡ s.version
      → s'.wal ≡ s.wal
      → s'.opts ≡ s.opts
      → s'.memtable ≡ s.memtable
      → IsHeld opts files₀ s
      → IsHeld opts files₀ s'
  same-IsHeld s s' a v w o m h = record {
    options = o ∙ h.options;
    segments = h.segments;
    logged = h.logged;
    acked = h.acked;
    pending = h.pending;
    written = a ∙ h.written;
    tables = rw v h.tables;
    levels = rw v h.levels;
    log = rw w h.log;
    records = h.records;
    mode = rw (w, o) h.mode;
    durable = rw o h.durable;
    memtable = rw m h.memtable;
    entries = rw m h.entries;
  }

  installed-IsHeld :
      (s : Store) (table : Table)
      → table.file ≡ (flush_writer (raw_entries s.memtable)).file
      → IsHeld opts files₀ s
      → IsHeld opts files₀ (installed (flush_writer (raw_entries s.memtable)) table s)
  unfolding installed open_wal insert_records valid_end records_of encode_batch concat segment_files
  installed-IsHeld s table f h =
      let file : table.file ≡ (flush_writer (versions_of h.logged)).file =
        f ∙ ap (λ t. (flush_writer t).file) h.entries in
      record {
        options = h.options;
        segments = h.segments ++ (h.logged ∷ []);
        logged = [];
        acked = [];
        pending = [];
        written =
            h.written
            ∙ sym (
                append-nil _
                ∙ concat-append h.segments (h.logged ∷ [])
                ∙ ap (λ t. concat h.segments ++ t) (append-nil h.logged));
        tables =
            table_files-set s.version.files _ h.levels
            ∙ ap (λ t. t ++ (table.file ∷ [])) h.tables
            ∙ append_assoc files₀ (segment_files h.segments) (table.file ∷ [])
            ∙ ap (λ t. files₀ ++ (segment_files h.segments ++ (t ∷ []))) file
            ∙ ap (λ t. files₀ ++ t) (sym (segment_files-append h.segments (h.logged ∷ [])));
        levels = rw length-set h.levels;
        log = record { file = refl; synced = refl; records = tt };
        records = refl;
        mode = refl;
        durable = WhenSynced-all s.opts.sync _ refl;
        memtable = new_memtable-WellFormed default_height (omega arith);
        entries = new_memtable-raw default_height;
      }

  Flushes-IsHeld : (s s' : Store) → Flushes s s' → IsHeld opts files₀ s → IsHeld opts files₀ s'
  unfolding Flushes
  Flushes-IsHeld s s' f h = elim f [
    | inl q ↦ rw q h
    | inr (table, q, e) ↦ rw q (installed-IsHeld s table e h)
  ]

  apply_by :
      (s : Store) (stage : Stage)
      → s.stage ≡ stage
      → All IsRecord (records_of (batch_of s.stage))
      → IsHeld opts files₀ s
      → IsHeld opts files₀ (apply_batch s)
  unfolding apply_batch
  apply_by s idle e all h = rw (apply_batch, e) h
  apply_by s (applied batch) e all h = rw (apply_batch, e) h
  apply_by s (settled batch) e all h = rw (apply_batch, e) h
  apply_by s (numbered batch) e all h =
      let fits : All IsRecord (records_of batch) = rw e at all in
      let (acked', pending', log, records, durable, mode) =
        append_batch-IsLog s.opts.sync s.wal h.acked h.pending (records_of batch) h.mode h.durable
          h.log fits in
      let (memtable, entries) = apply_writes-insert_all (writes_of batch) s.memtable h.memtable in
      rw (apply_batch, e)
        (record {
          options = h.options;
          segments = h.segments;
          logged = h.logged ++ batch;
          acked = acked';
          pending = pending';
          written =
              ap (λ t. t ++ batch)
                (sym (append-nil s.answered)
                  ∙ ap (λ t. s.answered ++ applied_of t) (sym e)
                  ∙ h.written)
              ∙ append_assoc (concat h.segments) h.logged batch;
          tables = h.tables;
          levels = h.levels;
          log = log;
          records =
              records
              ∙ ap (λ t. t ++ records_of batch) h.records
              ∙ sym (records_of-append h.logged batch);
          mode = mode;
          durable = durable;
          memtable = memtable;
          entries =
              entries
              ∙ ap (insert_all (writes_of batch)) h.entries
              ∙ insert_all-writes_of batch (versions_of h.logged)
              ∙ sym (insert_records-append (records_of h.logged) (records_of batch) [])
              ∙ ap (λ t. insert_records t []) (sym (records_of-append h.logged batch));
        })

  lead_by :
      (s : Store) (stage : Stage) (queue : List WriteRequest)
      → s.stage ≡ stage
      → s.write_queue ≡ queue
      → IsHeld opts files₀ s
      → IsHeld opts files₀ (lead s)
  unfolding lead
  lead_by s idle [] e q h = rw (lead, e, q) h
  lead_by s idle (r ∷ queue) e q h =
      rw (lead, e, q)
        (same-IsHeld s _ (ap (λ t. s.answered ++ applied_of t) (sym e)) refl refl refl refl h)
  lead_by s (numbered batch) queue e q h = rw (lead, e) h
  lead_by s (applied batch) queue e q h = rw (lead, e) h
  lead_by s (settled batch) queue e q h = rw (lead, e) h

  answer_by :
      (s : Store) (stage : Stage)
      → s.stage ≡ stage
      → IsHeld opts files₀ s
      → IsHeld opts files₀ (answer_batch s)
  unfolding answer_batch
  answer_by s idle e h = rw (answer_batch, e) h
  answer_by s (numbered batch) e h = rw (answer_batch, e) h
  answer_by s (applied batch) e h = rw (answer_batch, e) h
  answer_by s (settled batch) e h =
      rw (answer_batch, e)
        (same-IsHeld s _ (append-nil _ ∙ ap (λ t. s.answered ++ applied_of t) (sym e)) refl refl
          refl refl h)

  Checks-IsHeld : (s s' : Store) → Checks s s' → IsHeld opts files₀ s → IsHeld opts files₀ s'
  unfolding Checks
  Checks-IsHeld s s' c h = elim c [
    | inl q ↦ rw q h
    | inr (batch, s₁, e, f, q) ↦
        let h₁ = Flushes-IsHeld s s₁ f h in
        let k : s₁.stage ≡ applied batch = Flushes-stage s s₁ f ∙ e in
        rw q
          (same-IsHeld s₁ _ (ap (λ t. s₁.answered ++ applied_of t) (sym k)) refl refl refl refl h₁)
  ]

  -- Each event keeps it, where the batch in work fits the log's format.
  pub step-IsHeld :
      (event : Event) (s s' : Store)
      → step event s ≡ some s'
      → All IsRecord (records_of (batch_of s.stage))
      → IsHeld opts files₀ s
      → IsHeld opts files₀ s'
  unfolding step enqueue
  step-IsHeld (request r) s s' e all h =
      let q : s' ≡ enqueue r s = ground arith in rw q (same-IsHeld s _ refl refl refl refl refl h)
  step-IsHeld leads s s' e all h =
      let q : s' ≡ lead s = ground arith in rw q (lead_by s s.stage s.write_queue refl refl h)
  step-IsHeld applies s s' e all h =
      let q : s' ≡ apply_batch s = ground arith in rw q (apply_by s s.stage refl all h)
  step-IsHeld checks s s' e all h = Checks-IsHeld s s' (check_flush-some s s' e) h
  step-IsHeld answers s s' e all h =
      let q : s' ≡ answer_batch s = ground arith in rw q (answer_by s s.stage refl h)
  step-IsHeld flushes s s' e all h = Flushes-IsHeld s s' (flush-some s s' e) h
