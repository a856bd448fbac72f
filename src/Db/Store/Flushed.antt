-- ===== src/Db/Store/Flushed.antt =====
-- What a flush leaves as it was, and the table that it adds.
use keystone_db.Prelude.{
  ◌-◌, ◌≡◌, refl, ap, List, arith, Option, none, some, Option-cases, Bool-cases, inl, inr, ◌⊎◌,
  length, drop, ltb, leb, ◌==◌,
}
use keystone_db.Prelude.Keys.{Bytes}
use keystone_db.Bloom.{Loaded, loaded, too_short, truncated, load}
use keystone_db.Sstable.{k_footer_size, k_magic, IndexEntry}
use keystone_db.Sstable.Reader.{Footer, Table}
use keystone_db.Sstable.Writer.{Writer}
use keystone_db.Sstable.Open.{
  Opened, opened, refused, open_table, open_bloom, with_bloom, decode_footer, decode_index, read_at,
  index_length, bloom_length,
}
use keystone_db.Memtable.{raw_entries}
use keystone_db.Db.Store.{
  Store, WriteRequest, Stage, idle, numbered, applied, settled, settle, install, installed, flush,
  maybe_flush, check_flush, flush_writer,
}

-- An opened table has the file that was opened.
abbrev HasFile : Bytes → Opened → Type 0
HasFile file (opened t) = t.file ≡ file
HasFile file (refused e) = Unit {0}

with_bloom-HasFile :
    (file : Bytes) (footer : Footer) (index : List IndexEntry) (l : Loaded)
    → HasFile file (with_bloom file footer index l)
with_bloom-HasFile file footer index (loaded b) = refl
with_bloom-HasFile file footer index too_short = tt
with_bloom-HasFile file footer index truncated = tt

open_bloom-HasFile :
    (file : Bytes) (footer : Footer) (index : List IndexEntry)
    → HasFile file (open_bloom file footer index)
unfolding open_bloom
open_bloom-HasFile file footer index = elim (Bool-cases (footer.bloom_offset == 0)) [
  | inl t ↦ rw (open_bloom, t) refl
  | inr t ↦ elim (Option-cases (read_at file footer.bloom_offset (bloom_length file footer))) [
    | inl e ↦ rw (open_bloom, t, e) tt
    | inr (bytes, e) ↦ rw (open_bloom, t, e) (with_bloom-HasFile file footer index (load bytes))
  ]
]

open_table-HasFile : (file : Bytes) → HasFile file (open_table file)
unfolding open_table
open_table-HasFile file =
    let footer = decode_footer (drop (length file - k_footer_size) file) in
    elim (Bool-cases (ltb (length file) k_footer_size)) [
      | inl t ↦ rw (open_table, t) tt
      | inr t ↦ elim (Bool-cases (footer.magic == k_magic)) [
        | inl m ↦
            elim (Option-cases (read_at file footer.index_offset (index_length file footer))) [
              | inl e ↦ rw (open_table, t, m, e) tt
              | inr (bytes, e) ↦
                  rw (open_table, t, m, e)
                    (open_bloom-HasFile file footer (decode_index (length bytes) bytes))
            ]
        | inr m ↦ rw (open_table, t, m) tt
      ]
    ]

install-some :
    (writer : Writer) (o : Opened) (s s' : Store)
    → HasFile writer.file o
    → install writer o s ≡ some s'
    → (table : Table) × (s' ≡ installed writer table s) × (table.file ≡ writer.file)
unfolding install
install-some writer (refused error) s s' h e = absurd (ground arith)
install-some writer (opened table) s s' h e = (table, ground arith, h)

-- A flush does nothing, or it installs a table whose file holds the memtable's versions.
unfoldable pub Flushes : Store → Store → Type 0
Flushes s s' =
    (s' ≡ s)
    ⊎ ((table : Table) × (s' ≡ installed (flush_writer (raw_entries s.memtable)) table s)
        × (table.file ≡ (flush_writer (raw_entries s.memtable)).file))

pub flush-some : (s s' : Store) → flush s ≡ some s' → Flushes s s'
unfolding flush Flushes
flush-some s s' e = elim (Bool-cases (s.memtable.approx_bytes == 0)) [
  | inl t ↦ let q : some s ≡ some s' = rw (flush, t) at e in inl (ground arith)
  | inr t ↦
      let writer = flush_writer (raw_entries s.memtable) in
      let q : install writer (open_table writer.file) s ≡ some s' = rw (flush, t) at e in
      inr (install-some writer (open_table writer.file) s s' (open_table-HasFile writer.file) q)
]

pub Flushes-stage : (s s' : Store) → Flushes s s' → s'.stage ≡ s.stage
unfolding Flushes installed
Flushes-stage s s' f = elim f [
  | inl q ↦ ap (λ (t : Store). t.stage) q
  | inr (table, q, _) ↦ ap (λ (t : Store). t.stage) q
]

maybe_flush-some : (s s' : Store) → maybe_flush s ≡ some s' → Flushes s s'
unfolding maybe_flush Flushes
maybe_flush-some s s' e =
    elim (Bool-cases (leb s.opts.flush_threshold_bytes s.memtable.approx_bytes)) [
      | inl t ↦ flush-some s s' (rw (maybe_flush, t) at e)
      | inr t ↦ let same : some s ≡ some s' = rw (maybe_flush, t) at e in inl (ground arith)
    ]

settle-some :
    (batch : List WriteRequest) (o : Option Store) (s' : Store)
    → settle batch o ≡ some s'
    → (s₁ : Store) × (o ≡ some s₁) × (s' ≡ record s₁ { stage = settled batch })
settle-some batch none s' e = absurd (ground arith)
settle-some batch (some s₁) s' e = (s₁, refl, ground arith)

-- The check of the leader that has applied its batch; no other thread is at it.
unfoldable pub Checks : Store → Store → Type 0
Checks s s' =
    (s' ≡ s)
    ⊎ ((batch : List WriteRequest) × (s₁ : Store) × (s.stage ≡ applied batch)
        × Flushes s s₁
        × (s' ≡ record s₁ { stage = settled batch }))

no_check : (s s' : Store) → some s ≡ some s' → Checks s s'
unfolding Checks
no_check s s' e = inl (ground arith)

check_by : (s s' : Store) (stage : Stage) → s.stage ≡ stage → check_flush s ≡ some s' → Checks s s'
unfolding check_flush Checks
check_by s s' idle q e = no_check s s' (rw (check_flush, q) at e)
check_by s s' (numbered batch) q e = no_check s s' (rw (check_flush, q) at e)
check_by s s' (settled batch) q e = no_check s s' (rw (check_flush, q) at e)
check_by s s' (applied batch) q e =
    let e' : settle batch (maybe_flush s) ≡ some s' = rw (check_flush, q) at e in
    let (s₁, e₁, f) = settle-some batch (maybe_flush s) s' e' in
    inr (batch, s₁, q, maybe_flush-some s s₁ e₁, f)

pub check_flush-some : (s s' : Store) → check_flush s ≡ some s' → Checks s s'
check_flush-some s s' e = check_by s s' s.stage refl e
