-- ===== src/Db/Store/FlushTests.antt =====
-- A flush of a memtable that holds one version.
use keystone_db.Prelude.{length, ◌<◌, ◌≡◌, refl, [], ◌∷◌, arith, false, some, All}
use keystone_db.Prelude.Keys.{compare_keys}
use keystone_db.Coding.{put_u32_le, put_u64_le}
use keystone_db.Bloom.{bits_for, new_bloom, add_all, add_loop, set_bit, serialize}
use keystone_db.Sstable.{Entry}
use keystone_db.Sstable.Writer.{
  new_writer, add_entries, add, flush_full, flush_block, put_entry, encode_entry, encode_header,
  encode_index, encode_footer, finish,
}
use keystone_db.Sstable.Block.{IsEntry}
use keystone_db.Memtable.{insert_node, key_less, new_memtable, put, raw_entries}
use keystone_db.Db.Store.{Store, empty_store, flush}
use keystone_db.Db.{FileMeta}
use keystone_db.Db.Store.Reads.{IsFlushable, IsFlushed, flush-IsFlushed}
use keystone_db.Db.Store.Tests.{opts}

abbrev version_1 : Entry
version_1 = record { key = 1 ∷ []; value = 10 ∷ []; tombstone = false; seq = 1 }

abbrev one_put : Store
one_put = record (empty_store opts) { memtable = put (new_memtable 12) (1 ∷ []) (10 ∷ []) 1 2 }

raw-one_put : raw_entries one_put.memtable ≡ version_1 ∷ []
unfolding put new_memtable insert_node raw_entries key_less compare_keys
raw-one_put = refl

version_1-IsEntry : All IsEntry (version_1 ∷ [])
version_1-IsEntry = (
  record {
    seq = omega arith;
    key = omega arith;
    value = omega arith;
    key_bytes = (omega arith, tt);
    value_bytes = (omega arith, tt);
  },
  tt,
)

writing : Unit {0}
unfolding add_entries add flush_full flush_block put_entry encode_entry encode_header put_u32_le
    put_u64_le
writing = tt

version_1-IsFlushable : IsFlushable (add_entries new_writer (version_1 ∷ []))
version_1-IsFlushable = record {
  bytes = unfold writing in omega arith;
  size =
      unfold writing finish put_u32_le put_u64_le encode_index encode_footer serialize add_all
        new_bloom bits_for add_loop set_bit in
      omega arith;
  count = unfold writing in omega arith;
  filter = unfold writing new_bloom bits_for in record { k = omega arith; m_bits = omega arith };
}

one_put_bytes : 0 < one_put.memtable.approx_bytes
unfolding put new_memtable
one_put_bytes = omega arith

one_put_levels : 0 < length one_put.version.files
unfolding empty_store
one_put_levels = omega arith

flush-IsFlushed_example :
    (s' : Store) × (fm : FileMeta) × (flush one_put ≡ some s') × IsFlushed one_put s' fm
flush-IsFlushed_example =
    flush-IsFlushed one_put one_put_bytes one_put_levels (rw raw-one_put version_1-IsEntry)
      (rw raw-one_put version_1-IsFlushable)
