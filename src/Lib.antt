-- ===== src/Lib.antt =====
-- KeystoneDB (C++17): an embedded key-value store on a log-structured merge tree, with a
-- write-ahead log, a MANIFEST, SSTables with Bloom filters, leveled compaction and snapshots.
--
-- The parts and their files:
--   Prelude: the names that the other files share; Prelude.Keys is the order of byte strings
--     (std::string::compare), Prelude.Files the reading of a file from a position on
--     (src/coding.h, io::read_fully), Prelude.Bits the laws of the bit operations.
--   Coding: src/coding.h, the little-endian integers put_u32_le, get_u32_le, put_u64_le,
--     get_u64_le.
--   Crc32: src/crc32.cpp, the table (entries) and the loop of crc32.
--   Wal: src/wal.cpp; a log is the bytes of its file and the number of them that are durable.
--     Opening syncs nothing, and takes that number. append, append_batch, sync and replay are the
--     methods of those names; replay_record is one round of the loop of WAL::replay.
--     Wal.Log.valid_end is the end of the valid part that DB::open (src/db.cpp) truncates the
--     file to.
--   Manifest: src/manifest.cpp; append_snapshot and load_latest. Reader holds the variables of
--     the two local readers read_u32 and read_bytes of load_latest, the size of their buffer
--     included.
--   Bloom: src/bloom.cpp; the filter, its hash, its serialization.
--   Sstable: src/sstable.cpp. Sstable.Writer is the class SSTableWriter, its file the bytes
--     written to the temporary path; Sstable.Reader has find_block_idx, read_block (load_block:
--     the result, or the checksum error that it throws) and get (table_get), Sstable.Open is
--     SSTable::open, Sstable.Iterator is SSTable::Iterator, whose load_block is enter_block; an
--     exception of read_block is none. The loop of its seeking constructor and a whole iteration
--     take the file's length for fuel: an entry takes bytes of the file.
--   Db: src/db.cpp, include/keystone/db.h and version.h; the files and levels. Db.Retain is the
--     filter of DB::compaction_loop with its variables prev_key and kept_anchor, Db.Get is
--     DB::get_impl, to which the result of Memtable::lookup is an argument; std::upper_bound on a
--     level's sorted files is the function covering. Db.Pick is DB::pick_compaction, Db.Snapshots
--     the snapshots, Db.Commit what DB::compaction_loop does with the entries that it keeps;
--     finishing and opening an output file and std::sort are arguments.
--   Memtable: src/memtable.cpp, include/keystone/memtable.h; the skip list on a store of nodes:
--     an address is a place in the list of the nodes, the null pointer is none, update a list of
--     addresses. random_level takes the coins that are thrown. A level has no more nodes than the
--     store, whose length is the fuel of a walk. Memtable.Abstract is the sorted list of versions
--     that it stands for.
--   BlockCache: src/block_cache.cpp; the list lru_ of nodes with addresses, the map from keys to
--     addresses, the byte count. find and publish are the two critical sections of get_or_load,
--     and BlockCache.Runs has the events of several threads in any order, where a key's loader
--     gives one block. The list's length is the fuel of the eviction loop.
--   Db.Store: src/db.cpp, the write path; Store is the part of the class DB that write, flush and
--     the replay of open work on. A thread's call of write is the events request, leads, applies,
--     checks and answers, one for each part of DB::write that runs under a lock or calls
--     maybe_flush, and only the thread at the front of the queue leads; flushes is a call of
--     flush. The events of several threads come in any order. recover is the replay of DB::open
--     into a new memtable; empty_store is what open makes in an empty directory.
--   Merge: src/merge_iterator.cpp; a source is the list of its entries, and the heap the list of
--     the sources that have one. merge is the iterator with yield_all_versions_, merge_visible
--     without.
-- Numbers are natural numbers; a cast to a w-bit integer is written out as a remainder by 2 ^ w.
-- A buffer, a key and a value are lists of bytes. The loops that read a file take the file's
-- length for fuel: a round takes at least 8 bytes off the file, and the theorems show that the
-- reading ends where no record can be read.
--
-- Not modelled: the command line, the bench and the torture tools (cmd, bench, tools), which are
-- input and output around the library; the calls of the system that open, write, sync and rename
-- files and their errors, of which only the bytes and the number of durable ones count; the
-- condition variables and the start and end of threads, whose parts under locks are events; of
-- DB::open the scan of the directory, the levels it builds from the MANIFEST and the removal of
-- orphans; DB::scan_impl and the sources of MergeIterator over tables; a crash inside DB::flush
-- or inside a compaction.
pub mod Prelude
pub mod Coding
pub mod Crc32
pub mod Wal
pub mod Manifest
pub mod Bloom
pub mod BlockCache
pub mod Memtable
pub mod Merge
pub mod Db
pub mod Sstable
