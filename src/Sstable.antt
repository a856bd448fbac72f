-- ===== src/Sstable.antt =====
-- src/sstable.cpp and include/keystone/sstable.h: what the writer and the reader share.
pub mod Writer
pub mod Reader
pub mod Iterator
pub mod Blocks
pub mod Holds
pub mod EntryRead
pub mod Iterate
pub mod Seek
pub mod Passed
pub mod Range
pub mod Sought
pub mod Block
pub mod Load
pub mod Search
pub mod Split
pub mod Open
pub mod Decode
pub mod Opening
pub mod Finish
mod Tests
use keystone_db.Prelude.{ℕ, Bool}
use keystone_db.Prelude.Keys.{Bytes}

pub record Entry : Type 0 where
  pub key : Bytes
  pub value : Bytes
  pub tombstone : Bool
  pub seq : ℕ

pub record IndexEntry : Type 0 where
  pub first_key : Bytes
  pub offset : ℕ
  pub length : ℕ

abbrev pub k_magic : ℕ
k_magic = 0x4B535442

abbrev pub k_format_version : ℕ
k_format_version = 3

abbrev pub k_footer_size : ℕ
k_footer_size = 40

abbrev pub k_block_target_size : ℕ
k_block_target_size = 4096

pub data LookupStatus : Type 0 where
  not_found : LookupStatus
  found : LookupStatus
  deleted : LookupStatus

pub record LookupResult : Type 0 where
  pub status : LookupStatus
  pub value : Bytes
