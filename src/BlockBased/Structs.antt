-- ===== src/BlockBased/Structs.antt =====
-- core/sstable_manager/block_based/block_based_sstable_structs.h: what the file of a block-based
-- table is made of.
use tiny_kv.Common.{ℕ, Bytes}

pub record BlockHandle : Type 0 where
  pub offset : ℕ
  pub size : ℕ

pub record IndexEntry : Type 0 where
  pub last_key : Bytes
  pub block : BlockHandle

pub record FilterBlock : Type 0 where
  pub num_bits : ℕ
  pub num_hashes : ℕ
  pub bitset : Bytes

pub record Footer : Type 0 where
  pub metadata_block : BlockHandle
  pub index_block : BlockHandle
  pub filter_block : BlockHandle

abbrev pub footer_encoded_size : ℕ
footer_encoded_size = 48
