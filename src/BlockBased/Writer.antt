-- ===== src/BlockBased/Writer.antt =====
-- core/sstable_manager/block_based/block_based_table_format.cpp: the file of a block-based table,
-- as the stream receives it. The state of a writing function is what was written so far.
use tiny_kv.Common.Exec.{Exec, ◌>>=◌, ◌>>◌, pure, modify, gets}
use tiny_kv.Common.Outcome.{
  Outcome, ok, throws, fault, string_too_large, too_many_entries, empty_table,
}
use tiny_kv.Iterator
use tiny_kv.Common.{
  ℕ, zero, suc, true, false, Bytes, List, if◌then◌else◌, ◌++◌, ltb, [], length, ◌==◌, ◌∷◌, ◌-◌, ◌+◌,
  ◌&&◌, ◌/◌, ◌%◌,
}
use tiny_kv.Types.{Entry}
use tiny_kv.BlockBased.Structs.{BlockHandle, Footer, IndexEntry}
use tiny_kv.SsTable.{Metadata}
use tiny_kv.BlockBased.Filter.{zeros, add_key_to_filter, filter_num_bits, filter_num_hashes}
use tiny_kv.Iterator.{Iterator, contents}
use tiny_kv.Common.Words.{be64, be32, u32_mod}
use tiny_kv.Iterator.Collect.{copy_entry}

-- `writeUint64BigEndian`, `writeUint32BigEndian`
unfoldable pub write_uint64 : ℕ → Exec Bytes (Unit {0})
write_uint64 v = modify (λ out. out ++ be64 v)

unfoldable pub write_uint32 : ℕ → Exec Bytes (Unit {0})
write_uint32 v = modify (λ out. out ++ be32 v)

unfoldable pub write_raw : Bytes → Exec Bytes (Unit {0})
write_raw bytes = modify (λ out. out ++ bytes)

-- `appendString` onto a block in memory: the bytes that it appends
unfoldable pub append_string : Bytes → Outcome Bytes
append_string s =
    if ltb (length s) u32_mod then ok (be32 (length s) ++ s) else throws string_too_large

-- `appendEntry`
unfoldable pub append_entry : Entry → Outcome Bytes
unfolding append_string
append_entry e = elim (append_string e.key) [
  | throws x ↦ throws x
  | fault ↦ fault
  | ok k ↦ elim (append_string (if e.tombstone then [] else e.val)) [
    | throws x ↦ throws x
    | fault ↦ fault
    | ok v ↦ ok (k ++ (v ++ (if e.tombstone then 1 else 0) ∷ []))
  ]
]

unfoldable pub write_raw_block : Bytes → Exec Bytes BlockHandle
unfolding write_raw
write_raw_block block = do
  start ← gets length
  write_raw block
  pure (record { offset = start; size = length block })

unfoldable pub write_block_handle : BlockHandle → Exec Bytes (Unit {0})
unfolding write_uint64
write_block_handle handle = do write_uint64 handle.offset; write_uint64 handle.size

unfoldable pub write_string : Bytes → Exec Bytes (Unit {0})
unfolding write_uint32 write_raw
write_string s out =
    if ltb (length s) u32_mod
    then (do write_uint32 (length s); write_raw s) out
    else (throws string_too_large, out)

unfoldable pub write_metadata_block : Metadata → Exec Bytes BlockHandle
unfolding write_string write_uint64
write_metadata_block meta = do
  start ← gets length
  write_uint64 meta.file_number
  write_uint64 meta.timestamp
  write_string meta.min_key
  write_string meta.max_key
  end ← gets length
  pure (record { offset = start; size = end - start })

-- the loop of `writeIndexBlock`
unfoldable pub write_index_entries : List IndexEntry → Exec Bytes (Unit {0})
unfolding write_string write_block_handle
write_index_entries [] = pure tt
write_index_entries (i ∷ is) = do
  write_string i.last_key
  write_block_handle i.block
  write_index_entries is

unfoldable pub write_index_block : List IndexEntry → Exec Bytes BlockHandle
unfolding write_index_entries write_uint32
write_index_block index out =
    if ltb (length index) u32_mod
    then (do
      start ← gets length
      write_uint32 (length index)
      write_index_entries index
      end ← gets length
      pure (record { offset = start; size = end - start }))
        out
    else (throws too_many_entries, out)

unfoldable pub write_filter_block : Bytes → Exec Bytes BlockHandle
unfolding write_uint32 write_raw
write_filter_block bitset out =
    if ltb (length bitset) u32_mod
    then (do
      start ← gets length
      write_uint32 filter_num_bits
      write_uint32 filter_num_hashes
      write_uint32 (length bitset)
      write_raw bitset
      end ← gets length
      pure (record { offset = start; size = end - start }))
        out
    else (throws string_too_large, out)

unfoldable pub write_footer : Footer → Exec Bytes (Unit {0})
unfolding write_block_handle
write_footer footer = do
  write_block_handle footer.metadata_block
  write_block_handle footer.index_block
  write_block_handle footer.filter_block

abbrev pub data_block_max_size : ℕ
data_block_max_size = 4096

-- The local variables of `writeTable`, with what the stream received.
pub record Builder : Type 0 where
  pub output : Bytes
  pub index : List IndexEntry
  pub data_block : Bytes
  pub entries_in_block : ℕ
  pub last_key_in_block : Bytes
  pub max_key : Bytes
  pub filter_bitset : Bytes

unfoldable pub new_builder : Builder
unfolding zeros
new_builder = record {
  output = [];
  index = [];
  data_block = [];
  entries_in_block = 0;
  last_key_in_block = [];
  max_key = [];
  filter_bitset = zeros ((filter_num_bits + 7) / 8);
}

-- `flushDataBlock`
unfoldable pub flush_data_block : Builder → Builder
unfolding write_raw_block
flush_data_block b =
    if b.entries_in_block == 0
    then b
    else (let encoded = be32 b.entries_in_block ++ b.data_block in
        record b {
          output = b.output ++ encoded;
          index =
              b.index
              ++ record {
                last_key = b.last_key_in_block;
                block = record { offset = length b.output; size = length encoded };
              }
                ∷ [];
          data_block = [];
          entries_in_block = 0;
          last_key_in_block = [];
        })

-- what follows the encoding of an entry in the loop
unfoldable pub place_entry : Entry → Bytes → Builder → Builder
unfolding add_key_to_filter
place_entry e encoded b = record b {
  data_block = b.data_block ++ encoded;
  entries_in_block = (b.entries_in_block + 1) % u32_mod;
  last_key_in_block = e.key;
  max_key = e.key;
  filter_bitset = add_key_to_filter b.filter_bitset e.key;
}

unfoldable pub make_room : Bytes → Builder → Builder
unfolding flush_data_block
make_room encoded b =
    if ltb 9 b.entries_in_block && ltb data_block_max_size (length b.data_block + length encoded)
    then flush_data_block b
    else b

-- one round of the loop
unfoldable pub add_entry : Entry → Exec Builder (Unit {0})
unfolding append_entry make_room place_entry
add_entry e b = elim (append_entry e) [
  | throws x ↦ (throws x, b)
  | fault ↦ (fault, b)
  | ok encoded ↦ (ok tt, place_entry e encoded (make_room encoded b))
]

-- a call that reads and does not write
abbrev pub lift : {S A : Type 0} → Outcome A → Exec S A
lift o s = (o, s)

-- `for (; entries.Valid(); entries.Next())`
unfoldable pub add_loop : ℕ → Iterator → Exec Builder (Unit {0})
unfolding add_entry
add_loop zero it = lift fault
add_loop (suc fuel) it = elim (Iterator.valid it) [
  | false ↦ pure tt
  | true ↦ do e ← lift (copy_entry it); add_entry e; add_loop fuel (Iterator.next it)
]

-- the blocks behind the data blocks
unfoldable pub write_tail : Metadata → List IndexEntry → Bytes → Exec Bytes (Unit {0})
unfolding write_metadata_block write_index_block write_filter_block write_footer
write_tail meta index bitset = do
  metadata_block ← write_metadata_block meta
  index_block ← write_index_block index
  filter_block ← write_filter_block bitset
  write_footer (record {
    metadata_block = metadata_block;
    index_block = index_block;
    filter_block = filter_block;
  })

-- behind the loop
unfoldable pub finish : Bytes → ℕ → ℕ → Builder → Outcome (Unit {0}) × Bytes
unfolding write_tail flush_data_block
finish min_key timestamp file_num b =
    let b' = flush_data_block b in
    write_tail
      (record {
        file_number = file_num;
        timestamp = timestamp;
        min_key = min_key;
        max_key = b'.max_key;
      })
      b'.index b'.filter_bitset b'.output

unfoldable pub finish_loop :
    Bytes → ℕ → ℕ → Outcome (Unit {0}) × Builder → Outcome (Unit {0}) × Bytes
unfolding finish
finish_loop min_key timestamp file_num (throws x, b) = (throws x, b.output)
finish_loop min_key timestamp file_num (fault, b) = (fault, b.output)
finish_loop min_key timestamp file_num (ok _, b) = finish min_key timestamp file_num b

-- What `writeTable` writes, and how the writing ends. One round more than entries: the last one
-- finds the end.
unfoldable pub build : Iterator → ℕ → ℕ → Outcome (Unit {0}) × Bytes
unfolding add_loop finish_loop new_builder
build it timestamp file_num =
    let first = Iterator.seek_to_first it in
    elim (Iterator.valid first) [
      | false ↦ (throws empty_table, [])
      | true ↦ elim (Iterator.key first) [
        | throws x ↦ (throws x, [])
        | fault ↦ (fault, [])
        | ok min_key ↦
            finish_loop min_key timestamp file_num
              (add_loop (suc (length (contents it))) first new_builder)
      ]
    ]
