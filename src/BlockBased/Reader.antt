-- ===== src/BlockBased/Reader.antt =====
-- core/sstable_manager/block_based/block_based_table_reader.cpp. A stream is the bytes not yet read;
-- a reading function returns what is left, and the bytes read between two positions are the
-- difference of what was left there.
use tiny_kv.Common.{
  ℕ, zero, suc, ◌-◌, ◌^◌, Ordering, Bool, true, false, not, ◌&&◌, Option, none, some, List, [], ◌∷◌,
  ltb, ◌==◌, if◌then◌else◌, Bytes, length, drop,
}
use tiny_kv.Common.Outcome.{
  Outcome, ok, throws, fault, ◌>>=◌, no_footer, seek_failed, missing_block, size_mismatch,
  short_read, past_block, read_failed,
}
use tiny_kv.Common.Order.{compare_bytes, key_lt, key_le}
use tiny_kv.Types.{Entry}
use tiny_kv.BlockBased.Structs.{BlockHandle, IndexEntry, FilterBlock, Footer, footer_encoded_size}
use tiny_kv.Disk.{Disk}
use tiny_kv.Common.Words.{read_be64, read_be32, read_bytes}
use tiny_kv.SsTable.{Metadata}

-- `readUint64BigEndian`, `readUint32BigEndian`
unfoldable pub read_uint64 : Bytes → Outcome (ℕ × Bytes)
read_uint64 s = elim (read_be64 s) [ none ↦ throws short_read | some r ↦ ok r ]

unfoldable pub read_uint32 : Bytes → Outcome (ℕ × Bytes)
read_uint32 s = elim (read_be32 s) [ none ↦ throws short_read | some r ↦ ok r ]

-- `input.read` of so many bytes
unfoldable pub read_exactly : ℕ → Bytes → Outcome (Bytes × Bytes)
read_exactly n s = elim (read_bytes n s) [ none ↦ throws short_read | some r ↦ ok r ]

unfoldable pub read_string : Bytes → Outcome (Bytes × Bytes)
unfolding read_uint32 read_exactly
read_string s = read_uint32 s >>= λ (size, s'). read_exactly size s'

unfoldable pub read_block_handle : Bytes → Outcome (BlockHandle × Bytes)
unfolding read_uint64
read_block_handle s = read_uint64 s >>= λ (offset, s1).
    read_uint64 s1 >>= λ (size, s2). ok (record { offset = offset; size = size }, s2)

unfoldable pub read_footer : Bytes → Outcome Footer
unfolding read_block_handle
read_footer file =
    if ltb (length file) footer_encoded_size
    then throws no_footer
    else (read_block_handle (drop (length file - footer_encoded_size) file)
        >>= λ (metadata_block, s1). read_block_handle s1 >>= λ (index_block, s2).
            read_block_handle s2 >>= λ (filter_block, s3). ok (record {
              metadata_block = metadata_block;
              index_block = index_block;
              filter_block = filter_block;
            }))

-- `seekg(offset)`: positions have 63 bits, and a position behind the end is no error
unfoldable pub seek : Bytes → ℕ → Outcome Bytes
seek file offset = if ltb offset (2 ^ 63) then ok (drop offset file) else throws seek_failed

-- the start of each `read…Block`
unfoldable pub seek_block : Bytes → BlockHandle → Outcome Bytes
unfolding seek
seek_block file handle =
    if handle.offset == 0 && handle.size == 0 then throws missing_block else seek file handle.offset

-- the end of each `read…Block`
unfoldable pub check_size {ℓ} : {A : Type ℓ} → BlockHandle → Bytes → Bytes → A → Outcome A
check_size handle start end a =
    if length start - length end == handle.size then ok a else throws size_mismatch

unfoldable pub read_metadata_block : Bytes → BlockHandle → Outcome Metadata
unfolding seek_block check_size read_uint64 read_string
read_metadata_block file handle = seek_block file handle >>= λ start.
    read_uint64 start >>= λ (file_number, s1). read_uint64 s1 >>= λ (timestamp, s2).
    read_string s2 >>= λ (min_key, s3). read_string s3 >>= λ (max_key, s4).
    check_size handle start s4 (record {
      file_number = file_number;
      timestamp = timestamp;
      min_key = min_key;
      max_key = max_key;
    })

-- the loop of `readIndexBlock`, over the entries not yet read
unfoldable pub read_index_entries : ℕ → Bytes → Outcome (List IndexEntry × Bytes)
unfolding read_string read_block_handle
read_index_entries zero s = ok ([], s)
read_index_entries (suc n) s = elim (read_string s) [
  | throws x ↦ throws x
  | fault ↦ fault
  | ok (last_key, s1) ↦ elim (read_block_handle s1) [
    | throws x ↦ throws x
    | fault ↦ fault
    | ok (block, s2) ↦ elim (read_index_entries n s2) [
      | throws x ↦ throws x
      | fault ↦ fault
      | ok (is, s3) ↦ ok (record { last_key = last_key; block = block } ∷ is, s3)
    ]
  ]
]

unfoldable pub read_index_block : Bytes → BlockHandle → Outcome (List IndexEntry)
unfolding seek_block check_size read_uint32 read_index_entries
read_index_block file handle = seek_block file handle >>= λ start.
    read_uint32 start >>= λ (num_entries, s1).
    read_index_entries num_entries s1 >>= λ (index, s2). check_size handle start s2 index

unfoldable pub read_filter_block : Bytes → BlockHandle → Outcome FilterBlock
unfolding seek_block check_size read_uint32 read_exactly
read_filter_block file handle = seek_block file handle >>= λ start.
    read_uint32 start >>= λ (num_bits, s1). read_uint32 s1 >>= λ (num_hashes, s2).
    read_uint32 s2 >>= λ (bitset_size, s3). read_exactly bitset_size s3 >>= λ (bitset, s4).
    check_size handle start s4
      (record { num_bits = num_bits; num_hashes = num_hashes; bitset = bitset })

-- how the scan of a data block ends: at the key, or with what is left of the stream
pub data Scan : Type 0 where
  found : Entry → Scan
  passed : Bytes → Scan

unfoldable pub read_entry : Bytes → Outcome (Entry × Bytes)
unfolding read_string
read_entry s = read_string s >>= λ (key, s1). read_string s1 >>= λ (val, s2). elim s2 [
  | [] ↦ throws short_read
  | b ∷ s3 ↦ ok (record { key = key; val = val; tombstone = not (b == 0) }, s3)
]

-- the loop of `readEntryFromDataBlock`, over the entries not yet read
unfoldable pub scan : ℕ → Bytes → Bytes → Outcome Scan
unfolding read_entry
scan zero key s = ok (passed s)
scan (suc n) key s = elim (read_entry s) [
  | throws x ↦ throws x
  | fault ↦ fault
  | ok (e, s') ↦ elim (compare_bytes e.key key) [
    | Ordering.eq ↦ ok (found e)
    | Ordering.gt ↦ ok (passed s')
    | Ordering.lt ↦ scan n key s'
  ]
]

unfoldable pub read_entry_from_data_block : Bytes → BlockHandle → Bytes → Outcome (Option Entry)
unfolding seek read_uint32 scan
read_entry_from_data_block file handle key = seek file handle.offset >>= λ start.
    read_uint32 start >>= λ (num_entries, s1). scan num_entries key s1 >>= λ r. elim r [
      | found e ↦ ok (some e)
      | passed end ↦
          if ltb handle.size (length start - length end) then throws past_block else ok none
    ]

-- `BlockBasedTableReader`
pub record BlockReader : Type 0 where
  pub full_path : Bytes
  pub footer : Footer
  pub meta : Metadata
  pub index : List IndexEntry
  pub filter : FilterBlock

-- the constructor, on the bytes of the file
unfoldable pub open_file : Bytes → Bytes → Outcome BlockReader
unfolding read_footer read_filter_block read_index_block read_metadata_block
open_file path file = read_footer file >>= λ footer.
    read_filter_block file footer.filter_block >>= λ filter.
    read_index_block file footer.index_block >>= λ index.
    read_metadata_block file footer.metadata_block >>= λ meta.
    ok (record { full_path = path; footer = footer; meta = meta; index = index; filter = filter })

unfoldable pub open_table : Disk → Bytes → Outcome BlockReader
unfolding open_file
open_table d path = elim (d.files path) [
  | none ↦ throws read_failed
  | some file ↦ open_file path file
]

unfoldable pub within_range : BlockReader → Bytes → Bool
within_range r key = key_le r.meta.min_key key && key_le key r.meta.max_key

-- `std::lower_bound` of an index in key order: the first entry whose last key is not less
unfoldable pub lower_bound : List IndexEntry → Bytes → Option IndexEntry
lower_bound [] key = none
lower_bound (i ∷ is) key = elim (key_lt i.last_key key) [
  | true ↦ lower_bound is key
  | false ↦ some i
]

unfoldable pub get : Disk → BlockReader → Bytes → Outcome (Option Entry)
unfolding within_range lower_bound read_entry_from_data_block
get d r key = elim (within_range r key) [
  | false ↦ ok none
  | true ↦ elim (lower_bound r.index key) [
    | none ↦ ok none
    | some i ↦ elim (d.files r.full_path) [
      | none ↦ throws read_failed
      | some file ↦ read_entry_from_data_block file i.block key
    ]
  ]
]
