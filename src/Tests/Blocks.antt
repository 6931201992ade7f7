-- ===== src/Tests/Blocks.antt =====
-- Tables of the block-based format, and a filter.
use tiny_kv.Tests.{disk, apple, banana, cherry}
use tiny_kv.Tests.Files.{position, position-contents, fruit-IsSorted}
use tiny_kv.Common.{
  ℕ, suc, ◌^◌, ◌≤◌, ◌<◌, ◌≡◌, refl, inl, true, false, Option, some, [], ◌∷◌, ◌++◌, arith, Bytes,
  codes, length,
}
use tiny_kv.Common.Outcome.{ok}
use tiny_kv.Common.Order.{compare_bytes}
use tiny_kv.Types.{Entry, find}
use tiny_kv.Iterator
use tiny_kv.Iterator.{Iterator, over_table, contents}
use tiny_kv.BlockBased
use tiny_kv.BlockBased.Reader
use tiny_kv.BlockBased.Reader.{BlockReader}
use tiny_kv.BlockBased.Writer.{add_loop, new_builder}
use tiny_kv.BlockBased.Structs.{BlockHandle, IndexEntry}
use tiny_kv.BlockBased.Tail.{file_bytes}
use tiny_kv.BlockBased.Laws.{write_table_frame_lem}
use tiny_kv.BlockBased.WriteTable.{Written, write_table-Written}
use tiny_kv.BloomFilter
use tiny_kv.BloomFilter.{BloomFilter, contains-insert}
use tiny_kv.Disk.{Disk}
use tiny_kv.Common.Words.{be32, be64, u32_mod}
use tiny_kv.SsTable.RoundTrip.{metadata}
use tiny_kv.BlockBased.Holds.{HoldsBlocks, get-HoldsBlocks}
use tiny_kv.Table.Verdict.{verdict}
use tiny_kv.BlockBased.Filter.{zeros, length-zeros}
use tiny_kv.SsTable.Range.{last}
use tiny_kv.BlockBased.Blocks.{max_block_entries, IsBlock}
use tiny_kv.BlockBased.Encode.{entry_bytes}
use tiny_kv.BlockBased.Reopen.{reader_at, open_file-file_bytes}
use tiny_kv.BlockBased.Loop.{add_loop_bounded}

write_table-Written_example :
    Written disk
      (codes "t")
      apple
      (banana ∷ cherry ∷ [])
      7
      1
      (BlockBased.write_table disk (codes "t") (over_table position) 7 1)
write_table-Written_example =
    write_table-Written disk (codes "t") (over_table position) 7 1 apple (banana ∷ cherry ∷ [])
      position-contents fruit-IsSorted (omega arith) (omega arith)

write_table_frame_lem_example :
    (BlockBased.write_table disk (codes "t") (over_table position) 7 1).1.files (codes "u")
    ≡ disk.files (codes "u")
write_table_frame_lem_example =
    write_table_frame_lem disk (codes "t") (codes "u") (over_table position) 7 1
      (unfold compare_bytes in refl)

-- a file of one block
abbrev block_file : Bytes
block_file = be32 1 ++ (entry_bytes cherry ++ [])

abbrev block_disk : Disk
block_disk = record disk { files = λ p. some block_file }

abbrev no_block : BlockHandle
no_block = record { offset = 0; size = 0 }

abbrev cherry_index : IndexEntry
cherry_index = record {
  last_key = codes "c";
  block = record { offset = 0; size = length block_file };
}

abbrev cherry_reader : BlockReader
cherry_reader = record {
  full_path = codes "t";
  footer = record { metadata_block = no_block; index_block = no_block; filter_block = no_block };
  meta = metadata cherry [] 7 1;
  index = cherry_index ∷ [];
  filter = record { num_bits = 0; num_hashes = 0; bitset = [] };
}

cherry-IsBlock : IsBlock block_file cherry_index (cherry ∷ [])
unfolding be32 last
cherry-IsBlock = record {
  before = [];
  after = [];
  placed = refl;
  offset_lem = refl;
  size_lem = refl;
  last_lem = refl;
  full = λ e. cc;
  fits = (record { key_fits = omega arith; val_fits = omega arith }, tt);
  counted = omega arith;
}

cherry_holds : HoldsBlocks block_disk cherry_reader (cherry ∷ [])
cherry_holds = record {
  file = block_file;
  there = refl;
  small = unfold be32 in omega arith;
  blocks = (cherry ∷ []) ∷ [];
  indexed = (cherry-IsBlock, tt);
  whole = refl;
  sorted = (tt, tt);
  first = cherry;
  rest = [];
  es_lem = refl;
  min_lem = refl;
  max_lem = refl;
}

get-HoldsBlocks_example :
    (o : Option Entry) × (Reader.get block_disk cherry_reader (codes "c") ≡ ok o)
    × (verdict o ≡ verdict (find (codes "c") (cherry ∷ [])))
get-HoldsBlocks_example =
    get-HoldsBlocks block_disk cherry_reader (cherry ∷ []) (codes "c") cherry_holds

abbrev bitset : Bytes
bitset = zeros 1024

tail_small : length (file_bytes (codes "data") (metadata cherry [] 7 1) [] bitset) < 2 ^ 63
unfolding be32 be64 zeros last
tail_small = omega arith

max_key_fits : length (last cherry []).key < u32_mod
unfolding last
max_key_fits = omega arith

open_file-file_bytes_example :
    Reader.open_file (codes "t") (file_bytes (codes "data") (metadata cherry [] 7 1) [] bitset)
    ≡ ok (reader_at (codes "t") 4 (metadata cherry [] 7 1) [] bitset)
open_file-file_bytes_example =
    open_file-file_bytes (codes "data") (metadata cherry [] 7 1) [] bitset tail_small (codes "t")
      (omega arith) (omega arith) (omega arith) max_key_fits tt (omega arith) (length-zeros 1024)

abbrev nothing : Iterator
nothing = over_table (record { index = 0; entries = cherry ∷ [] })

loop_done :
    (add_loop (suc (length (contents nothing))) (Iterator.seek_to_first nothing) new_builder).0
    ≡ ok tt
unfolding add_loop Iterator.valid Iterator.seek_to_first tiny_kv.SsTable.Iter.valid
    tiny_kv.SsTable.Iter.seek_to_first tiny_kv.Iterator.Collect.copy_entry Iterator.key
    tiny_kv.SsTable.Iter.key Iterator.value tiny_kv.SsTable.Iter.value Iterator.is_tombstone
    tiny_kv.SsTable.Iter.is_tombstone contents Iterator.next tiny_kv.SsTable.Iter.next
loop_done = refl

add_loop_bounded_example :
    ((add_loop
        (suc (length (contents nothing)))
        (Iterator.seek_to_first nothing)
        new_builder).1.entries_in_block
      ≤ max_block_entries)
    × (length
          (add_loop
            (suc (length (contents nothing)))
            (Iterator.seek_to_first nothing)
            new_builder).1.filter_bitset
        ≡ 1024)
add_loop_bounded_example = add_loop_bounded nothing loop_done

abbrev bits : BloomFilter
bits = record { bit_array = false ∷ false ∷ false ∷ []; num_hashes = 2 }

abbrev first_byte : Bytes → ℕ
first_byte [] = 0
first_byte (c ∷ s) = c

abbrev bits_after : BloomFilter
bits_after = record { bit_array = false ∷ true ∷ false ∷ []; num_hashes = 2 }

inserted_lem : BloomFilter.insert first_byte bits (codes "a") ≡ ok bits_after
unfolding BloomFilter.insert BloomFilter.insert_loop BloomFilter.set_at
inserted_lem = refl

contains-insert_example : BloomFilter.contains first_byte bits_after (codes "a") ≡ ok true
contains-insert_example =
    contains-insert first_byte bits bits_after (codes "a") (codes "a") inserted_lem (inl refl)
