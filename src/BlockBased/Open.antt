-- ===== src/BlockBased/Open.antt =====
-- What `writeTable` has written is opened again: the footer leads to the blocks, and each is read
-- back.
use tiny_kv.Common.{
  ℕ, ◌+◌, ◌-◌, ◌^◌, ◌<◌, ◌≡◌, ap, List, [], ◌++◌, append_assoc, append-nil, arith, lt→ltb, Bytes,
  length, drop, All, length-append, drop-append,
}
use tiny_kv.Common.Outcome.{ok}
use tiny_kv.BlockBased.Structs.{BlockHandle, IndexEntry, FilterBlock, Footer, footer_encoded_size}
use tiny_kv.BlockBased.Encode.{
  string_bytes, handle_bytes, index_bytes, HandleFits, IndexFits, read_block_handle-handle_bytes,
  Fits, read_uint32-be32, read_uint64-be64, read_index_entries-index_bytes,
  read_string-string_bytes,
}
use tiny_kv.BlockBased.Tail.{
  meta_bytes, index_block_bytes, filter_block_bytes, footer_bytes, handle_at,
}
use tiny_kv.BlockBased.Reader.{
  read_footer, read_metadata_block, read_index_block, read_filter_block, seek_block, seek,
  check_size, read_exactly,
}
use tiny_kv.SsTable.{Metadata}
use tiny_kv.Common.Words.{u32_mod, be32, be64, u64_mod, length-be32, length-be64, read_bytes-append}
use tiny_kv.BlockBased.Filter.{filter_num_bits, filter_num_hashes}

pub seek_lem :
    (before rest : Bytes) → length before < 2 ^ 63 → seek (before ++ rest) (length before) ≡ ok rest
unfolding seek
seek_lem before rest h = ground (arith, lt→ltb (length before) (2 ^ 63) h, drop-append before rest)

pub seek_block_lem :
    (before block after : Bytes)
    → length before < 2 ^ 63
    → 0 < length block
    → seek_block (before ++ (block ++ after)) (handle_at (length before) block)
      ≡ ok (block ++ after)
unfolding seek_block
seek_block_lem before block after h pos = ground (arith, seek_lem before (block ++ after) h)

pub check_size_lem {ℓ} :
    {A : Type ℓ} (n : ℕ) (block after : Bytes) (a : A)
    → check_size (handle_at n block) (block ++ after) after a ≡ ok a
unfolding check_size
check_size_lem n block after a = ground (arith, length-append block after)

-- The metadata block is read back from where it was put.
pub read_metadata_block_lem :
    (m : Metadata) (before after : Bytes)
    → length before < 2 ^ 63
    → m.file_number < u64_mod
    → m.timestamp < u64_mod
    → Fits m.min_key
    → Fits m.max_key
    → read_metadata_block
        (before ++ (meta_bytes m ++ after))
        (handle_at (length before) (meta_bytes m))
      ≡ ok m
unfolding read_metadata_block
read_metadata_block_lem m before after near fn ts h k =
    let min : Bytes = string_bytes m.min_key in
    let max : Bytes = string_bytes m.max_key in
    ground (
      arith,
      seek_block_lem before (meta_bytes m) after near (
          omega (
            arith,
            length-append (be64 m.file_number) (be64 m.timestamp ++ (min ++ max)),
            length-be64 m.file_number,
          )),
      append_assoc (be64 m.file_number) (be64 m.timestamp ++ (min ++ max)) after,
      append_assoc (be64 m.timestamp) (min ++ max) after,
      append_assoc min max after,
      read_uint64-be64 m.file_number (be64 m.timestamp ++ (min ++ (max ++ after))) fn,
      read_uint64-be64 m.timestamp (min ++ (max ++ after)) ts,
      read_string-string_bytes m.min_key (max ++ after) h,
      read_string-string_bytes m.max_key after k,
      check_size_lem (length before) (meta_bytes m) after m,
    )

pub read_index_block_lem :
    (is : List IndexEntry) (before after : Bytes)
    → length before < 2 ^ 63
    → All IndexFits is
    → length is < u32_mod
    → read_index_block
        (before ++ (index_block_bytes is ++ after))
        (handle_at (length before) (index_block_bytes is))
      ≡ ok is
unfolding read_index_block
read_index_block_lem is before after near fits small = ground (
  arith,
  seek_block_lem before (index_block_bytes is) after near
      (omega (arith, length-append (be32 (length is)) (index_bytes is), length-be32 (length is))),
  append_assoc (be32 (length is)) (index_bytes is) after,
  read_uint32-be32 (length is) (index_bytes is ++ after) small,
  read_index_entries-index_bytes is after fits,
  check_size_lem (length before) (index_block_bytes is) after is,
)

abbrev pub filter_of : Bytes → FilterBlock
filter_of bitset = record {
  num_bits = filter_num_bits;
  num_hashes = filter_num_hashes;
  bitset = bitset;
}

pub read_filter_block_lem :
    (bitset before after : Bytes)
    → length before < 2 ^ 63
    → length bitset ≡ 1024
    → read_filter_block
        (before ++ (filter_block_bytes bitset ++ after))
        (handle_at (length before) (filter_block_bytes bitset))
      ≡ ok (filter_of bitset)
unfolding read_filter_block read_exactly
read_filter_block_lem bitset before after near bits =
    let rest : Bytes = be32 (length bitset) ++ bitset in
    ground (
      arith,
      seek_block_lem before (filter_block_bytes bitset) after near (
          omega (
            arith,
            length-append (be32 filter_num_bits) (be32 filter_num_hashes ++ rest),
            length-be32 filter_num_bits,
          )),
      append_assoc (be32 filter_num_bits) (be32 filter_num_hashes ++ rest) after,
      append_assoc (be32 filter_num_hashes) rest after,
      append_assoc (be32 (length bitset)) bitset after,
      read_uint32-be32 filter_num_bits
          (be32 filter_num_hashes ++ (be32 (length bitset) ++ (bitset ++ after))) (omega arith),
      read_uint32-be32 filter_num_hashes (be32 (length bitset) ++ (bitset ++ after)) (omega arith),
      read_uint32-be32 (length bitset) (bitset ++ after) (omega (arith, bits)),
      read_bytes-append bitset after,
      check_size_lem (length before) (filter_block_bytes bitset) after (filter_of bitset),
    )

length-handle_bytes : (h : BlockHandle) → length (handle_bytes h) ≡ 16
length-handle_bytes h =
    omega
      (arith, length-append (be64 h.offset) (be64 h.size), length-be64 h.offset, length-be64 h.size)

pub length-footer_bytes : (f : Footer) → length (footer_bytes f) ≡ footer_encoded_size
length-footer_bytes f =
    let rest : Bytes = handle_bytes f.index_block ++ handle_bytes f.filter_block in
    omega (
      arith,
      length-append (handle_bytes f.metadata_block) rest,
      length-append (handle_bytes f.index_block) (handle_bytes f.filter_block),
      length-handle_bytes f.metadata_block,
      length-handle_bytes f.index_block,
      length-handle_bytes f.filter_block,
    )

pub read_footer_lem :
    (f : Footer) (before : Bytes)
    → HandleFits f.metadata_block
    → HandleFits f.index_block
    → HandleFits f.filter_block
    → read_footer (before ++ footer_bytes f) ≡ ok f
unfolding read_footer
read_footer_lem f before hm hi hf =
    let i : Bytes = handle_bytes f.index_block in
    let l : Bytes = handle_bytes f.filter_block in
    let whole : length (before ++ footer_bytes f) ≡ length before + 48 =
      omega (arith, length-append before (footer_bytes f), length-footer_bytes f) in
    let back : length (before ++ footer_bytes f) - 48 ≡ length before = omega (arith, whole) in
    ground (
      arith,
      whole,
      ap (λ (n : ℕ). drop n (before ++ footer_bytes f)) back,
      drop-append before (footer_bytes f),
      read_block_handle-handle_bytes f.metadata_block (i ++ l) hm,
      read_block_handle-handle_bytes f.index_block l hi,
      read_block_handle-handle_bytes f.filter_block [] hf,
      append-nil l,
    )
