-- ===== src/BlockBased/Reopen.antt =====
-- The constructor of `BlockBasedTableReader` on a file that `writeTable` wrote.
use tiny_kv.Common.{
  ℕ, ◌+◌, ◌^◌, ◌<◌, ◌≡◌, sym, ap, ◌∙◌, List, ◌++◌, append_assoc, arith, Bytes, length, All,
  length-append,
}
use tiny_kv.Common.Outcome.{ok}
use tiny_kv.BlockBased.Structs.{IndexEntry, Footer}
use tiny_kv.BlockBased.Tail.{
  meta_bytes, index_block_bytes, filter_block_bytes, footer_bytes, handle_at, footer_at, file_bytes,
}
use tiny_kv.BlockBased.Reader.{
  read_footer, read_metadata_block, read_index_block, read_filter_block, open_file, BlockReader,
}
use tiny_kv.SsTable.{Metadata}
use tiny_kv.BlockBased.Open.{
  filter_of, length-footer_bytes, read_footer_lem, read_filter_block_lem, read_index_block_lem,
  read_metadata_block_lem,
}
use tiny_kv.BlockBased.Encode.{IndexFits, Fits}
use tiny_kv.Common.Words.{u64_mod, u32_mod}

-- the reader of a file whose data blocks have `n` bytes
abbrev pub reader_at : Bytes → ℕ → Metadata → List IndexEntry → Bytes → BlockReader
reader_at path n m is bitset = record {
  full_path = path;
  footer = footer_at n m is bitset;
  meta = m;
  index = is;
  filter = filter_of bitset;
}

module _ (out : Bytes) (m : Metadata) (is : List IndexEntry) (bitset : Bytes) where
  abbrev pub file : Bytes
  file = file_bytes out m is bitset

  abbrev pub footer : Footer
  footer = footer_at (length out) m is bitset

  -- what follows each block
  abbrev pub behind_filter : Bytes
  behind_filter = footer_bytes footer

  abbrev pub behind_index : Bytes
  behind_index = filter_block_bytes bitset ++ behind_filter

  abbrev pub behind_meta : Bytes
  behind_meta = index_block_bytes is ++ behind_index

  at_filter : file ≡ ((out ++ meta_bytes m) ++ index_block_bytes is) ++ behind_index
  at_filter =
      append_assoc ((out ++ meta_bytes m) ++ index_block_bytes is) (filter_block_bytes bitset)
        behind_filter

  at_index : file ≡ (out ++ meta_bytes m) ++ behind_meta
  at_index = at_filter ∙ append_assoc (out ++ meta_bytes m) (index_block_bytes is) behind_index

  pub at_meta : file ≡ out ++ (meta_bytes m ++ behind_meta)
  at_meta = at_index ∙ append_assoc out (meta_bytes m) behind_meta

  length1 : length (out ++ meta_bytes m) ≡ length out + length (meta_bytes m)
  length1 = length-append out (meta_bytes m)

  length2 :
      length ((out ++ meta_bytes m) ++ index_block_bytes is)
      ≡ length out + length (meta_bytes m) + length (index_block_bytes is)
  length2 = omega (arith, length-append (out ++ meta_bytes m) (index_block_bytes is), length1)

  pub length3 :
      length file
      ≡ length out
        + length (meta_bytes m)
        + length (index_block_bytes is)
        + length (filter_block_bytes bitset)
        + 48
  length3 = omega (
    arith,
    length-append (((out ++ meta_bytes m) ++ index_block_bytes is) ++ filter_block_bytes bitset)
        behind_filter,
    length-append ((out ++ meta_bytes m) ++ index_block_bytes is) (filter_block_bytes bitset),
    length2,
    length-footer_bytes footer,
  )

  module _ (small : length file < 2 ^ 63) where
    footer_back : read_footer file ≡ ok footer
    footer_back =
        read_footer_lem footer
          (((out ++ meta_bytes m) ++ index_block_bytes is) ++ filter_block_bytes bitset)
          (record { offset_fits = omega (arith, length3); size_fits = omega (arith, length3) })
          (record { offset_fits = omega (arith, length3); size_fits = omega (arith, length3) })
          (record { offset_fits = omega (arith, length3); size_fits = omega (arith, length3) })

    filter_back :
        length bitset ≡ 1024 → read_filter_block file footer.filter_block ≡ ok (filter_of bitset)
    filter_back bits =
        let before : Bytes = (out ++ meta_bytes m) ++ index_block_bytes is in
        ap (λ (f : Bytes). read_filter_block f footer.filter_block) at_filter
        ∙ ap
            (λ (n : ℕ).
              read_filter_block (before ++ behind_index) (handle_at n (filter_block_bytes bitset)))
            (sym length2)
        ∙ read_filter_block_lem bitset before behind_filter (omega (arith, length2, length3)) bits

    index_back :
        All IndexFits is → length is < u32_mod → read_index_block file footer.index_block ≡ ok is
    index_back fits few =
        let before : Bytes = out ++ meta_bytes m in
        ap (λ (f : Bytes). read_index_block f footer.index_block) at_index
        ∙ ap
            (λ (n : ℕ).
              read_index_block (before ++ behind_meta) (handle_at n (index_block_bytes is)))
            (sym length1)
        ∙ read_index_block_lem is before behind_index (omega (arith, length1, length3)) fits few

    meta_back :
        m.file_number < u64_mod
        → m.timestamp < u64_mod
        → Fits m.min_key
        → Fits m.max_key
        → read_metadata_block file footer.metadata_block ≡ ok m
    meta_back fn ts h k =
        ap (λ (f : Bytes). read_metadata_block f footer.metadata_block) at_meta
        ∙ read_metadata_block_lem m out behind_meta (omega (arith, length3)) fn ts h k

    -- A file of fewer than 2 ^ 63 bytes, with fields that fit their words, is opened to the metadata,
    -- index and filter that were written.
    pub open_file-file_bytes :
        (path : Bytes)
        → m.file_number < u64_mod
        → m.timestamp < u64_mod
        → Fits m.min_key
        → Fits m.max_key
        → All IndexFits is
        → length is < u32_mod
        → length bitset ≡ 1024
        → open_file path file ≡ ok (reader_at path (length out) m is bitset)
    unfolding open_file
    open_file-file_bytes path fn ts h k fits few bits =
        ground (arith, footer_back, filter_back bits, index_back fits few, meta_back fn ts h k)
