-- ===== src/BlockBased/Tail.antt =====
-- The blocks behind the data blocks: what `writeTable` appends for each.
use tiny_kv.Common.{
  ℕ, ◌+◌, ◌-◌, ◌≤◌, ◌<◌, ◌≡◌, refl, ◌⊎◌, inl, inr, false, List, [], ◌∷◌, ◌++◌, append_assoc,
  append-nil, arith, ltb, ltb→lt, ltb→le, lt→ltb, Bool-cases, Bytes, length, All, length-append,
}
use tiny_kv.Common.Outcome.{ok, throws, too_many_entries}
use tiny_kv.BlockBased.Structs.{BlockHandle, IndexEntry, Footer}
use tiny_kv.BlockBased.Encode.{string_bytes, handle_bytes, index_bytes, Fits}
use tiny_kv.BlockBased.Writer.{
  write_string, write_metadata_block, write_index_entries, write_index_block, write_filter_block,
  write_footer, write_tail,
}
use tiny_kv.SsTable.{Metadata}
use tiny_kv.Common.Words.{be32, u32_mod, be64}
use tiny_kv.BlockBased.Filter.{filter_num_bits, filter_num_hashes}

abbrev pub meta_bytes : Metadata → Bytes
meta_bytes m =
    be64 m.file_number ++ (be64 m.timestamp ++ (string_bytes m.min_key ++ string_bytes m.max_key))

abbrev pub index_block_bytes : List IndexEntry → Bytes
index_block_bytes is = be32 (length is) ++ index_bytes is

abbrev pub filter_block_bytes : Bytes → Bytes
filter_block_bytes bitset =
    be32 filter_num_bits ++ (be32 filter_num_hashes ++ (be32 (length bitset) ++ bitset))

abbrev pub footer_bytes : Footer → Bytes
footer_bytes f =
    handle_bytes f.metadata_block ++ (handle_bytes f.index_block ++ handle_bytes f.filter_block)

abbrev pub KeyFits : IndexEntry → Type 0
KeyFits i = Fits i.last_key

-- where a block stands that begins behind `n` bytes
abbrev pub handle_at : ℕ → Bytes → BlockHandle
handle_at n block = record { offset = n; size = length block }

length_grown : (out block : Bytes) → length (out ++ block) - length out ≡ length block
length_grown out block = omega (arith, length-append out block)

write_string_lem : (s out : Bytes) → Fits s → write_string s out ≡ (ok tt, out ++ string_bytes s)
unfolding write_string
write_string_lem s out h =
    ground (arith, lt→ltb (length s) u32_mod h, append_assoc out (be32 (length s)) s)

write_metadata_block_lem :
    (m : Metadata) (out : Bytes)
    → Fits m.min_key
    → Fits m.max_key
    → write_metadata_block m out ≡ (ok (handle_at (length out) (meta_bytes m)), out ++ meta_bytes m)
unfolding write_metadata_block
write_metadata_block_lem m out h k =
    let fn : Bytes = be64 m.file_number in
    let ts : Bytes = be64 m.timestamp in
    let min : Bytes = string_bytes m.min_key in
    let max : Bytes = string_bytes m.max_key in
    ground (
      arith,
      write_string_lem m.min_key ((out ++ fn) ++ ts) h,
      write_string_lem m.max_key (((out ++ fn) ++ ts) ++ min) k,
      append_assoc ((out ++ fn) ++ ts) min max,
      append_assoc (out ++ fn) ts (min ++ max),
      append_assoc out fn (ts ++ (min ++ max)),
      length_grown out (meta_bytes m),
    )

write_index_entries_lem :
    (is : List IndexEntry) (out : Bytes)
    → All KeyFits is
    → write_index_entries is out ≡ (ok tt, out ++ index_bytes is)
unfolding write_index_entries
write_index_entries_lem [] out h = ground (arith, append-nil out)
write_index_entries_lem (i ∷ is) out h =
    let offset : Bytes = be64 i.block.offset in
    let size : Bytes = be64 i.block.size in
    let key : Bytes = string_bytes i.last_key in
    ground (
      arith,
      write_string_lem i.last_key out h.0,
      append_assoc (out ++ key) offset size,
      append_assoc out key (offset ++ size),
      write_index_entries_lem is (out ++ (key ++ (offset ++ size))) h.1,
      append_assoc out (key ++ (offset ++ size)) (index_bytes is),
    )

write_index_block_lem :
    (is : List IndexEntry) (out : Bytes)
    → All KeyFits is
    → length is < u32_mod
    → write_index_block is out
      ≡ (ok (handle_at (length out) (index_block_bytes is)), out ++ index_block_bytes is)
unfolding write_index_block
write_index_block_lem is out h small = ground (
  arith,
  lt→ltb (length is) u32_mod small,
  write_index_entries_lem is (out ++ be32 (length is)) h,
  append_assoc out (be32 (length is)) (index_bytes is),
  length_grown out (index_block_bytes is),
)

write_index_block_refused :
    (is : List IndexEntry) (out : Bytes)
    → ltb (length is) u32_mod ≡ false
    → write_index_block is out ≡ (throws too_many_entries, out)
unfolding write_index_block
write_index_block_refused is out h = ground (arith, h)

write_filter_block_lem :
    (bitset out : Bytes)
    → length bitset ≡ 1024
    → write_filter_block bitset out
      ≡ (ok (handle_at (length out) (filter_block_bytes bitset)), out ++ filter_block_bytes bitset)
unfolding write_filter_block
write_filter_block_lem bitset out h =
    let bits : Bytes = be32 filter_num_bits in
    let hashes : Bytes = be32 filter_num_hashes in
    let size : Bytes = be32 (length bitset) in
    ground (
      arith,
      lt→ltb (length bitset) u32_mod (omega (arith, h)),
      append_assoc ((out ++ bits) ++ hashes) size bitset,
      append_assoc (out ++ bits) hashes (size ++ bitset),
      append_assoc out bits (hashes ++ (size ++ bitset)),
      length_grown out (filter_block_bytes bitset),
    )

write_footer_lem : (f : Footer) (out : Bytes) → write_footer f out ≡ (ok tt, out ++ footer_bytes f)
unfolding write_footer
write_footer_lem f out = simp append_assoc refl

-- The footer of a file whose data blocks have `n` bytes.
abbrev pub footer_at : ℕ → Metadata → List IndexEntry → Bytes → Footer
footer_at n m is bitset =
    let n1 = n + length (meta_bytes m) in
    let n2 = n1 + length (index_block_bytes is) in
    record {
      metadata_block = handle_at n (meta_bytes m);
      index_block = handle_at n1 (index_block_bytes is);
      filter_block = handle_at n2 (filter_block_bytes bitset);
    }

abbrev pub file_bytes : Bytes → Metadata → List IndexEntry → Bytes → Bytes
file_bytes out m is bitset =
    (((out ++ meta_bytes m) ++ index_block_bytes is) ++ filter_block_bytes bitset)
    ++ footer_bytes (footer_at (length out) m is bitset)

-- Behind the data blocks: the four blocks in order, with handles to where they are; or, of more
-- blocks than the index can count, an exception.
pub write_tail_lem :
    (m : Metadata) (is : List IndexEntry) (bitset out : Bytes)
    → Fits m.min_key
    → Fits m.max_key
    → All KeyFits is
    → length bitset ≡ 1024
    → ((write_tail m is bitset out ≡ (ok tt, file_bytes out m is bitset)) × (length is < u32_mod))
      ⊎ ((write_tail m is bitset out ≡ (throws too_many_entries, out ++ meta_bytes m))
          × (u32_mod ≤ length is))
unfolding write_tail
write_tail_lem m is bitset out h k fits bits =
    let out1 : Bytes = out ++ meta_bytes m in
    let out2 : Bytes = out1 ++ index_block_bytes is in
    elim (Bool-cases (ltb (length is) u32_mod)) [
      | inr big ↦ inr (
        ground (arith, write_metadata_block_lem m out h k, write_index_block_refused is out1 big),
        ltb→le (length is) u32_mod big,
      )
      | inl few ↦
          let small : length is < u32_mod = ltb→lt (length is) u32_mod few in
          inl (
            ground (
              arith,
              write_metadata_block_lem m out h k,
              write_index_block_lem is out1 fits small,
              write_filter_block_lem bitset out2 bits,
              length-append out (meta_bytes m),
              length-append out1 (index_block_bytes is),
              write_footer_lem (footer_at (length out) m is bitset)
                  (out2 ++ filter_block_bytes bitset),
            ),
            small,
          )
    ]
