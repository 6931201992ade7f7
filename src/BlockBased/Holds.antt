-- ===== src/BlockBased/Holds.antt =====
-- What a reader of a block-based table answers for, and that it does.
use tiny_kv.Common.{
  ◌^◌, ◌<◌, ◌≡◌, refl, sym, ap, ◌∙◌, inl, inr, true, false, ◌&&◌, Option, none, some, List, ◌∷◌,
  subst, arith, Bool-cases, Bytes, length,
}
use tiny_kv.Common.Outcome.{ok}
use tiny_kv.Common.Order.{key_le}
use tiny_kv.Types.{Entry, IsSorted, find}
use tiny_kv.BlockBased.Structs.{IndexEntry}
use tiny_kv.BlockBased.Reader
use tiny_kv.BlockBased.Reader.{BlockReader, open_file, lower_bound}
use tiny_kv.SsTable.Range.{last, range_excludes}
use tiny_kv.Disk.{Disk}
use tiny_kv.BlockBased.Blocks.{Indexed, flatten}
use tiny_kv.Table.Verdict.{verdict}
use tiny_kv.BlockBased.Lookup.{stored_option, read_entry_from_data_block-find}
use tiny_kv.BlockBased.LowerBound.{lower_bound-Located}

-- The reader's file is on the disk, and its blocks hold these entries.
pub record HoldsBlocks (d : Disk) (r : BlockReader) (es : List Entry) : Type 0 where
  pub file : Bytes
  pub there : d.files r.full_path ≡ some file
  pub small : length file < 2 ^ 63
  pub blocks : List (List Entry)
  pub indexed : Indexed file r.index blocks
  pub whole : flatten blocks ≡ es
  pub sorted : IsSorted es
  pub first : Entry
  pub rest : List Entry
  pub es_lem : es ≡ first ∷ rest
  pub min_lem : r.meta.min_key ≡ first.key
  pub max_lem : r.meta.max_key ≡ (last first rest).key

-- Outside the range of the reader's metadata there is no entry.
pub within_range-HoldsBlocks :
    (d : Disk) (r : BlockReader) (es : List Entry) (k : Bytes)
    → HoldsBlocks d r es
    → Reader.within_range r k ≡ false
    → find k es ≡ none
unfolding Reader.within_range
within_range-HoldsBlocks d r es k h out =
    ap (find k) h.es_lem
    ∙ range_excludes k h.first h.rest (subst IsSorted h.es_lem h.sorted) (
        ap (λ (t : Bytes). key_le t k && key_le k (last h.first h.rest).key) (sym h.min_lem)
        ∙ ap (λ (t : Bytes). key_le r.meta.min_key k && key_le k t) (sym h.max_lem)
        ∙ out)

verdict_stored : (o : Option Entry) → verdict (stored_option o) ≡ verdict o
unfolding verdict
verdict_stored none = refl
verdict_stored (some e) = ground arith

get_outside :
    (d : Disk) (r : BlockReader) (k : Bytes)
    → Reader.within_range r k ≡ false
    → Reader.get d r k ≡ ok none
unfolding Reader.get
get_outside d r k h = ground (arith, h)

get_nowhere :
    (d : Disk) (r : BlockReader) (k : Bytes)
    → Reader.within_range r k ≡ true
    → lower_bound r.index k ≡ none
    → Reader.get d r k ≡ ok none
unfolding Reader.get
get_nowhere d r k h l = ground (arith, h, l)

get_block :
    (d : Disk) (r : BlockReader) (k file : Bytes) (i : IndexEntry)
    → Reader.within_range r k ≡ true
    → lower_bound r.index k ≡ some i
    → d.files r.full_path ≡ some file
    → Reader.get d r k ≡ Reader.read_entry_from_data_block file i.block k
unfolding Reader.get
get_block d r k file i h l t = ground (arith, h, l, t)

-- Where the reader's file, of fewer than 2 ^ 63 bytes, is there and holds the blocks of entries in
-- key order, one at least, that its index leads to, and its metadata has their first and last key
-- (`HoldsBlocks`): `get` ends with no exception and nothing read past an end, and says of the key
-- what the entries say.
pub get-HoldsBlocks :
    (d : Disk) (r : BlockReader) (es : List Entry) (k : Bytes)
    → HoldsBlocks d r es
    → (o : Option Entry) × (Reader.get d r k ≡ ok o) × (verdict o ≡ verdict (find k es))
get-HoldsBlocks d r es k h = elim (Bool-cases (Reader.within_range r k)) [
  | inr outside ↦ (
    none,
    get_outside d r k outside,
    ap verdict (sym (within_range-HoldsBlocks d r es k h outside)),
  )
  | inl inside ↦ elim (lower_bound-Located h.file r.index h.blocks k h.indexed sorted) [
    | inl (none_there, nowhere) ↦ (
      none,
      get_nowhere d r k inside none_there,
      ap verdict (sym (ap (find k) (sym h.whole) ∙ nowhere)),
    )
    | inr (i, block, there, b, s, same) ↦ (
      stored_option (find k block),
      get_block d r k h.file i inside there h.there
          ∙ read_entry_from_data_block-find h.file i block k b s h.small,
      verdict_stored (find k block) ∙ ap verdict (sym (ap (find k) (sym h.whole) ∙ same)),
    )
  ]
]
  where
    sorted : IsSorted (flatten h.blocks)
    sorted = subst IsSorted (sym h.whole) h.sorted
