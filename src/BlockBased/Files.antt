-- ===== src/BlockBased/Files.antt =====
-- The block-based format opens the files that its writer makes.
use tiny_kv.Common.{
  ℕ, ◌^◌, ◌<◌, ◌≡◌, refl, sym, ap, ◌∙◌, some, List, ◌∷◌, subst, arith, Bytes, length, All,
}
use tiny_kv.Common.Outcome.{ok}
use tiny_kv.Types.{Entry, IsSorted}
use tiny_kv.BlockBased.Reader
use tiny_kv.BlockBased.Reader.{BlockReader, open_file}
use tiny_kv.BlockBased.Tail.{file_bytes}
use tiny_kv.Disk.{Disk}
use tiny_kv.BlockBased.Holds.{HoldsBlocks}
use tiny_kv.BlockBased.Written.{IsTable, Indexed-All, last-Fits}
use tiny_kv.Common.Words.{u64_mod}
use tiny_kv.SsTable.RoundTrip.{metadata}
use tiny_kv.BlockBased.Reopen.{length3, reader_at, open_file-file_bytes, at_meta}
use tiny_kv.BlockBased.Encode.{EntryFits}
use tiny_kv.BlockBased.Blocks.{Indexed, Indexed-append}
use tiny_kv.BlockBased.Filter.Bits.{FilterOf}

-- The file at the path is one that `build` may leave for these entries.
pub record StoresBlocks (d : Disk) (path : Bytes) (es : List Entry) : Type 0 where
  pub first : Entry
  pub rest : List Entry
  pub es_lem : es ≡ first ∷ rest
  pub timestamp : ℕ
  pub file_num : ℕ
  pub file : Bytes
  pub there : d.files path ≡ some file
  pub table : IsTable first rest timestamp file_num file
  pub sorted : IsSorted (first ∷ rest)
  pub timestamp_fits : timestamp < u64_mod
  pub file_num_fits : file_num < u64_mod
  pub small : length file < 2 ^ 63

-- a reader of these entries, with the metadata that was written
abbrev pub Reopened : Disk → Bytes → List Entry → ℕ → ℕ → Type 0
Reopened d path es ts fn =
    (r : BlockReader) × (Reader.open_table d path ≡ ok r)
    × HoldsBlocks d r es
    × (r.meta.timestamp ≡ ts)
    × (r.meta.file_number ≡ fn)
    × FilterOf r.filter.bitset es

open_table_lem :
    (d : Disk) (path file : Bytes)
    → d.files path ≡ some file
    → Reader.open_table d path ≡ open_file path file
unfolding Reader.open_table
open_table_lem d path file h = ground (arith, h)

pub open_table-IsTable :
    (d : Disk) (path : Bytes) (e : Entry) (es : List Entry) (ts fn : ℕ) (file : Bytes)
    → d.files path ≡ some file
    → IsTable e es ts fn file
    → IsSorted (e ∷ es)
    → ts < u64_mod
    → fn < u64_mod
    → length file < 2 ^ 63
    → Reopened d path (e ∷ es) ts fn
open_table-IsTable d path e es ts fn file there t s h k small =
    let m = metadata e es ts fn in
    let size : length (file_bytes t.output m t.index t.bitset) < 2 ^ 63 =
      omega (arith, ap length t.file_lem) in
    let near : length t.output < 2 ^ 63 = omega (arith, length3 t.output m t.index t.bitset) in
    let (fits, keys, indexes) = Indexed-All t.output t.index t.blocks t.indexed in
    let all_fit : All EntryFits (e ∷ es) = subst (All EntryFits) t.whole fits in
    (
      reader_at path (length t.output) m t.index t.bitset,
      open_table_lem d path file there
          ∙ ap (open_file path) t.file_lem
          ∙ open_file-file_bytes t.output m t.index t.bitset size path k h all_fit.0.key_fits
              (last-Fits (e ∷ es) (λ p. cc) all_fit) (indexes near) t.few t.filter_lem.size,
      record {
        file = file;
        there = there;
        small = small;
        blocks = t.blocks;
        indexed =
            subst (λ (f : Bytes). Indexed f t.index t.blocks)
              (sym (at_meta t.output m t.index t.bitset) ∙ sym t.file_lem)
              (Indexed-append t.output _ t.index t.blocks t.indexed);
        whole = t.whole;
        sorted = s;
        first = e;
        rest = es;
        es_lem = refl;
        min_lem = refl;
        max_lem = refl;
      },
      refl,
      refl,
      t.filter_lem,
    )
