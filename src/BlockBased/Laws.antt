-- ===== src/BlockBased/Laws.antt =====
-- The block-based format keeps what `TableLaws` asks for.
use tiny_kv.Common.{
  ℕ, ◌≡◌, refl, ap, ◌∙◌, inl, inr, false, List, arith, Bool-cases, Bytes, take, Bool, none,
}
use tiny_kv.Common.Outcome.{Outcome, ok, throws, fault}
use tiny_kv.Common.Order.{key_eq}
use tiny_kv.Types.{Entry, find}
use tiny_kv.BlockBased.Reader
use tiny_kv.BlockBased.Reader.{BlockReader, open_file}
use tiny_kv.BlockBased.Writer.{build}
use tiny_kv.Iterator.{Iterator}
use tiny_kv.Disk.{Disk, files-store}
use tiny_kv.BlockBased.{write_table, close_table, file_fits, block_based}
use tiny_kv.BlockBased.Holds.{HoldsBlocks, get-HoldsBlocks, within_range-HoldsBlocks}
use tiny_kv.Table.{TableLaws}
use tiny_kv.BlockBased.WriteTable.{
  write_table_open, write_table-ok, write_table_refused, write_table-ne_fault,
}

close_table_frame :
    (d : Disk) (path p : Bytes) (r : Outcome (Unit {0}) × Bytes)
    → key_eq path p ≡ false
    → (close_table d path r).1.files p ≡ d.files p
unfolding close_table
close_table_frame d path p (throws x, out) h =
    ground (arith, files-store d path (take (d.room path) out) p, h)
close_table_frame d path p (fault, out) h =
    ground (arith, files-store d path (take (d.room path) out) p, h)
close_table_frame d path p (ok _, out) h = elim (Bool-cases (file_fits d path out)) [
  | inl fits ↦ ground (arith, fits, files-store d path out p, h)
  | inr full ↦ ground (arith, full, files-store d path (take (d.room path) out) p, h)
]

-- Whatever becomes of a write, every other file is as it was.
pub write_table_frame_lem :
    (d : Disk) (path p : Bytes) (it : Iterator) (ts fn : ℕ)
    → key_eq path p ≡ false
    → (write_table d path it ts fn).1.files p ≡ d.files p
write_table_frame_lem d path p it ts fn h = elim (Bool-cases (d.can_create path)) [
  | inl can ↦
      ap (λ (w : Outcome BlockReader × Disk). w.1.files p) (write_table_open d path it ts fn can)
      ∙ close_table_frame d path p (build it ts fn) h
  | inr cannot ↦
      ap (λ (w : Outcome BlockReader × Disk). w.1.files p)
        (write_table_refused d path it ts fn cannot)
]

HoldsBlocks-frame :
    (d d' : Disk) (r : BlockReader) (es : List Entry)
    → d'.files r.full_path ≡ d.files r.full_path
    → HoldsBlocks d r es
    → HoldsBlocks d' r es
HoldsBlocks-frame d d' r es same h = record {
  file = h.file;
  there = same ∙ h.there;
  small = h.small;
  blocks = h.blocks;
  indexed = h.indexed;
  whole = h.whole;
  sorted = h.sorted;
  first = h.first;
  rest = h.rest;
  es_lem = h.es_lem;
  min_lem = h.min_lem;
  max_lem = h.max_lem;
}

pub within_range_answers :
    (d : Disk) (r : BlockReader) (es : List Entry) (k : Bytes)
    → HoldsBlocks d r es
    → (b : Bool) × (block_based.within_range r k ≡ ok b) × (b ≡ false → find k es ≡ none)
within_range_answers d r es k h =
    (Reader.within_range r k, refl, within_range-HoldsBlocks d r es k h)

pub write_table_keeps :
    (d : Disk) (path : Bytes) (it : Iterator) (ts fn : ℕ) (r : BlockReader) (es : List Entry)
    → key_eq path r.full_path ≡ false
    → HoldsBlocks d r es
    → HoldsBlocks (write_table d path it ts fn).1 r es
write_table_keeps d path it ts fn r es a h =
    HoldsBlocks-frame d (write_table d path it ts fn).1 r es
      (write_table_frame_lem d path r.full_path it ts fn a) h

abbrev pub block_based_laws : TableLaws block_based
block_based_laws = record {
  Holds = HoldsBlocks;
  Avoids = λ r path. key_eq path r.full_path ≡ false;
  within_range-Holds = within_range_answers;
  get-Holds = get-HoldsBlocks;
  write_table-Holds = λ d path it ts fn r w s short h k. write_table-ok d path it ts fn r w s h k;
  write_table_defined = write_table-ne_fault;
  write_table_frame = write_table_keeps;
}
