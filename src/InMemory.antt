-- ===== src/InMemory.antt =====
-- core/sstable_manager/in_memory_table_format.cpp and in_memory_table_reader.cpp: the format whose
-- reader is the whole table in memory.
pub mod Laws
pub mod Files
use tiny_kv.Common.{
  ℕ, zero, suc, ◌+◌, ◌-◌, ◌*◌, ◌/◌, ◌%◌, ◌^◌, ◌≤◌, ◌<◌, Ordering, compare, ◌≡◌, refl, sym, ap, ◌∙◌,
  ◌≢◌, ◌↔◌, ◌⊎◌, inl, inr, Bool, true, false, not, ◌&&◌, ◌||◌, Option, none, some, List, [], ◌∷◌,
  ◌++◌, append_assoc, append-nil, map, foldl, arith, String, ltb, leb, ◌==◌, if◌then◌else◌, ltb→lt,
  lt→ltb, le→ltb, ltb→le, tests, Bool-cases, Option-cases, Bytes, codes, length, get_elem?, take,
  drop, All, length-append, length-take, length-drop, take-append, drop-append, take_all,
  All-append, All-map, get_elem?-append,
}
use tiny_kv.SsTable
use tiny_kv.SsTable.Writer
use tiny_kv.SsTable.Reader
use tiny_kv.Disk.{Disk}
use tiny_kv.Table.{TableFormat}
use tiny_kv.Common.Outcome.{Outcome, ok, throws, fault}
use tiny_kv.Iterator.{Iterator}
use tiny_kv.SsTable.{SsTable, new_table}
use tiny_kv.Iterator.Collect.{materialize}

-- `InMemoryTableReader`, which owns its table and passes every call on to it
unfoldable pub open_table : Disk → Bytes → Outcome SsTable
open_table d path = Reader.read d path

unfoldable pub write_table : Disk → Bytes → Iterator → ℕ → ℕ → Outcome SsTable × Disk
write_table d path it timestamp file_num = elim (materialize it) [
  | throws x ↦ (throws x, d)
  | fault ↦ (fault, d)
  | ok entries ↦ elim (Writer.write d path entries timestamp file_num) [
    | throws x ↦ (throws x, d)
    | fault ↦ (fault, d)
    | ok (m, sorted, d') ↦ (ok (new_table m sorted), d')
  ]
]

abbrev pub in_memory : TableFormat
in_memory = record {
  Reader = SsTable;
  open_table = open_table;
  write_table = write_table;
  within_range = SsTable.within_range;
  get = λ d r k. SsTable.get r k;
}
