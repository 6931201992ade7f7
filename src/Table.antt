-- ===== src/Table.antt =====
-- core/sstable_manager/table_format.h and table_reader.h: the interface between the levels and the
-- formats of table files, as operations and the laws that the engine relies on.
pub mod Verdict
pub mod Files
use tiny_kv.Common.{
  ℕ, zero, suc, ◌+◌, ◌-◌, ◌*◌, ◌/◌, ◌%◌, ◌^◌, ◌≤◌, ◌<◌, Ordering, compare, ◌≡◌, refl, sym, ap, ◌∙◌,
  ◌≢◌, ◌↔◌, ◌⊎◌, inl, inr, Bool, true, false, not, ◌&&◌, ◌||◌, Option, none, some, List, [], ◌∷◌,
  ◌++◌, append_assoc, append-nil, map, foldl, arith, String, ltb, leb, ◌==◌, if◌then◌else◌, ltb→lt,
  lt→ltb, le→ltb, ltb→le, tests, Bool-cases, Option-cases, Bytes, codes, length, get_elem?, take,
  drop, All, length-append, length-take, length-drop, take-append, drop-append, take_all,
  All-append, All-map, get_elem?-append,
}
use tiny_kv.Disk.{Disk}
use tiny_kv.Common.Outcome.{Outcome, ok, fault}
use tiny_kv.Types.{Entry, find, IsSorted}
use tiny_kv.Iterator.{Iterator, contents}
use tiny_kv.Table.Verdict.{verdict}
use tiny_kv.Common.Words.{u64_mod, int_limit}

-- `meta`, `NewIterator` and `getSize` of a reader are called by nobody.
pub record TableFormat : Type 1 where
  pub Reader : Type 0
  -- `openTable(fullPath)`
  pub open_table : Disk → Bytes → Outcome Reader
  -- `writeTable(fullPath, entries, timestamp, fileNum)`: an exception leaves a disk behind too
  pub write_table : Disk → Bytes → Iterator → ℕ → ℕ → Outcome Reader × Disk
  -- `withinRange(key)`
  pub within_range : Reader → Bytes → Outcome Bool
  -- `get(key)`, which may read the file again
  pub get : Disk → Reader → Bytes → Outcome (Option Entry)

-- What a format promises.
pub record TableLaws (F : TableFormat) : Type 1 where
  -- on this disk the reader answers for these entries
  pub Holds : Disk → F.Reader → List Entry → Type 0
  -- the reader does not depend on the file at this path
  pub Avoids : F.Reader → Bytes → Type 0
  pub within_range-Holds :
      (d : Disk) (r : F.Reader) (es : List Entry) (k : Bytes)
      → Holds d r es
      → (b : Bool) × (F.within_range r k ≡ ok b) × (b ≡ false → find k es ≡ none)
  pub get-Holds :
      (d : Disk) (r : F.Reader) (es : List Entry) (k : Bytes)
      → Holds d r es
      → (o : Option Entry) × (F.get d r k ≡ ok o) × (verdict o ≡ verdict (find k es))
  -- a table that was written answers for the entries of the iterator, if an `int` counts them
  pub write_table-Holds :
      (d : Disk) (path : Bytes) (it : Iterator) (timestamp file_num : ℕ) (r : F.Reader)
      → (F.write_table d path it timestamp file_num).0 ≡ ok r
      → IsSorted (contents it)
      → length (contents it) < int_limit
      → timestamp < u64_mod
      → file_num < u64_mod
      → Holds (F.write_table d path it timestamp file_num).1 r (contents it)
  -- a write returns or throws
  pub write_table_defined :
      (d : Disk) (path : Bytes) (it : Iterator) (timestamp file_num : ℕ)
      → IsSorted (contents it)
      → timestamp < u64_mod
      → file_num < u64_mod
      → (F.write_table d path it timestamp file_num).0 ≢ fault
  -- a write leaves the readers of other files as they are, whether or not it succeeds
  pub write_table_frame :
      (d : Disk) (path : Bytes) (it : Iterator) (timestamp file_num : ℕ) (r : F.Reader)
      (es : List Entry)
      → Avoids r path
      → Holds d r es
      → Holds (F.write_table d path it timestamp file_num).1 r es
