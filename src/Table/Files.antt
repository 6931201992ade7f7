-- ===== src/Table/Files.antt =====
-- What a format promises of the files that it finds when it is opened.
use tiny_kv.Common.{◌≡◌, List, Bytes}
use tiny_kv.Common.Outcome.{ok}
use tiny_kv.Disk.{Disk}
use tiny_kv.Table.{TableFormat, TableLaws}
use tiny_kv.Types.{Entry}

pub record TableFiles (F : TableFormat) (laws : TableLaws F) : Type 1 where
  -- the file at this path is a table of these entries
  pub Stores : Disk → Bytes → List Entry → Type 0
  -- such a file is opened, to a reader that answers for them
  pub open_table-Stores :
      (d : Disk) (path : Bytes) (es : List Entry)
      → Stores d path es
      → (r : F.Reader) × (F.open_table d path ≡ ok r) × laws.Holds d r es
