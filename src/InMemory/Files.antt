-- ===== src/InMemory/Files.antt =====
-- The in-memory format opens the files that its writer makes.
use tiny_kv.Common.{ℕ, ◌<◌, ◌≡◌, refl, List, ◌∷◌, arith, some, Bytes, All, length}
use tiny_kv.Common.Outcome.{ok}
use tiny_kv.Common.Words.{u64_mod, int_limit}
use tiny_kv.Disk.{Disk}
use tiny_kv.InMemory.{open_table, in_memory}
use tiny_kv.InMemory.Laws.{Keeps, in_memory_laws}
use tiny_kv.SsTable.{SsTable}
use tiny_kv.SsTable.Reader
use tiny_kv.SsTable.RoundTrip.{FitsWord, metadata, read_data-table_bytes}
use tiny_kv.SsTable.Writer.{table_bytes}
use tiny_kv.Table.Files.{TableFiles}
use tiny_kv.Types.{Entry, IsSorted}

-- The file holds what the writer makes of these entries.
pub record StoresTable (d : Disk) (path : Bytes) (es : List Entry) : Type 0 where
  pub first : Entry
  pub rest : List Entry
  pub es_lem : es ≡ first ∷ rest
  pub timestamp : ℕ
  pub file_num : ℕ
  pub there : d.files path ≡ some (table_bytes (first ∷ rest) timestamp file_num)
  pub sorted : IsSorted (first ∷ rest)
  pub short : length (first ∷ rest) < int_limit
  pub fits : All FitsWord (first ∷ rest)
  pub timestamp_fits : timestamp < u64_mod
  pub file_num_fits : file_num < u64_mod

pub open_table-StoresTable :
    (d : Disk) (path : Bytes) (es : List Entry)
    → StoresTable d path es
    → (r : SsTable) × (open_table d path ≡ ok r) × Keeps r es
unfolding open_table Reader.read
open_table-StoresTable d path es h = (
  record { meta = metadata h.first h.rest h.timestamp h.file_num; entries = h.first ∷ h.rest },
  ground (
    arith,
    h.there,
    read_data-table_bytes h.first h.rest h.timestamp h.file_num h.sorted h.fits h.timestamp_fits
        h.file_num_fits,
  ),
  rw h.es_lem (record { same = refl; sorted = h.sorted; full = λ p. cc; short = h.short }),
)

abbrev pub in_memory_files : TableFiles in_memory in_memory_laws
in_memory_files = record { Stores = StoresTable; open_table-Stores = open_table-StoresTable }
