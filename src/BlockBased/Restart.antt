-- ===== src/BlockBased/Restart.antt =====
-- The block-based format as one that is opened again after a restart.
use tiny_kv.Common.{◌≡◌, sym, List, subst, Bytes}
use tiny_kv.BlockBased.{block_based}
use tiny_kv.BlockBased.Laws.{block_based_laws}
use tiny_kv.BlockBased.Files.{StoresBlocks, open_table-IsTable}
use tiny_kv.BlockBased.Holds.{HoldsBlocks}
use tiny_kv.BlockBased.Reader
use tiny_kv.BlockBased.Reader.{BlockReader}
use tiny_kv.Common.Outcome.{ok}
use tiny_kv.Disk.{Disk}
use tiny_kv.Types.{Entry}
use tiny_kv.Table.Files.{TableFiles}

pub open_table-StoresBlocks :
    (d : Disk) (path : Bytes) (es : List Entry)
    → StoresBlocks d path es
    → (r : BlockReader) × (Reader.open_table d path ≡ ok r) × HoldsBlocks d r es
open_table-StoresBlocks d path es h =
    let (r, back, holds, ts_lem, fn_lem, covers) =
      open_table-IsTable d path h.first h.rest h.timestamp h.file_num h.file h.there h.table
        h.sorted h.timestamp_fits h.file_num_fits h.small in
    (r, back, subst (HoldsBlocks d r) (sym h.es_lem) holds)

abbrev pub block_based_files : TableFiles block_based block_based_laws
block_based_files = record { Stores = StoresBlocks; open_table-Stores = open_table-StoresBlocks }
