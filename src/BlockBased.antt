-- ===== src/BlockBased.antt =====
-- core/sstable_manager/block_based/: the format whose reader keeps the index and reads a data block
-- from the file for each lookup.
pub mod Structs
pub mod Filter
pub mod Writer
pub mod Reader
pub mod Encode
pub mod Blocks
pub mod Build
pub mod Loop
pub mod Tail
pub mod Open
pub mod Reopen
pub mod Lookup
pub mod LowerBound
pub mod Holds
pub mod Written
pub mod Laws
pub mod WriteTable
pub mod Files
pub mod Restart
use tiny_kv.Common.Outcome.{Outcome, ok, throws, fault, create_failed, write_failed}
use tiny_kv.Common.{ℕ, ◌&&◌, true, false, if◌then◌else◌, ltb, leb, length, take, Bytes, Bool, ◌^◌}
use tiny_kv.Disk.{Disk, store}
use tiny_kv.Table.{TableFormat}
use tiny_kv.BlockBased.Reader
use tiny_kv.BlockBased.Reader.{BlockReader}
use tiny_kv.BlockBased.Writer.{build}
use tiny_kv.Iterator.{Iterator}

-- A device takes no more bytes than there is room, and no file has more than 2 ^ 63 - 1 of them.
unfoldable pub file_fits : Disk → Bytes → Bytes → Bool
file_fits d path bytes = leb (length bytes) (d.room path) && ltb (length bytes) (2 ^ 63)

-- The end of `writeTable`. The stream may hold bytes back and find only later that the device
-- refuses them, by `close` at the last; what the device took stands in the file whichever exception
-- is thrown.
unfoldable pub close_table : Disk → Bytes → Outcome (Unit {0}) × Bytes → Outcome BlockReader × Disk
unfolding file_fits
close_table d path (throws x, out) = (throws x, store d path (take (d.room path) out))
close_table d path (fault, out) = (fault, store d path (take (d.room path) out))
close_table d path (ok _, out) = elim (file_fits d path out) [
  | false ↦ (throws write_failed, store d path (take (d.room path) out))
  | true ↦ (Reader.open_table (store d path out) path, store d path out)
]

-- `can_create` answers for the directories too
unfoldable pub write_table : Disk → Bytes → Iterator → ℕ → ℕ → Outcome BlockReader × Disk
unfolding build close_table
write_table d path it timestamp file_num = elim (d.can_create path) [
  | false ↦ (throws create_failed, d)
  | true ↦ close_table d path (build it timestamp file_num)
]

abbrev pub block_based : TableFormat
block_based = record {
  Reader = BlockReader;
  open_table = Reader.open_table;
  write_table = write_table;
  within_range = λ r key. ok (Reader.within_range r key);
  get = Reader.get;
}
