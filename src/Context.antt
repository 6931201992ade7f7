-- ===== src/Context.antt =====
-- contexts/system_context.h, and what a call finds in its surroundings: clocks, directory listings,
-- and whether the log's file can be written.
use tiny_kv.Common.{ℕ, ◌+◌, ◌%◌, Bool, Option, List, Bytes}
use tiny_kv.Wal.{AppendFault}
use tiny_kv.Disk.{Disk}
use tiny_kv.Common.Words.{u64_mod}

-- an entry of a directory, as `directory_iterator` yields it
pub record DirEntry : Type 0 where
  pub name : Bytes
  pub is_directory : Bool
  pub is_regular : Bool

-- One call's surroundings. The clocks are read once for each table, so they depend on how many
-- tables were named before. A listing is `none` where the directory cannot be read.
pub record Env : Type 0 where
  pub ns : ℕ → ℕ
  pub ms : ℕ → ℕ
  pub wal_fault : AppendFault
  pub wal_remove_fails : Bool
  pub base_fails : Bool
  pub base_listing : Option (List DirEntry)
  pub level_fails : ℕ → Bool
  pub level_listing : ℕ → Option (List DirEntry)

-- the state that the components share: `SystemContext`, the counter of `_generateSSTableFileName`,
-- which is static in the code (the model has one engine to a process), and the disk
pub record Context : Type 0 where
  pub file_counter : ℕ
  pub name_counter : ℕ
  pub disk : Disk

-- `FileNumberAllocator::next`
unfoldable pub next_file_number : Context → ℕ × Context
next_file_number c = (c.file_counter, record c { file_counter = (c.file_counter + 1) % u64_mod })

-- `FileNumberAllocator::restore`
unfoldable pub restore_file_number : ℕ → Context → Context
restore_file_number n c = record c { file_counter = n }
