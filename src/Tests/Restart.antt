-- ===== src/Tests/Restart.antt =====
-- A start of the engine on a directory that holds tables.
use tiny_kv.Tests.{disk, fruit}
use tiny_kv.Tests.Engine.{env, IsSorted-fruit, engine, two_levels}
use tiny_kv.Common.{
  ◌≡◌, refl, Option, none, some, [], ◌∷◌, ◌++◌, inl, inr, true, false, arith, codes, Bytes,
  if◌then◌else◌, length, ◌==◌, ◌||◌, ltb,
}
use tiny_kv.Common.Outcome.{ok, fault}
use tiny_kv.Context.{Env, DirEntry}
use tiny_kv.Disk.{Disk, store, files-store}
use tiny_kv.InMemory.{in_memory}
use tiny_kv.InMemory.Laws.{in_memory_laws}
use tiny_kv.InMemory.Files.{StoresTable, in_memory_files}
use tiny_kv.SsTable.Writer.{table_bytes}
use tiny_kv.SsTable.{SsTable}
use tiny_kv.Storage
use tiny_kv.Db
use tiny_kv.Storage.{Storage, level_path}
use tiny_kv.Storage.Discover.{level_dir}
use tiny_kv.Storage.Lookup.{first_alive}
use tiny_kv.Storage.Restart.{FoundDirs, init_levels-first_alive}
use tiny_kv.Table.Verdict.{verdict}
use tiny_kv.Types.{Entry}
use tiny_kv.Common.Order.{key_eq_self}
use tiny_kv.Tests.Files.{fruit-FitsWord}
use tiny_kv.MemTable.{Engine}
use tiny_kv.Db.{ok_response}
use tiny_kv.Db.Compact.{force_compact_lem}

abbrev table_file : DirEntry
table_file = record { name = codes "table-1"; is_directory = false; is_regular = true }

abbrev used_env : Env
used_env = record env {
  base_listing = some (level_dir 0 ∷ []);
  level_listing = λ n. some (record table_file { is_regular = false } ∷ table_file ∷ []);
}

abbrev table_path : Bytes
table_path = level_path (codes "s") 0 ++ codes "/" ++ codes "table-1"

abbrev used_disk : Disk
used_disk = store disk table_path (table_bytes fruit 5 6)

abbrev storage : Storage SsTable
storage = record { max_level = 1; base_path = codes "s"; levels = [] }

used_disk-StoresTable : StoresTable used_disk table_path fruit
used_disk-StoresTable = record {
  first = _;
  rest = _;
  es_lem = refl;
  timestamp = 5;
  file_num = 6;
  there = ground (
    arith,
    files-store disk table_path (table_bytes fruit 5 6) table_path,
    key_eq_self table_path,
  );
  sorted = IsSorted-fruit;
  short = omega arith;
  fits = fruit-FitsWord;
  timestamp_fits = omega arith;
  file_num_fits = omega arith;
}

used-FoundDirs :
    FoundDirs in_memory in_memory_laws in_memory_files used_env used_disk storage
      ((fruit ∷ []) ∷ [] ∷ [])
used-FoundDirs = record {
  base_ok = refl;
  found = 0 ∷ [];
  listed = refl;
  in_range = (omega arith, tt);
  small = omega arith;
  each_level = refl;
  stored = (
    inl (
      unfold tiny_kv.Storage.contains in refl,
      (_, refl, inl (refl, inr (refl, used_disk-StoresTable, refl))),
    ),
    (inr (unfold tiny_kv.Storage.contains in refl, refl, refl), tt),
  );
}

init_levels-first_alive_example :
    ((Storage.init_levels in_memory used_env used_disk storage).0 ≡ ok none)
    × ((o : Option Entry) × (Storage.get in_memory used_disk
            (Storage.init_levels in_memory used_env used_disk storage).1
            (codes "c")
          ≡ ok o)
        × (verdict o ≡ first_alive (codes "c") ((fruit ∷ []) ∷ [] ∷ [])))
init_levels-first_alive_example =
    init_levels-first_alive in_memory in_memory_laws in_memory_files used_env used_disk storage
      (codes "c") ((fruit ∷ []) ∷ [] ∷ []) used-FoundDirs

-- an engine whose levels were all made
abbrev compacted : Engine SsTable
compacted = record engine { storage = two_levels }

force_compact_lem_example : Db.force_compact in_memory compacted ≡ (
  if length compacted.storage.levels == 0
        || ltb compacted.storage.max_level (length compacted.storage.levels)
      then ok ok_response
      else fault,
  compacted,
)
force_compact_lem_example = force_compact_lem in_memory compacted
