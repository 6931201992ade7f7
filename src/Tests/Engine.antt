-- ===== src/Tests/Engine.antt =====
-- An engine of the in-memory format over an empty disk, and levels with tables.
use tiny_kv.Tests.{disk, banana, cherry, fruit}
use tiny_kv.Common.{◌≡◌, refl, false, Option, none, some, [], ◌∷◌, arith, if◌then◌else◌, codes}
use tiny_kv.Common.Outcome.{ok}
use tiny_kv.Common.Order.{compare_bytes, key_eq}
use tiny_kv.Types.{Entry, IsSorted, find, no_such_key}
use tiny_kv.Db
use tiny_kv.Storage
use tiny_kv.Level
use tiny_kv.MemTable
use tiny_kv.MemTable.{Engine, tombstone_of}
use tiny_kv.Storage.{Storage}
use tiny_kv.Level.{Level}
use tiny_kv.SsTable.{SsTable}
use tiny_kv.Db.{default_config, ok_response, no_key_response}
use tiny_kv.Wal.{no_fault}
use tiny_kv.InMemory.Laws.{Keeps, in_memory_laws}
use tiny_kv.Context.{Env}
use tiny_kv.Storage.Write.{FreshDirs, Wrote, write-Wrote}
use tiny_kv.MemTable.Flush.{IsStored, Flushed, flush_to_disk-Flushed}
use tiny_kv.InMemory.{in_memory}
use tiny_kv.MemTable.Writes.{Written, put-Written, del-Written, IsMissing}
use tiny_kv.Level.Lookup.{alive, get_key-newest}
use tiny_kv.Iterator.{Iterator, contents, over_skip_list}
use tiny_kv.SsTable.RoundTrip.{metadata}
use tiny_kv.Table.Verdict.{newest, verdict, or_else}
use tiny_kv.Db.Reads.{reply, get-del, get-force_flush, get-put}
use tiny_kv.Storage.Lookup.{first_alive, get_resurrects, get-first_alive}

abbrev pub env : Env
env = record {
  ns = λ n. n;
  ms = λ n. n;
  wal_fault = no_fault;
  wal_remove_fails = false;
  base_fails = false;
  base_listing = some [];
  level_fails = λ n. false;
  level_listing = λ n. some [];
}

pub env-FreshDirs : FreshDirs env
unfolding tiny_kv.Storage.scan_levels
env-FreshDirs = record {
  base_ok = refl;
  entries = [];
  listed = refl;
  scanned = λ max. ([], refl);
  levels_ok = λ n. refl;
  no_files = λ n. ([], refl, tt);
}

-- an engine whose memtable is full, over a directory that is empty
abbrev pub engine : Engine SsTable
engine = record {
  size = 3;
  read_only = false;
  skip_list = record { entries = fruit };
  wal = record {
    id = 0;
    base_path = codes "w";
    fname = codes "f";
    full_path = codes "w/f";
    file = none;
  };
  storage = record { max_level = 3; base_path = codes "s"; levels = [] };
  context = record { file_counter = 0; name_counter = 0; disk = disk };
}

pub IsSorted-fruit : IsSorted fruit
unfolding compare_bytes
IsSorted-fruit = ((refl, (refl, tt)), ((refl, tt), (tt, tt)))

engine-IsStored : IsStored in_memory in_memory_laws engine []
engine-IsStored = record { sorted = IsSorted-fruit; stored = refl; small = omega arith }

-- the same with room in the memtable, where the calls are short
abbrev pub roomy : Engine SsTable
roomy = record engine { size = 9 }

roomy-IsStored : IsStored in_memory in_memory_laws roomy []
roomy-IsStored = record { sorted = IsSorted-fruit; stored = refl; small = omega arith }

put_succeeds : (Db.put in_memory env (codes "d") (codes "x") roomy).0 ≡ ok ok_response
unfolding Db.put MemTable.put MemTable.flush_if_full tiny_kv.SkipList.get_length
    MemTable.log_and_set tiny_kv.Wal.append
put_succeeds = refl

get-put_example :
    Db.get in_memory (Db.put in_memory env (codes "d") (codes "x") roomy).1 (codes "a") ≡ (
      if key_eq (codes "d") (codes "a")
      then ok (reply (some (codes "x")))
      else Db.get in_memory roomy (codes "a"))
get-put_example =
    get-put in_memory in_memory_laws env (codes "d") (codes "x") roomy [] roomy-IsStored refl
      (env-FreshDirs, omega arith) put_succeeds (codes "a")

del_succeeds : (Db.del in_memory env (codes "a") roomy).0 ≡ ok ok_response
unfolding Db.del MemTable.del tiny_kv.SkipList.get find compare_bytes MemTable.flush_if_full
    tiny_kv.SkipList.get_length MemTable.log_and_set tiny_kv.Wal.append
del_succeeds = refl

get-del_example : Db.get in_memory (Db.del in_memory env (codes "a") roomy).1 (codes "a") ≡ (
    if key_eq (codes "a") (codes "a")
    then ok no_key_response
    else Db.get in_memory roomy (codes "a"))
get-del_example =
    get-del in_memory in_memory_laws env (codes "a") roomy [] roomy-IsStored refl
      (env-FreshDirs, omega arith) del_succeeds (codes "a")

get-force_flush_example :
    Db.get in_memory (Db.force_flush in_memory env engine).1 (codes "c")
    ≡ Db.get in_memory engine (codes "c")
get-force_flush_example =
    get-force_flush in_memory in_memory_laws env engine [] engine-IsStored
      (env-FreshDirs, omega arith) (codes "c")

flush_to_disk-Flushed_example :
    Flushed in_memory in_memory_laws engine [] (MemTable.flush_to_disk in_memory env engine)
flush_to_disk-Flushed_example =
    flush_to_disk-Flushed in_memory in_memory_laws env engine [] engine-IsStored
      (env-FreshDirs, omega arith)

put-Written_example :
    Written in_memory in_memory_laws cherry engine []
      (MemTable.put in_memory env (codes "c") (codes "dark") engine)
put-Written_example =
    put-Written in_memory in_memory_laws env (codes "c") (codes "dark") engine [] engine-IsStored
      refl (env-FreshDirs, omega arith)

del-Written_example :
    (IsMissing in_memory in_memory_laws (codes "a") engine []
      → MemTable.del in_memory env (codes "a") engine ≡ (ok (some no_such_key), engine))
    × (¬ IsMissing in_memory in_memory_laws (codes "a") engine []
        → Written in_memory in_memory_laws
            (tombstone_of in_memory (codes "a"))
            engine
            []
            (MemTable.del in_memory env (codes "a") engine))
del-Written_example =
    del-Written in_memory in_memory_laws env (codes "a") engine [] engine-IsStored refl
      (env-FreshDirs, omega arith)

abbrev entries_of : Iterator
entries_of = over_skip_list (record { table = fruit; pos = 0 })

IsSorted-contents : IsSorted (contents entries_of)
unfolding contents
IsSorted-contents = IsSorted-fruit

write-Wrote_example :
    Wrote in_memory in_memory_laws
      (contents entries_of)
      []
      (Storage.write in_memory env engine.context engine.storage entries_of)
write-Wrote_example =
    write-Wrote in_memory in_memory_laws env engine.context engine.storage entries_of [] refl
      env-FreshDirs IsSorted-contents (unfold contents in omega arith) (omega arith)

abbrev pub table_of : Entry → SsTable
table_of e = record { meta = metadata e [] 0 0; entries = e ∷ [] }

table_of-Keeps : (e : Entry) → Keeps (table_of e) (e ∷ [])
table_of-Keeps e = record { same = refl; sorted = (tt, tt); full = λ p. cc; short = omega arith }

abbrev pub level : Entry → Level SsTable
level e = record { level_num = 0; directory = codes "s/level-0"; readers = table_of e ∷ [] }

get_key-newest_example :
    (o : Option Entry) × (Level.get_key in_memory disk (level cherry) (codes "c") ≡ ok o)
    × (verdict o ≡ alive (newest (codes "c") ((cherry ∷ []) ∷ [])))
get_key-newest_example =
    get_key-newest in_memory in_memory_laws disk (level cherry) (codes "c") ((cherry ∷ []) ∷ [])
      (table_of-Keeps cherry, tt)

abbrev pub old_banana : Entry
old_banana = record { key = codes "b"; val = codes "yellow"; tombstone = false }

abbrev pub two_levels : Storage SsTable
two_levels = record {
  max_level = 1;
  base_path = codes "s";
  levels = level banana ∷ level old_banana ∷ [];
}

get-first_alive_example :
    (o : Option Entry) × (Storage.get in_memory disk two_levels (codes "b") ≡ ok o)
    × (verdict o ≡ first_alive (codes "b") (((banana ∷ []) ∷ []) ∷ ((old_banana ∷ []) ∷ []) ∷ []))
get-first_alive_example =
    get-first_alive in_memory in_memory_laws disk two_levels (codes "b")
      (((banana ∷ []) ∷ []) ∷ ((old_banana ∷ []) ∷ []) ∷ [])
      ((table_of-Keeps banana, tt), ((table_of-Keeps old_banana, tt), tt))

banana_gone : newest (codes "b") ((banana ∷ []) ∷ []) ≡ some none
unfolding newest verdict or_else find compare_bytes
banana_gone = refl

banana_old : newest (codes "b") ((old_banana ∷ []) ∷ []) ≡ some (some (codes "yellow"))
unfolding newest verdict or_else find compare_bytes
banana_old = refl

get_resurrects_example :
    (o : Option Entry) × (Storage.get in_memory disk two_levels (codes "b") ≡ ok o)
    × (verdict o ≡ some (some (codes "yellow")))
get_resurrects_example =
    get_resurrects in_memory in_memory_laws disk two_levels (codes "b") (codes "yellow")
      ((banana ∷ []) ∷ []) ((old_banana ∷ []) ∷ []) []
      ((table_of-Keeps banana, tt), ((table_of-Keeps old_banana, tt), tt)) banana_gone banana_old
