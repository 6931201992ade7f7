-- ===== src/Db.antt =====
-- core/db_impl.cpp: the database that clients talk to, over the memtable and the storage; and
-- factories/db_factory.cpp, which builds it.
pub mod Reads
pub mod Session
pub mod Durability
pub mod Compact
use tiny_kv.Common.{
  ℕ, zero, suc, ◌+◌, ◌-◌, ◌*◌, ◌/◌, ◌%◌, ◌^◌, ◌≤◌, ◌<◌, Ordering, compare, ◌≡◌, refl, sym, ap, ◌∙◌,
  ◌≢◌, ◌↔◌, ◌⊎◌, inl, inr, Bool, true, false, not, ◌&&◌, ◌||◌, Option, none, some, List, [], ◌∷◌,
  ◌++◌, append_assoc, append-nil, map, foldl, subst, arith, String, ltb, leb, ◌==◌, if◌then◌else◌,
  ltb→lt, lt→ltb, le→ltb, ltb→le, tests, Bool-cases, Option-cases, Bytes, codes, length, get_elem?,
  take, drop, All, length-append, length-take, length-drop, take-append, drop-append, take_all,
  All-append, All-map, get_elem?-append,
}
use tiny_kv.Common.Outcome.{Outcome, ok, throws, fault}
use tiny_kv.Types.{Entry, Error}
use tiny_kv.Storage.{new_storage}
use tiny_kv.Wal.{new_wal}
use tiny_kv.MemTable
use tiny_kv.MemTable.{Engine}
use tiny_kv.Storage
use tiny_kv.SkipList
use tiny_kv.Common.Exec.{Exec, ◌>>=◌, pure}
use tiny_kv.Message.{Response, error_text}
use tiny_kv.Table.{TableFormat}
use tiny_kv.Disk.{Disk}
use tiny_kv.Context.{Env}

unfoldable pub ok_response : Response
ok_response = record { is_ok = true; message = codes "OK"; payload = none }

unfoldable pub no_key_response : Response
no_key_response = record { is_ok = false; message = codes "Key does not exist"; payload = none }

unfoldable pub failed : Bytes → Response
failed message = record { is_ok = false; message = message; payload = none }

-- `DbFactoryConfig`, with its defaults
pub record Config : Type 0 where
  pub memtable_capacity : ℕ
  pub wal_id : ℕ
  pub wal_directory : Bytes
  pub sstable_directory : Bytes
  pub max_levels : ℕ

abbrev pub default_config : Config
default_config = record {
  memtable_capacity = 3;
  wal_id = 0;
  wal_directory = codes "./wal";
  sstable_directory = codes "./sstables";
  max_levels = 3;
}

module _ (F : TableFormat) where
  -- `createDbWithConfig`, over the log file and the disk that are there
  unfoldable pub create_db : Config → Option Bytes → Disk → Engine F.Reader
  unfolding new_storage new_wal SkipList.empty
  create_db config log disk = record {
    size = config.memtable_capacity;
    read_only = false;
    skip_list = SkipList.empty;
    wal = new_wal config.wal_id config.wal_directory log;
    storage = new_storage F config.sstable_directory config.max_levels;
    context = record { file_counter = 0; name_counter = 0; disk = disk };
  }

  unfoldable pub put_response : Option Error → Response
  unfolding failed ok_response
  put_response (some e) = failed (error_text e)
  put_response none = ok_response

  unfoldable pub put : Env → Bytes → Bytes → Exec (Engine F.Reader) Response
  unfolding put_response
  put env k v = do err ← MemTable.put F env k v; pure (put_response err)

  -- what the storage answered, where the memtable had no entry
  unfoldable pub storage_response : Option Entry → Response
  unfolding no_key_response
  storage_response none = no_key_response
  storage_response (some e) = record { is_ok = true; message = codes "OK"; payload = some e.val }

  unfoldable pub get : Engine F.Reader → Bytes → Outcome Response
  unfolding storage_response
  get s k = elim (MemTable.get F s k) [
    | some e ↦ ok (
        if e.tombstone
        then no_key_response
        else record { is_ok = true; message = codes "OK"; payload = some e.val })
    | none ↦ elim (Storage.get F s.context.disk s.storage k) [
      | throws x ↦ throws x
      | fault ↦ fault
      | ok o ↦ ok (storage_response o)
    ]
  ]

  unfoldable pub del_response : Option Error → Response
  unfolding failed ok_response
  del_response (some e) = failed (codes "Failed to DELETE key: " ++ error_text e)
  del_response none = ok_response

  unfoldable pub del : Env → Bytes → Exec (Engine F.Reader) Response
  unfolding del_response
  del env k = do err ← MemTable.del F env k; pure (del_response err)

  -- the result of `compact` is dropped
  unfoldable pub force_compact : Exec (Engine F.Reader) Response
  unfolding ok_response
  force_compact s =
      let (r, st) = Storage.compact F s.storage in
      let s' = record s { storage = st } in
      elim r [ throws x ↦ (throws x, s') | fault ↦ (fault, s') | ok _ ↦ (ok ok_response, s') ]

  -- the result of the flush is dropped
  unfoldable pub force_flush : Env → Exec (Engine F.Reader) Response
  unfolding ok_response
  force_flush env = do _ ← MemTable.flush_to_disk F env; pure ok_response
