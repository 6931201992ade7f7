-- ===== src/Message.antt =====
-- api/message.h, and the texts of the errors that reach a client.
use tiny_kv.Common.{Bool, Option, List, Bytes, codes}
use tiny_kv.Types.{Error}
use tiny_kv.Types.{
  put_read_only, put_flush_failed, wal_failed, no_such_key, del_read_only, del_flush_failed,
  del_failed, replay_flush_failed, wal_open, wal_header, wal_payload, wal_flush, wal_remove,
  no_base_directory, no_level_directory,
}

pub data Command : Type 0 where
  put get del exit flush unknown : Command

pub record Request : Type 0 where
  pub command : Command
  pub args : List Bytes

pub record Response : Type 0 where
  pub is_ok : Bool
  pub message : Bytes
  pub payload : Option Bytes

-- The messages of the `Error` values; where the code adds a path or the system's message, the part
-- before it.
unfoldable pub error_text : Error → Bytes
error_text put_read_only = codes "[MemTableImpl.put()] Cannot PUT: memtable in read-only mode"
error_text put_flush_failed = codes "[MemTableImpl.put()] Failed to PUT: Flushing error "
error_text wal_failed = codes "MemTableImpl.put()] Failed to PUT: Failed to write to WAL"
error_text no_such_key = codes "Cannot DELETE: key does not exist"
error_text del_read_only = codes "Cannot DELETE: memtable in read-only mode"
error_text del_flush_failed = codes "[MemTableImpl.put()] Failed to DELETE: Flushing error "
error_text del_failed = codes "Failed to DELETE"
error_text replay_flush_failed =
    codes "[MemTableImpl.replayWal()] Failed to replay WAL: Flushing error "
error_text wal_open = codes "open WAL for append failed: "
error_text wal_header = codes "write WAL header failed"
error_text wal_payload = codes "write WAL payload failed"
error_text wal_flush = codes "flush WAL failed"
error_text wal_remove = codes "WAL::remove failed: "
error_text no_base_directory = codes "Failed to create base directory: "
error_text no_level_directory = codes "Failed to create directory "
