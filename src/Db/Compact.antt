-- ===== src/Db/Compact.antt =====
-- A forced compaction, seen by a client.
use tiny_kv.Common.{◌≡◌, ◌||◌, if◌then◌else◌, ltb, ◌==◌, length, arith}
use tiny_kv.Common.Outcome.{ok, fault}
use tiny_kv.Table.{TableFormat}
use tiny_kv.Db.{force_compact, ok_response}
use tiny_kv.MemTable.{Engine}
use tiny_kv.Storage.Compact.{compact_lem}

module _ (F : TableFormat) where
  -- A forced compaction leaves the engine as it is. It answers OK when there are no levels yet, or
  -- more of them than the number of the highest; of fewer, as a failed start of the levels leaves
  -- them, it reads past their end.
  pub force_compact_lem :
      (s : Engine F.Reader)
      → force_compact F s ≡ (
        if length s.storage.levels == 0 || ltb s.storage.max_level (length s.storage.levels)
            then ok ok_response
            else fault,
        s,
      )
  unfolding force_compact
  force_compact_lem s = ground (arith, compact_lem F s.storage)
