-- ===== src/MemTable/Recover.antt =====
-- `replayWal` over a log of any length.
pub mod Loop
use tiny_kv.Common.{
  ◌%◌, ◌<◌, ◌≡◌, refl, ap, ◌∙◌, true, false, lt→ltb, Option, none, some, List, [], ◌∷◌, ◌++◌, map,
  arith, ltb, ◌==◌, Bytes, length, inl, inr, Bool-cases, subst, sym, append-nil, if◌then◌else◌,
  Bool,
}
use tiny_kv.Common.Outcome.{throws, fault, Outcome, ok, Exception}
use tiny_kv.Types.{Entry, Error, IsSorted}
use tiny_kv.Common.Exec.{Exec, continue, ◌>>=◌, ◌>>◌, pure}
use tiny_kv.Common.Words.{u32_mod, int_limit}
use tiny_kv.MemTable.{Engine, replay_wal, replay_loop, flush_to_disk}
use tiny_kv.SkipList
use tiny_kv.SkipList.{insert}
use tiny_kv.Wal.{get_entries, replayed}
use tiny_kv.Table.{TableFormat, TableLaws}
use tiny_kv.Context.{Env}
use tiny_kv.Table.Verdict.{Verdict}
use tiny_kv.SkipList.Laws.{insert-IsSorted}
use tiny_kv.MemTable.Flush.{
  engine_verdict, IsStored, Flushed, engine_verdict_flush, flush_to_disk-Flushed,
  flush_to_disk_small,
}
use tiny_kv.MemTable.Writes.{updated, engine_verdict-insert, engine_verdict_twice}
use tiny_kv.MemTable.Replay.{
  verdict_after, verdict_after-logged, with_entries, replay_next, after_replay,
}
use tiny_kv.Wal.RoundTrip.{logged, Holds, get_entries-Holds}
use tiny_kv.Storage.Write.{OnlyLevel0}
use tiny_kv.MemTable.Recover.Loop.{
  Reaches, Stopped, verdicts, Looped, replay_loop-Looped, CanFlushAll,
}

module _ (F : TableFormat) (laws : TableLaws F) where
  -- What recovery leaves: on success or a reported error, every write is in; on an exception, the
  -- first of them, as the loop made them.
  abbrev pub Recovered :
      List Entry
      → Engine F.Reader
      → List (List Entry)
      → Outcome (Option Error) × Engine F.Reader
      → Type 0
  Recovered es s tables (ok none, s') =
      (tables' : List (List Entry)) × IsStored F laws s' tables'
      × (s'.read_only ≡ false)
      × Reaches F laws s' tables' es (verdicts F laws s tables)
  Recovered es s tables (ok (some x), s') =
      (tables' : List (List Entry)) × OnlyLevel0 F laws s'.context.disk s'.storage.levels tables'
      × Reaches F laws s' tables' es (verdicts F laws s tables)
  Recovered es s tables (throws x, s') = Stopped F laws es (verdicts F laws s tables) s'
  Recovered es s tables (fault, s') = ⊥

  -- `replayWal` when its loop has ended in a state, by how it ended
  module _ (env : Env) (s u : Engine F.Reader) (es : List Entry)
      (g : get_entries s.wal ≡ replayed es) where
    held :
        length u.skip_list.entries < int_limit
        → length u.skip_list.entries % u32_mod ≡ length u.skip_list.entries
    held short = omega arith

    replay_left :
        length u.skip_list.entries < int_limit
        → replay_loop F env es (record s { read_only = true }) ≡ (ok tt, u)
        → ltb 0 (length u.skip_list.entries) ≡ true
        → replay_wal F env s
          ≡ continue (flush_to_disk F env u).0 (after_replay F laws env) (flush_to_disk F env u).1
    unfolding replay_wal SkipList.get_length
    replay_left short looped left = ground (arith, g, looped, left, held short, lt→ltb _ _ short)

    replay_nothing :
        length u.skip_list.entries < int_limit
        → replay_loop F env es (record s { read_only = true }) ≡ (ok tt, u)
        → ltb 0 (length u.skip_list.entries) ≡ false
        → replay_wal F env s ≡ after_replay F laws env none u
    unfolding replay_wal SkipList.get_length
    replay_nothing short looped left = ground (arith, g, looped, left, held short, lt→ltb _ _ short)

    replay_throws :
        (x : Exception)
        → replay_loop F env es (record s { read_only = true }) ≡ (throws x, u)
        → replay_wal F env s ≡ (throws x, u)
    unfolding replay_wal
    replay_throws x looped = ground (arith, g, looped)

  Flushed-Recovered :
      (env : Env) (es : List Entry) (s u : Engine F.Reader) (tables tables' : List (List Entry))
      (r : Outcome (Option Error) × Engine F.Reader)
      → Flushed F laws u tables' r
      → Reaches F laws u tables' es (verdicts F laws s tables)
      → Recovered es s tables (continue r.0 (after_replay F laws env) r.1)
  Flushed-Recovered env es s u tables tables' (ok none, s') (still, open_, empty, log, size) v = (
    u.skip_list.entries ∷ tables',
    record { sorted = still.sorted; stored = still.stored; small = still.small },
    refl,
    λ j. rw empty (engine_verdict_flush j u.skip_list.entries tables') ∙ v j,
  )
  Flushed-Recovered env es s u tables tables' (ok (some x), s') (same, w, o, inl kept) v =
      (tables', kept, λ j. rw same (v j))
  Flushed-Recovered env es s u tables tables' (ok (some x), s') (same, w, o, inr added) v = (
    u.skip_list.entries ∷ tables',
    added,
    λ j. rw same (engine_verdict_twice j u.skip_list.entries tables') ∙ v j,
  )
  Flushed-Recovered env es s u tables tables' (throws x, s') (same, w, o, kept) v =
      (tables', es, [], sym (append-nil es), kept, λ j. rw same (v j))
  Flushed-Recovered env es s u tables tables' (fault, s') h v = h

  -- `replayWal` on a log of whole records, as many as there may be, for an engine in order
  -- (`IsStored`: its memtable in key order, all its tables at level 0, its file counter in 64 bits)
  -- that, before each record and behind the last, meets `CanFlush` (its memtable has fewer than 2 ^
  -- 31 entries; where it has levels, the file of the next table is none that a reader of level 0
  -- depends on; where it has none yet, the base directory can be made and scanned, and the level
  -- directories can be made and read and hold no file: `FreshDirs`). It returns or throws. If it
  -- reports no error, the engine accepts writes, and its verdict on every key is the one from
  -- before with the log's writes made over it in order; if it reports one, the verdicts are the
  -- same; if a flush throws, they are those after a first part of the log's writes.
  pub replay_wal-Recovered :
      (env : Env) (s : Engine F.Reader) (es : List Entry) (tables : List (List Entry))
      → IsStored F laws s tables
      → Holds s.wal es []
      → CanFlushAll F laws env es (record s { read_only = true })
      → Recovered es s tables (replay_wal F env s)
  replay_wal-Recovered env s es tables h log p =
      at (replay_loop F env (map logged es) (record s { read_only = true })) refl (
        replay_loop-Looped F laws env es (record s { read_only = true }) tables
          (record { sorted = h.sorted; stored = h.stored; small = h.small }) p)
    where
      replays : get_entries s.wal ≡ replayed (map logged es)
      replays = get_entries-Holds s.wal es [] log

      at :
          (r : Outcome (Unit {0}) × Engine F.Reader)
          → replay_loop F env (map logged es) (record s { read_only = true }) ≡ r
          → Looped F laws env es (verdicts F laws s tables) r
          → Recovered es s tables (replay_wal F env s)
      at (throws x, u) e l =
          subst (Recovered es s tables) (sym (replay_throws env s u (map logged es) replays x e)) l
      at (fault, u) e l = absurd l
      at (ok _, u) e (tables', h', placed, v) =
          elim (Bool-cases (ltb 0 (length u.skip_list.entries))) [
            | inr nothing ↦
                subst (Recovered es s tables)
                  (sym (replay_nothing env s u (map logged es) replays placed.1 e nothing))
                  (
                    tables',
                    record { sorted = h'.sorted; stored = h'.stored; small = h'.small },
                    refl,
                    v,
                  )
            | inl left ↦
                subst (Recovered es s tables)
                  (sym (replay_left env s u (map logged es) replays placed.1 e left))
                  (Flushed-Recovered env es s u tables tables' (flush_to_disk F env u)
                    (flush_to_disk-Flushed F laws env u tables' h' placed) v)
          ]
