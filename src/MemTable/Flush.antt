-- ===== src/MemTable/Flush.antt =====
-- What a flush leaves, on success, on an error and on an exception.
use tiny_kv.Common.{
  ◌≤◌, ◌<◌, ◌≡◌, refl, sym, ◌⊎◌, inl, inr, Bool, true, false, Option, none, some, List, [], ◌∷◌,
  subst, arith, Bytes, length,
}
use tiny_kv.Common.Outcome.{Outcome, ok, throws, fault}
use tiny_kv.Types.{Entry, Error, IsSorted, find}
use tiny_kv.SkipList
use tiny_kv.SkipList.Iter as SkipIter
use tiny_kv.Storage
use tiny_kv.Storage.{Storage}
use tiny_kv.Wal
use tiny_kv.MemTable.{Engine, flush_to_disk, after_write}
use tiny_kv.Common.Exec.{continue}
use tiny_kv.Table.Verdict.{Verdict, verdict, or_else, newest}
use tiny_kv.Table.{TableFormat, TableLaws}
use tiny_kv.Storage.Write.{OnlyLevel0, CanPlace, Wrote, write-Wrote}
use tiny_kv.Context.{Env, Context}
use tiny_kv.Common.Words.{u64_mod, int_limit}
use tiny_kv.Iterator.{Iterator, over_skip_list, contents}

-- The verdict on a key: the memtable first, then the tables, newest first.
unfoldable pub engine_verdict : Bytes → List Entry → List (List Entry) → Verdict
engine_verdict k entries tables = or_else (verdict (find k entries)) (newest k tables)

module _ (F : TableFormat) (laws : TableLaws F) where
  -- the memtable's entries are in key order, and level 0 holds `tables`
  pub record IsStored (s : Engine F.Reader) (tables : List (List Entry)) : Type 0 where
    pub sorted : IsSorted s.skip_list.entries
    pub stored : OnlyLevel0 F laws s.context.disk s.storage.levels tables
    pub small : s.context.file_counter < u64_mod

  -- The engine may write its next table: to a path that no reader depends on (`CanPlace`), from
  -- entries that an `int` counts.
  abbrev pub CanFlush : Env → Engine F.Reader → Type 0
  CanFlush env s =
      CanPlace F laws env s.context s.storage.levels × (length s.skip_list.entries < int_limit)

  -- How a flush of `s` may end.
  abbrev pub Flushed :
      Engine F.Reader → List (List Entry) → Outcome (Option Error) × Engine F.Reader → Type 0
  Flushed s tables (ok none, s') =
      IsStored s' (s.skip_list.entries ∷ tables)
      × (s'.read_only ≡ false)
      × (s'.skip_list.entries ≡ [])
      × (s'.wal.file ≡ none)
      × (s'.size ≡ s.size)
  Flushed s tables (ok (some e), s') =
      (s'.skip_list ≡ s.skip_list)
      × (s'.wal ≡ s.wal)
      × (s'.read_only ≡ true)
      × (OnlyLevel0 F laws s'.context.disk s'.storage.levels tables
          ⊎ OnlyLevel0 F laws s'.context.disk s'.storage.levels (s.skip_list.entries ∷ tables))
  Flushed s tables (throws x, s') =
      (s'.skip_list ≡ s.skip_list)
      × (s'.wal ≡ s.wal)
      × (s'.read_only ≡ true)
      × OnlyLevel0 F laws s'.context.disk s'.storage.levels tables
  Flushed s tables (fault, s') = ⊥

  -- the rest of the flush, behind the storage's `write`
  abbrev resume :
      Env
      → Engine F.Reader
      → Outcome (Option Error) × Context × Storage F.Reader
      → Outcome (Option Error) × Engine F.Reader
  resume env s w =
      continue w.0 (after_write F env) (record s { read_only = true; context = w.1; storage = w.2 })

  resume-Flushed :
      (env : Env) (s : Engine F.Reader) (tables : List (List Entry))
      (w : Outcome (Option Error) × Context × Storage F.Reader)
      → Wrote F laws s.skip_list.entries tables w
      → Flushed s tables (resume env s w)
  unfolding after_write Wal.remove SkipList.clear
  resume-Flushed env s tables (throws x, c, st) h = (refl, refl, refl, h.1 (λ q. cc))
  resume-Flushed env s tables (fault, c, st) h = absurd (h.3 refl)
  resume-Flushed env s tables (ok (some e), c, st) h =
      (refl, refl, refl, inl (h.1 (λ q. ground arith)))
  resume-Flushed env s tables (ok none, c, st) h = at env.wal_remove_fails refl
    where
      at : (b : Bool) → env.wal_remove_fails ≡ b → Flushed s tables (resume env s (ok none, c, st))
      at true e = rw e (refl, refl, refl, inr (h.0 refl))
      at false e =
          rw e (record { sorted = tt; stored = h.0 refl; small = h.2 }, refl, refl, refl, refl)

  wrote :
      (env : Env) (s : Engine F.Reader) (tables : List (List Entry))
      → IsStored s tables
      → CanFlush env s
      → Wrote F laws s.skip_list.entries tables (
          Storage.write F env s.context s.storage
            (over_skip_list (SkipIter.new_iterator s.skip_list)))
  wrote env s tables h p =
      subst
        (λ (es : List Entry). Wrote F laws es tables (Storage.write F env s.context s.storage it))
        same
        (write-Wrote F laws env s.context s.storage it tables h.stored p.0
          (subst IsSorted (sym same) h.sorted)
          (subst (λ (es : List Entry). length es < int_limit) (sym same) p.1) h.small)
    where
      it : Iterator
      it = over_skip_list (SkipIter.new_iterator s.skip_list)

      same : contents it ≡ s.skip_list.entries
      same = unfold contents SkipIter.new_iterator in refl

  resume_small :
      (env : Env) (s : Engine F.Reader) (w : Outcome (Option Error) × Context × Storage F.Reader)
      → w.1.file_counter < u64_mod
      → (resume env s w).1.context.file_counter < u64_mod
  unfolding after_write Wal.remove SkipList.clear
  resume_small env s (throws x, c, st) h = h
  resume_small env s (fault, c, st) h = h
  resume_small env s (ok (some e), c, st) h = h
  resume_small env s (ok none, c, st) h = at env.wal_remove_fails refl
    where
      at :
          (b : Bool)
          → env.wal_remove_fails ≡ b
          → (resume env s (ok none, c, st)).1.context.file_counter < u64_mod
      at true e = rw e h
      at false e = rw e h

  length-resume :
      (env : Env) (s : Engine F.Reader) (w : Outcome (Option Error) × Context × Storage F.Reader)
      → length (resume env s w).1.skip_list.entries ≤ length s.skip_list.entries
  unfolding after_write Wal.remove SkipList.clear
  length-resume env s (throws x, c, st) = omega arith
  length-resume env s (fault, c, st) = omega arith
  length-resume env s (ok (some e), c, st) = omega arith
  length-resume env s (ok none, c, st) = at env.wal_remove_fails refl
    where
      at :
          (b : Bool)
          → env.wal_remove_fails ≡ b
          → length (resume env s (ok none, c, st)).1.skip_list.entries ≤ length s.skip_list.entries
      at true e = rw e (omega arith)
      at false e = rw e (omega arith)

  -- A flush puts nothing into the memtable.
  pub length-flush_to_disk :
      (env : Env) (s : Engine F.Reader)
      → length (flush_to_disk F env s).1.skip_list.entries ≤ length s.skip_list.entries
  unfolding flush_to_disk
  length-flush_to_disk env s = length-resume env s _

  -- However a flush ends, the file counter stays in its 64 bits.
  pub flush_to_disk_small :
      (env : Env) (s : Engine F.Reader) (tables : List (List Entry))
      → IsStored s tables
      → CanFlush env s
      → (flush_to_disk F env s).1.context.file_counter < u64_mod
  unfolding flush_to_disk
  flush_to_disk_small env s tables h p = resume_small env s _ (wrote env s tables h p).2

  -- A flush of an engine in order (`IsStored`: its memtable in key order, all its tables at level
  -- 0, its file counter in 64 bits) that meets `CanFlush` (its memtable has fewer than 2 ^ 31
  -- entries; where it has levels, the file of the next table is none that a reader of level 0
  -- depends on; where it has none yet, the base directory can be made and scanned, and the level
  -- directories can be made and read and hold no file: `FreshDirs`) ends in one of three ways, and
  -- never in undefined behaviour. It succeeds: the memtable's entries are the newest table of level
  -- 0, the memtable and the log are empty, and writes are accepted. It reports an error: memtable
  -- and log are as before, the memtable is left read-only, and level 0 has its old tables, or those
  -- and the new one in front. It throws: memtable, log and tables are as before, and the memtable
  -- is left read-only.
  pub flush_to_disk-Flushed :
      (env : Env) (s : Engine F.Reader) (tables : List (List Entry))
      → IsStored s tables
      → CanFlush env s
      → Flushed s tables (flush_to_disk F env s)
  unfolding flush_to_disk
  flush_to_disk-Flushed env s tables h p = resume-Flushed env s tables _ (wrote env s tables h p)

-- What the client sees is the same before and after a flush.
pub engine_verdict_flush :
    (k : Bytes) (entries : List Entry) (tables : List (List Entry))
    → engine_verdict k [] (entries ∷ tables) ≡ engine_verdict k entries tables
unfolding engine_verdict find verdict or_else newest
engine_verdict_flush k entries tables = refl
