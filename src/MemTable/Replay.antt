-- ===== src/MemTable/Replay.antt =====
-- `replayWal`: the entries of the log go back through the memtable into a table.
use tiny_kv.Common.{
  ◌+◌, ◌%◌, ◌≤◌, ◌<◌, ◌≡◌, refl, ap, ◌∙◌, true, false, lt→ltb, Option, none, some, List, [], ◌∷◌,
  map, arith, ltb, ◌==◌, Bytes, length, suc, inl, inr, Bool-cases, subst, sym,
}
use tiny_kv.Common.Outcome.{throws, fault, Outcome, ok, throws}
use tiny_kv.Types.{Entry, Error, IsSorted, replay_flush_failed, find}
use tiny_kv.Common.Exec.{continue}
use tiny_kv.MemTable.{Engine, replay_wal, replay_loop, flush_to_disk}
use tiny_kv.SkipList
use tiny_kv.SkipList.{insert}
use tiny_kv.Wal
use tiny_kv.Wal.{get_entries, replayed}
use tiny_kv.Table.{TableFormat, TableLaws}
use tiny_kv.Context.{Env}
use tiny_kv.Common.Words.{u32_mod, int_limit}
use tiny_kv.Table.Verdict.{Verdict, verdict, newest, or_else}
use tiny_kv.SkipList.Laws.{insert-IsSorted, length-insert_bounds}
use tiny_kv.MemTable.Flush.{
  engine_verdict, IsStored, Flushed, engine_verdict_flush, flush_to_disk-Flushed,
}
use tiny_kv.MemTable.Writes.{updated, engine_verdict-insert, engine_verdict_twice}
use tiny_kv.Wal.RoundTrip.{logged, Holds, get_entries-Holds}
use tiny_kv.Storage.Write.{OnlyLevel0, CanPlace}

-- the map of a log's entries, the later ones over the earlier
unfoldable pub set_all : List Entry → List Entry → List Entry
set_all [] entries = entries
set_all (e ∷ es) entries = set_all es (insert e entries)

-- the verdict on a key after the writes of a log
unfoldable pub verdict_after : Bytes → List Entry → Verdict → Verdict
verdict_after j [] v = v
verdict_after j (e ∷ es) v = verdict_after j es (updated e j v)

set_all-IsSorted : (es entries : List Entry) → IsSorted entries → IsSorted (set_all es entries)
unfolding set_all
set_all-IsSorted [] entries h = h
set_all-IsSorted (e ∷ es) entries h =
    set_all-IsSorted es (insert e entries) (insert-IsSorted e entries h)

-- Setting the entries one by one makes their writes.
pub engine_verdict-set_all :
    (j : Bytes) (es entries : List Entry) (tables : List (List Entry))
    → engine_verdict j (set_all es entries) tables
      ≡ verdict_after j es (engine_verdict j entries tables)
unfolding set_all verdict_after
engine_verdict-set_all j [] entries tables = refl
engine_verdict-set_all j (e ∷ es) entries tables =
    engine_verdict-set_all j es (insert e entries) tables
    ∙ ap (verdict_after j es) (engine_verdict-insert j e entries tables)

pub length-set_all-le :
    (es entries : List Entry) → length (set_all es entries) ≤ length entries + length es
unfolding set_all
length-set_all-le [] entries = omega arith
length-set_all-le (e ∷ es) entries =
    omega (arith, length-set_all-le es (insert e entries), length-insert_bounds e entries)

-- a logged tombstone loses its value, which no verdict shows
pub verdict_after-logged :
    (j : Bytes) (es : List Entry) (v : Verdict)
    → verdict_after j (map logged es) v ≡ verdict_after j es v
unfolding verdict_after
verdict_after-logged j [] v = refl
verdict_after-logged j (e ∷ es) v =
    ap (verdict_after j (map logged es)) (same e) ∙ verdict_after-logged j es (updated e j v)
  where
    same : (e : Entry) → updated (logged e) j v ≡ updated e j v
    same e = unfold logged verdict in ground arith

pub length-map-logged : (es : List Entry) → length (map logged es) ≡ length es
length-map-logged [] = refl
length-map-logged (e ∷ es) = ap suc (length-map-logged es)

module _ (F : TableFormat) (laws : TableLaws F) where
  abbrev pub with_entries : Engine F.Reader → List Entry → Engine F.Reader
  with_entries s entries = record s { skip_list = record { entries = entries } }

  pub replay_next :
      (env : Env) (e : Entry) (es : List Entry) (s : Engine F.Reader)
      → length s.skip_list.entries < int_limit
      → (length s.skip_list.entries == s.size) ≡ false
      → replay_loop F env (e ∷ es) s
        ≡ replay_loop F env es (with_entries s (insert e s.skip_list.entries))
  unfolding replay_loop SkipList.get_length SkipList.set
  replay_next env e es s short h =
      let held : length s.skip_list.entries % u32_mod ≡ length s.skip_list.entries = omega arith in
      ground (arith, h, held)

  -- With room for all of them, the loop sets the entries and flushes nothing.
  replay_loop-set_all :
      (env : Env) (es entries : List Entry) (s : Engine F.Reader)
      → length entries + length es ≤ s.size
      → s.size < int_limit
      → replay_loop F env es (with_entries s entries) ≡ (ok tt, with_entries s (set_all es entries))
  unfolding set_all
  replay_loop-set_all env [] entries s h small = unfold replay_loop in refl
  replay_loop-set_all env (e ∷ es) entries s h small =
      replay_next env e es (with_entries s entries) (omega arith) (ground arith)
      ∙ replay_loop-set_all env es (insert e entries) s
          (omega (arith, length-insert_bounds e entries)) small

  -- the log's writes, in the memtable or in the tables
  abbrev Kept : List Entry → List (List Entry) → Engine F.Reader → Type 0
  Kept es tables s' =
      (tables' : List (List Entry)) × OnlyLevel0 F laws s'.context.disk s'.storage.levels tables'
      × ((j : Bytes)
          → engine_verdict j s'.skip_list.entries tables' ≡ verdict_after j es (newest j tables))

  -- The log's writes are in, or the engine keeps them in its memtable.
  abbrev pub Replayed :
      List Entry → List (List Entry) → Outcome (Option Error) × Engine F.Reader → Type 0
  Replayed es tables (ok none, s') =
      (tables' : List (List Entry)) × IsStored F laws s' tables'
      × (s'.read_only ≡ false)
      × ((j : Bytes)
          → engine_verdict j s'.skip_list.entries tables' ≡ verdict_after j es (newest j tables))
  Replayed es tables (ok (some x), s') = Kept es tables s'
  Replayed es tables (throws x, s') = Kept es tables s'
  Replayed es tables (fault, s') = ⊥

  -- what `replayWal` does behind its loop
  abbrev pub after_replay :
      Env → Option Error → Engine F.Reader → Outcome (Option Error) × Engine F.Reader
  after_replay env err = elim err [
    | some _ ↦ λ s. (ok (some replay_flush_failed), s)
    | none ↦ λ s.
        (ok none, record s { wal = (Wal.remove env.wal_remove_fails s.wal).1; read_only = false })
  ]

  abbrev refilled : Engine F.Reader → List Entry → Engine F.Reader
  refilled s es = record s {
    read_only = true;
    skip_list = record { entries = set_all es s.skip_list.entries };
  }

  module _ (env : Env) (s : Engine F.Reader) (es : List Entry) (g : get_entries s.wal ≡ replayed es)
      (room : length s.skip_list.entries + length es ≤ s.size) (small : s.size < int_limit) where
    looped : replay_loop F env es (record s { read_only = true }) ≡ (ok tt, refilled s es)
    looped =
        replay_loop-set_all env es s.skip_list.entries (record s { read_only = true }) room small

    held :
        length (set_all es s.skip_list.entries) % u32_mod ≡ length (set_all es s.skip_list.entries)
    held = omega (arith, length-set_all-le es s.skip_list.entries)

    few : ltb (length (set_all es s.skip_list.entries)) int_limit ≡ true
    few = lt→ltb _ _ (omega (arith, length-set_all-le es s.skip_list.entries))

    replay_left :
        ltb 0 (length (set_all es s.skip_list.entries)) ≡ true
        → replay_wal F env s
          ≡ continue
              (flush_to_disk F env (refilled s es)).0
              (after_replay env)
              (flush_to_disk F env (refilled s es)).1
    unfolding replay_wal SkipList.get_length
    replay_left left = ground (arith, g, looped, left, held, few)

    replay_nothing :
        ltb 0 (length (set_all es s.skip_list.entries)) ≡ false
        → replay_wal F env s ≡ after_replay env none (refilled s es)
    unfolding replay_wal SkipList.get_length
    replay_nothing left = ground (arith, g, looped, left, held, few)

  after_replay-Replayed :
      (env : Env) (es : List Entry) (u : Engine F.Reader) (tables : List (List Entry))
      (r : Outcome (Option Error) × Engine F.Reader)
      → Flushed F laws u tables r
      → ((j : Bytes)
          → engine_verdict j u.skip_list.entries tables ≡ verdict_after j es (newest j tables))
      → Replayed es tables (continue r.0 (after_replay env) r.1)
  after_replay-Replayed env es u tables (ok none, s') (still, open_, empty, log, size) v = (
    u.skip_list.entries ∷ tables,
    record { sorted = still.sorted; stored = still.stored; small = still.small },
    refl,
    λ j. rw empty (engine_verdict_flush j u.skip_list.entries tables) ∙ v j,
  )
  after_replay-Replayed env es u tables (ok (some x), s') (same, w, o, inl kept) v =
      (tables, kept, λ j. rw same (v j))
  after_replay-Replayed env es u tables (ok (some x), s') (same, w, o, inr added) v = (
    u.skip_list.entries ∷ tables,
    added,
    λ j. rw same (engine_verdict_twice j u.skip_list.entries tables) ∙ v j,
  )
  after_replay-Replayed env es u tables (throws x, s') (same, w, o, kept) v =
      (tables, kept, λ j. rw same (v j))
  after_replay-Replayed env es u tables (fault, s') h v = h

  -- `replayWal` on an engine in order (`IsStored`: its memtable in key order, all its tables at
  -- level 0, its file counter in 64 bits) with an empty memtable, whose size is below 2 ^ 31, and a
  -- log of whole records, no more than the memtable holds; where it has levels, the file of the
  -- next table is none that a reader of level 0 depends on, and where it has none, the base
  -- directory can be made and scanned, and the level directories can be made and read and hold no
  -- file (`FreshDirs`). It returns or throws. If it reports no error, the engine accepts writes and
  -- its verdict on every key is what the tables said, with the log's writes made over it in order;
  -- if it reports one or throws, the verdicts are the same, from the memtable.
  pub replay_wal-Replayed :
      (env : Env) (s : Engine F.Reader) (es : List Entry) (tables : List (List Entry))
      → IsStored F laws s tables
      → s.skip_list.entries ≡ []
      → Holds s.wal es []
      → length es ≤ s.size
      → s.size < int_limit
      → CanPlace F laws env s.context s.storage.levels
      → Replayed es tables (replay_wal F env s)
  replay_wal-Replayed env s es tables h fresh log room small p =
      elim (Bool-cases (ltb 0 (length (set_all logs s.skip_list.entries)))) [
        | inl left ↦
            subst (Replayed es tables) (sym (replay_left env s logs replays fits small left)) (
              after_replay-Replayed env es u tables (flush_to_disk F env u)
                (flush_to_disk-Flushed F laws env u tables in_order
                  (p, omega (arith, length-set_all-le logs s.skip_list.entries, fits)))
                verdicts)
        | inr nothing ↦
            subst (Replayed es tables) (sym (replay_nothing env s logs replays fits small nothing))
              (
                tables,
                record {
                  sorted = in_order.sorted;
                  stored = in_order.stored;
                  small = in_order.small;
                },
                refl,
                verdicts,
              )
      ]
    where
      logs : List Entry
      logs = map logged es

      u : Engine F.Reader
      u = refilled s logs

      replays : get_entries s.wal ≡ replayed logs
      replays = get_entries-Holds s.wal es [] log

      fits : length s.skip_list.entries + length logs ≤ s.size
      fits = omega (arith, ap length fresh, length-map-logged es)

      in_order : IsStored F laws u tables
      in_order = record {
        sorted = set_all-IsSorted logs s.skip_list.entries h.sorted;
        stored = h.stored;
        small = h.small;
      }

      verdicts :
          (j : Bytes)
          → engine_verdict j u.skip_list.entries tables ≡ verdict_after j es (newest j tables)
      verdicts j =
          let start : engine_verdict j [] tables ≡ newest j tables =
            unfold engine_verdict find verdict or_else in refl in
          engine_verdict-set_all j logs s.skip_list.entries tables
          ∙ ap (λ (t : List Entry). verdict_after j logs (engine_verdict j t tables)) fresh
          ∙ ap (verdict_after j logs) start
          ∙ verdict_after-logged j es (newest j tables)
