-- ===== src/MemTable/Recover/Loop.antt =====
-- The loop of `replayWal`, which flushes the memtable on the way when it is full.
use tiny_kv.Common.{
  ◌%◌, ◌≤◌, ◌<◌, ◌≡◌, refl, ap, ◌∙◌, true, false, Option, none, some, List, [], ◌∷◌, ◌++◌, map,
  arith, ◌==◌, Bytes, length, inl, inr, Bool-cases, subst, sym, if◌then◌else◌,
}
use tiny_kv.Common.Outcome.{throws, fault, Outcome, ok}
use tiny_kv.Types.{Entry, Error, IsSorted}
use tiny_kv.Common.Exec.{continue, guarded_call}
use tiny_kv.Common.Words.{u64_mod, u32_mod, int_limit}
use tiny_kv.MemTable.{Engine, replay_loop, flush_to_disk}
use tiny_kv.SkipList
use tiny_kv.SkipList.{insert}
use tiny_kv.Table.{TableFormat, TableLaws}
use tiny_kv.Context.{Env}
use tiny_kv.Table.Verdict.{Verdict}
use tiny_kv.SkipList.Laws.{insert-IsSorted}
use tiny_kv.MemTable.Flush.{
  engine_verdict, IsStored, Flushed, engine_verdict_flush, flush_to_disk-Flushed,
  flush_to_disk_small, CanFlush, length-flush_to_disk,
}
use tiny_kv.MemTable.Writes.{updated, engine_verdict-insert, engine_verdict_twice}
use tiny_kv.MemTable.Replay.{verdict_after, verdict_after-logged, with_entries, replay_next}
use tiny_kv.Wal.RoundTrip.{logged}
use tiny_kv.Storage.Write.{OnlyLevel0}

module _ (F : TableFormat) (laws : TableLaws F) where
  -- the engine with the next entry in its memtable
  abbrev pub with_next : Entry → Engine F.Reader → Engine F.Reader
  with_next e s = with_entries F laws s (insert e s.skip_list.entries)

  -- the engine before an entry is set: flushed, if the memtable is full
  unfoldable pub with_room : Env → Engine F.Reader → Engine F.Reader
  with_room env s = if length s.skip_list.entries == s.size then (flush_to_disk F env s).1 else s

  -- At each state on the way through the entries, and at the last, the engine may write its next table.
  abbrev pub CanFlushAll : Env → List Entry → Engine F.Reader → Type 0
  CanFlushAll env [] s = CanFlush F laws env s
  CanFlushAll env (e ∷ es) s =
      CanFlush F laws env s × CanFlushAll env es (with_next (logged e) (with_room env s))

  -- an engine whose tables and memtable make the verdicts that these writes make of `start`
  abbrev pub Reaches : Engine F.Reader → List (List Entry) → List Entry → (Bytes → Verdict) → Type 0
  Reaches s tables es start =
      (j : Bytes) → engine_verdict j s.skip_list.entries tables ≡ verdict_after j es (start j)

  -- an exception on the way: some of the writes are in, the first of them
  abbrev pub Stopped : List Entry → (Bytes → Verdict) → Engine F.Reader → Type 0
  Stopped es start s' =
      (tables' : List (List Entry)) × (done : List Entry) × (rest : List Entry) × (es
        ≡ done ++ rest)
      × OnlyLevel0 F laws s'.context.disk s'.storage.levels tables'
      × Reaches s' tables' done start

  -- How the loop may end.
  abbrev pub Looped :
      Env → List Entry → (Bytes → Verdict) → Outcome (Unit {0}) × Engine F.Reader → Type 0
  Looped env es start (ok _, s') =
      (tables' : List (List Entry)) × IsStored F laws s' tables'
      × CanFlush F laws env s'
      × Reaches s' tables' es start
  Looped env es start (throws x, s') = Stopped es start s'
  Looped env es start (fault, s') = ⊥

  Stopped-cons :
      (e : Entry) (es : List Entry) (start next : Bytes → Verdict) (s' : Engine F.Reader)
      → ((j : Bytes) → next j ≡ updated (logged e) j (start j))
      → Stopped es next s'
      → Stopped (e ∷ es) start s'
  unfolding verdict_after
  Stopped-cons e es start next s' n (tables', done, rest, whole, kept, v) = (
    tables',
    e ∷ done,
    rest,
    ap (λ (t : List Entry). e ∷ t) whole,
    kept,
    λ j. v j ∙ ap (verdict_after j done) (n j ∙ verdict_after-logged j (e ∷ []) (start j)),
  )

  -- one write more, in front
  Looped-cons :
      (env : Env) (e : Entry) (es : List Entry) (start next : Bytes → Verdict)
      (r : Outcome (Unit {0}) × Engine F.Reader)
      → ((j : Bytes) → next j ≡ updated (logged e) j (start j))
      → Looped env es next r
      → Looped env (e ∷ es) start r
  unfolding verdict_after
  Looped-cons env e es start next (ok _, s') n (tables', h, placed, v) = (
    tables',
    h,
    placed,
    λ j. v j ∙ ap (verdict_after j es) (n j ∙ verdict_after-logged j (e ∷ []) (start j)),
  )
  Looped-cons env e es start next (throws x, s') n h = Stopped-cons e es start next s' n h
  Looped-cons env e es start next (fault, s') n h = h

  abbrev pub verdicts : Engine F.Reader → List (List Entry) → Bytes → Verdict
  verdicts s tables j = engine_verdict j s.skip_list.entries tables

  replay_full :
      (env : Env) (e : Entry) (es : List Entry) (s : Engine F.Reader)
      → length s.skip_list.entries < int_limit
      → (length s.skip_list.entries == s.size) ≡ true
      → replay_loop F env (e ∷ es) s
        ≡ continue
            (flush_to_disk F env s).0
            (λ _ s'. replay_loop F env es (with_next e s'))
            (flush_to_disk F env s).1
  unfolding replay_loop SkipList.get_length SkipList.set
  replay_full env e es s short h =
      let held : length s.skip_list.entries % u32_mod ≡ length s.skip_list.entries = omega arith in
      guarded_call (length s.skip_list.entries % u32_mod == s.size) (flush_to_disk F env)
        (λ s'. replay_loop F env es (with_next e s')) s (rw held h)

  pub length-with_room :
      (env : Env) (s : Engine F.Reader)
      → length (with_room env s).skip_list.entries ≤ length s.skip_list.entries
  unfolding with_room
  length-with_room env s = ground (arith, length-flush_to_disk F laws env s)

  with_room_full :
      (env : Env) (s : Engine F.Reader)
      → (length s.skip_list.entries == s.size) ≡ true
      → with_room env s ≡ (flush_to_disk F env s).1
  unfolding with_room
  with_room_full env s h = ground (arith, h)

  with_room_free :
      (env : Env) (s : Engine F.Reader)
      → (length s.skip_list.entries == s.size) ≡ false
      → with_room env s ≡ s
  unfolding with_room
  with_room_free env s h = ground (arith, h)

  next-IsStored :
      (e : Entry) (s : Engine F.Reader) (tables : List (List Entry))
      → IsStored F laws s tables
      → IsStored F laws (with_next e s) tables
  next-IsStored e s tables h = record {
    sorted = insert-IsSorted e s.skip_list.entries h.sorted;
    stored = h.stored;
    small = h.small;
  }

  -- the engine that a flush without an exception leaves, by whichever of its endings
  abbrev Kept : Engine F.Reader → List (List Entry) → Engine F.Reader → Type 0
  Kept s tables s' =
      (tables' : List (List Entry)) × IsStored F laws s' tables'
      × ((j : Bytes) → verdicts s' tables' j ≡ verdicts s tables j)

  error-Kept :
      (s s' : Engine F.Reader) (tables tables' : List (List Entry))
      → IsStored F laws s tables
      → s'.skip_list ≡ s.skip_list
      → OnlyLevel0 F laws s'.context.disk s'.storage.levels tables'
      → s'.context.file_counter < u64_mod
      → ((j : Bytes) → verdicts s tables' j ≡ verdicts s tables j)
      → Kept s tables s'
  error-Kept s s' tables tables' h same kept small v = (
    tables',
    record {
      sorted = subst (λ (l : SkipList.SkipList). IsSorted l.entries) (sym same) h.sorted;
      stored = kept;
      small = small;
    },
    λ j. rw same (v j),
  )

  -- the flush on the way, and what follows unless it throws
  flush-Looped :
      (env : Env) (e : Entry) (es : List Entry) (s : Engine F.Reader) (tables : List (List Entry))
      (r : Outcome (Option Error) × Engine F.Reader)
      (go : Engine F.Reader → Outcome (Unit {0}) × Engine F.Reader)
      → IsStored F laws s tables
      → Flushed F laws s tables r
      → r.1.context.file_counter < u64_mod
      → (Kept s tables r.1 → Looped env (e ∷ es) (verdicts s tables) (go r.1))
      → Looped env (e ∷ es) (verdicts s tables) (continue r.0 (λ _. go) r.1)
  flush-Looped env e es s tables (ok none, s') go h (still, open_, empty, log, size) small k = k (
    s.skip_list.entries ∷ tables,
    still,
    λ j. rw empty (engine_verdict_flush j s.skip_list.entries tables),
  )
  flush-Looped env e es s tables (ok (some x), s') go h (same, w, o, inl kept) small k =
      k (error-Kept s s' tables tables h same kept small (λ j. refl))
  flush-Looped env e es s tables (ok (some x), s') go h (same, w, o, inr added) small k = k (
      error-Kept s s' tables (s.skip_list.entries ∷ tables) h same added small
        (λ j. engine_verdict_twice j s.skip_list.entries tables))
  flush-Looped env e es s tables (throws x, s') go h (same, w, o, kept) small k =
      (tables, [], e ∷ es, refl, kept, λ j. unfold verdict_after in rw same refl)
  flush-Looped env e es s tables (fault, s') go h f small k = f

  next-Looped :
      (env : Env) (e : Entry) (es : List Entry) (s u : Engine F.Reader)
      (tables tables' : List (List Entry)) (r : Outcome (Unit {0}) × Engine F.Reader)
      → ((j : Bytes) → verdicts u tables' j ≡ verdicts s tables j)
      → Looped env es (verdicts (with_next (logged e) u) tables') r
      → Looped env (e ∷ es) (verdicts s tables) r
  next-Looped env e es s u tables tables' r v h =
      Looped-cons env e es (verdicts s tables) (verdicts (with_next (logged e) u) tables') r
        (λ j.
          engine_verdict-insert j (logged e) u.skip_list.entries tables'
          ∙ ap (updated (logged e) j) (v j))
        h

  -- the next states, where there was room and where a flush made it
  placed_free :
      (env : Env) (e : Entry) (es : List Entry) (s : Engine F.Reader)
      → (length s.skip_list.entries == s.size) ≡ false
      → CanFlushAll env (e ∷ es) s
      → CanFlushAll env es (with_next (logged e) s)
  placed_free env e es s free p =
      subst (λ (u : Engine F.Reader). CanFlushAll env es (with_next (logged e) u))
        (with_room_free env s free) p.1

  placed_full :
      (env : Env) (e : Entry) (es : List Entry) (s : Engine F.Reader)
      → (length s.skip_list.entries == s.size) ≡ true
      → CanFlushAll env (e ∷ es) s
      → CanFlushAll env es (with_next (logged e) (flush_to_disk F env s).1)
  placed_full env e es s full p =
      subst (λ (u : Engine F.Reader). CanFlushAll env es (with_next (logged e) u))
        (with_room_full env s full) p.1

  -- The loop ends with the writes of all entries in, or, where a flush threw, of a first part of them.
  pub replay_loop-Looped :
      (env : Env) (es : List Entry) (s : Engine F.Reader) (tables : List (List Entry))
      → IsStored F laws s tables
      → CanFlushAll env es s
      → Looped env es (verdicts s tables) (replay_loop F env (map logged es) s)
  replay_loop-Looped env [] s tables h p =
      unfold replay_loop verdict_after in (tables, h, p, λ j. refl)
  replay_loop-Looped env (e ∷ es) s tables h p =
      elim (Bool-cases (length s.skip_list.entries == s.size)) [
        | inr free ↦
            subst (Looped env (e ∷ es) (verdicts s tables))
              (sym (replay_next F laws env (logged e) (map logged es) s p.0.1 free))
              (next-Looped env e es s s tables tables _ (λ j. refl)
                (replay_loop-Looped env es (with_next (logged e) s) tables
                  (next-IsStored (logged e) s tables h) (placed_free env e es s free p)))
        | inl full ↦
            subst (Looped env (e ∷ es) (verdicts s tables))
              (sym (replay_full env (logged e) (map logged es) s p.0.1 full))
              (flush-Looped env e es s tables (flush_to_disk F env s)
                (λ s'. replay_loop F env (map logged es) (with_next (logged e) s')) h
                (flush_to_disk-Flushed F laws env s tables h p.0)
                (flush_to_disk_small F laws env s tables h p.0)
                (λ (tables', h', v).
                  next-Looped env e es s (flush_to_disk F env s).1 tables tables' _ v (
                    replay_loop-Looped env es (with_next (logged e) (flush_to_disk F env s).1)
                      tables' (next-IsStored (logged e) (flush_to_disk F env s).1 tables' h')
                      (placed_full env e es s full p))))
      ]
