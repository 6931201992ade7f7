-- ===== src/MemTable/Writes.antt =====
-- What `put` and `del` do to the verdicts on keys.
use tiny_kv.Common.{
  ◌≡◌, refl, sym, ap, ◌∙◌, ◌↔◌, ◌⊎◌, inl, inr, Bool, true, false, Option, none, some, List, ◌∷◌,
  subst, arith, if◌then◌else◌, Option-cases, Bytes,
}
use tiny_kv.Common.Outcome.{Outcome, ok, throws, fault}
use tiny_kv.Common.Order.{key_eq}
use tiny_kv.Types.{Entry, Error, find, put_flush_failed, del_flush_failed, no_such_key}
use tiny_kv.SkipList
use tiny_kv.Wal
use tiny_kv.MemTable.{
  Engine, flush_to_disk, flush_if_full, log_and_set, put, del, is_full, check_length, is_missing,
}
use tiny_kv.Common.Exec.{continue}
use tiny_kv.Table.Verdict.{Verdict, verdict, or_else, newest}
use tiny_kv.MemTable.Flush.{
  engine_verdict, IsStored, Flushed, engine_verdict_flush, flush_to_disk-Flushed, CanFlush,
}
use tiny_kv.Table.{TableFormat, TableLaws}
use tiny_kv.Storage.Write.{OnlyLevel0, get-newest}
use tiny_kv.SkipList.{insert}
use tiny_kv.SkipList.Laws.{find-insert, insert-IsSorted}
use tiny_kv.Context.{Env}
use tiny_kv.Wal.{AppendFault, header_fails, payload_fails, flush_fails}
use tiny_kv.Level.Lookup.{alive}
use tiny_kv.Wal.{no_fault, directory_fails, open_fails, header_fails, payload_fails, flush_fails}
use tiny_kv.MemTable.{del_found, tombstone_of, is_missing, check_length}

-- the verdict on a key once `e` is the newest entry
abbrev pub updated : Entry → Bytes → Verdict → Verdict
updated e j before = if key_eq e.key j then verdict (some e) else before

pub engine_verdict-insert :
    (j : Bytes) (e : Entry) (es : List Entry) (tables : List (List Entry))
    → engine_verdict j (insert e es) tables ≡ updated e j (engine_verdict j es tables)
unfolding engine_verdict verdict or_else
engine_verdict-insert j e es tables = ground (arith, find-insert j e es)

-- past a guard that does not hold
pub guarded :
    {S A : Type 0} (b : Bool) (stop go : S → Outcome A × S) (s : S) (P : Outcome A × S → Type 0)
    → b ≡ false
    → P (go s)
    → P ((if b then stop else go) s)
guarded true stop go s P e p = cc
guarded false stop go s P e p = p

-- entries that stand in the memtable and in the newest table
pub engine_verdict_twice :
    (j : Bytes) (es : List Entry) (tables : List (List Entry))
    → engine_verdict j es (es ∷ tables) ≡ engine_verdict j es tables
unfolding engine_verdict or_else newest
engine_verdict_twice j es tables = ground arith

module _ (F : TableFormat) (laws : TableLaws F) where
  abbrev pub SameVerdicts :
      Engine F.Reader → List (List Entry) → Engine F.Reader → List (List Entry) → Type 0
  SameVerdicts s tables s' tables' =
      (j : Bytes)
      → engine_verdict j s'.skip_list.entries tables' ≡ engine_verdict j s.skip_list.entries tables

  -- no key's verdict has changed
  abbrev pub Unchanged : Engine F.Reader → List (List Entry) → Engine F.Reader → Type 0
  Unchanged s tables s' =
      (tables' : List (List Entry)) × OnlyLevel0 F laws s'.context.disk s'.storage.levels tables'
      × SameVerdicts s tables s' tables'

  -- the memtable may take one more entry, or the call ends here with every verdict as it was
  abbrev Prepared :
      Engine F.Reader → List (List Entry) → Outcome (Option Error) × Engine F.Reader → Type 0
  Prepared s tables (ok none, s') =
      (tables' : List (List Entry)) × IsStored F laws s' tables'
      × (s'.read_only ≡ false)
      × SameVerdicts s tables s' tables'
  Prepared s tables (ok (some x), s') = Unchanged s tables s'
  Prepared s tables (throws x, s') = Unchanged s tables s'
  Prepared s tables (fault, s') = ⊥

  -- the entry is in, or every verdict is as it was
  abbrev pub Written :
      Entry
      → Engine F.Reader
      → List (List Entry)
      → Outcome (Option Error) × Engine F.Reader
      → Type 0
  Written e s tables (ok none, s') =
      (tables' : List (List Entry)) × IsStored F laws s' tables'
      × (s'.read_only ≡ false)
      × ((j : Bytes)
          → engine_verdict j s'.skip_list.entries tables'
            ≡ updated e j (engine_verdict j s.skip_list.entries tables))
  Written e s tables (ok (some x), s') = Unchanged s tables s'
  Written e s tables (throws x, s') = Unchanged s tables s'
  Written e s tables (fault, s') = ⊥

  -- `flushToDisk` as `put` and `del` use it: its error becomes their own
  after_flush-Prepared :
      (s : Engine F.Reader) (tables : List (List Entry)) (message : Error)
      (r : Outcome (Option Error) × Engine F.Reader)
      → Flushed F laws s tables r
      → Prepared s tables (
          continue r.0
            (λ err. elim err [ some _ ↦ λ s. (ok (some message), s) | none ↦ λ s. (ok none, s) ])
            r.1)
  after_flush-Prepared s tables message (ok none, s') (stored, ro, empty, w, z) =
      (s.skip_list.entries ∷ tables, stored, ro, λ j. rw empty (engine_verdict_flush j _ tables))
  after_flush-Prepared s tables message (ok (some e), s') (same, w, ro, inl kept) =
      (tables, kept, λ j. rw same)
  after_flush-Prepared s tables message (ok (some e), s') (same, w, ro, inr added) = (
    s.skip_list.entries ∷ tables,
    added,
    λ j. rw same (engine_verdict_twice j s.skip_list.entries tables),
  )
  after_flush-Prepared s tables message (throws x, s') (same, w, ro, kept) =
      (tables, kept, λ j. rw same)
  after_flush-Prepared s tables message (fault, s') h = h

  flush_if_full-Prepared :
      (env : Env) (message : Error) (s : Engine F.Reader) (tables : List (List Entry))
      → IsStored F laws s tables
      → s.read_only ≡ false
      → CanFlush F laws env s
      → Prepared s tables (flush_if_full F env message s)
  unfolding flush_if_full
  flush_if_full-Prepared env message s tables h open_ p = at (is_full F s) refl
    where
      at : (b : Bool) → is_full F s ≡ b → Prepared s tables (flush_if_full F env message s)
      at true e =
          rw (e, flush_if_full)
            (after_flush-Prepared s tables message
              (flush_to_disk F env (record s { read_only = true }))
              (flush_to_disk-Flushed F laws env (record s { read_only = true }) tables
                (record { sorted = h.sorted; stored = h.stored; small = h.small }) p))
      at false e = rw (e, flush_if_full) (tables, h, open_, λ j. refl)

  log_and_set-Written :
      (env : Env) (e : Entry) (s : Engine F.Reader) (tables : List (List Entry))
      → IsStored F laws s tables
      → s.read_only ≡ false
      → Written e s tables (log_and_set F env e s)
  log_and_set-Written env e s tables h open_ = at env.wal_fault refl
    where
      at : (a : AppendFault) → env.wal_fault ≡ a → Written e s tables (log_and_set F env e s)
      at no_fault q =
          unfold log_and_set Wal.append SkipList.set in
          rw q (
            tables,
            record {
              sorted = insert-IsSorted e s.skip_list.entries h.sorted;
              stored = h.stored;
              small = h.small;
            },
            open_,
            λ j. engine_verdict-insert j e s.skip_list.entries tables,
          )
      at directory_fails q = unfold log_and_set Wal.append in rw q (tables, h.stored, λ j. refl)
      at open_fails q = unfold log_and_set Wal.append in rw q (tables, h.stored, λ j. refl)
      at (header_fails n) q = unfold log_and_set Wal.append in rw q (tables, h.stored, λ j. refl)
      at (payload_fails n) q = unfold log_and_set Wal.append in rw q (tables, h.stored, λ j. refl)
      at (flush_fails n) q = unfold log_and_set Wal.append in rw q (tables, h.stored, λ j. refl)

  -- writing goes on from what the flush left
  Written-Prepared :
      (e : Entry) (s s' : Engine F.Reader) (tables tables' : List (List Entry))
      (r : Outcome (Option Error) × Engine F.Reader)
      → SameVerdicts s tables s' tables'
      → Written e s' tables' r
      → Written e s tables r
  Written-Prepared e s s' tables tables' (ok none, u) same (t, h, o, v) =
      (t, h, o, λ j. v j ∙ ap (updated e j) (same j))
  Written-Prepared e s s' tables tables' (ok (some x), u) same (t, h, v) = (t, h, λ j. v j ∙ same j)
  Written-Prepared e s s' tables tables' (throws x, u) same (t, h, v) = (t, h, λ j. v j ∙ same j)
  Written-Prepared e s s' tables tables' (fault, u) same h = h

  then_write-Written :
      (e : Entry) (s : Engine F.Reader) (tables : List (List Entry))
      (write : Engine F.Reader → Outcome (Option Error) × Engine F.Reader)
      → ((s' : Engine F.Reader) (tables' : List (List Entry))
          → IsStored F laws s' tables'
          → s'.read_only ≡ false
          → Written e s' tables' (write s'))
      → (r : Outcome (Option Error) × Engine F.Reader) → Prepared s tables r
      → Written e s tables
          (continue r.0 (λ err. elim err [ some x ↦ λ s. (ok (some x), s) | none ↦ write ]) r.1)
  then_write-Written e s tables write w (ok none, s') (t, h, o, same) =
      Written-Prepared e s s' tables t (write s') same (w s' t h o)
  then_write-Written e s tables write w (ok (some x), s') u = u
  then_write-Written e s tables write w (throws x, s') u = u
  then_write-Written e s tables write w (fault, s') u = u

  -- On an engine in order (`IsStored`: its memtable in key order, all its tables at level 0, its
  -- file counter in 64 bits) that accepts writes and meets `CanFlush` (its memtable has fewer than
  -- 2 ^ 31 entries; where it has levels, the file of the next table is none that a reader of level
  -- 0 depends on; where it has none yet, the base directory can be made and scanned, and the level
  -- directories can be made and read and hold no file: `FreshDirs`), a `put` returns or throws. If
  -- it reports no error, the value is the verdict on its key, every other key has the verdict that
  -- it had, and writes are accepted; if it reports one or throws, every verdict is as it was. A
  -- flush on the way changes none.
  pub put-Written :
      (env : Env) (k v : Bytes) (s : Engine F.Reader) (tables : List (List Entry))
      → IsStored F laws s tables
      → s.read_only ≡ false
      → CanFlush F laws env s
      → Written (record { key = k; val = v; tombstone = false }) s tables (put F env k v s)
  unfolding put
  put-Written env k v s tables h open_ p =
      let e : Entry = record { key = k; val = v; tombstone = false } in
      guarded s.read_only _ _ s (Written e s tables) open_ (
        then_write-Written e s tables (log_and_set F env e) (log_and_set-Written env e)
          (flush_if_full F env put_flush_failed s)
          (flush_if_full-Prepared env put_flush_failed s tables h open_ p))

  checked-Written :
      (e : Entry) (s : Engine F.Reader) (tables : List (List Entry))
      (r : Outcome (Option Error) × Engine F.Reader)
      → Written e s tables r
      → Written e s tables (
          continue r.0
            (λ err. elim err [ some x ↦ λ s. (ok (some x), s) | none ↦ check_length F ])
            r.1)
  unfolding check_length SkipList.get_length
  checked-Written e s tables (ok none, s') h = h
  checked-Written e s tables (ok (some x), s') h = h
  checked-Written e s tables (throws x, s') h = h
  checked-Written e s tables (fault, s') h = h

  pub is_missing_lem :
      (k : Bytes) (s : Engine F.Reader) (tables : List (List Entry))
      → IsStored F laws s tables
      → (b : Bool) × (is_missing F k s ≡ (ok b, s))
        × ((b ≡ true) ↔ ((find k s.skip_list.entries ≡ none) × (alive (newest k tables) ≡ none)))
  unfolding is_missing SkipList.get
  is_missing_lem k s tables h =
      let (o, g, v) = get-newest F laws s.context.disk s.storage k tables h.stored in
      elim (Option-cases (find k s.skip_list.entries)) [
        | inr (e, here) ↦ (false, ground (arith, here), (λ q. cc, λ q. ground (arith, q.0)))
        | inl gone ↦ elim (Option-cases o) [
          | inl nothing ↦ (
            true,
            ground (arith, gone, g, nothing),
            (λ q. (gone, unfold verdict in ground (arith, v, nothing)), λ q. refl),
          )
          | inr (e, found) ↦ (
            false,
            ground (arith, gone, g, found),
            (λ q. cc, λ q. unfold verdict in ground (arith, v, found, q.1)),
          )
        ]
      ]

  del_found-Written :
      (env : Env) (k : Bytes) (s : Engine F.Reader) (tables : List (List Entry))
      → IsStored F laws s tables
      → s.read_only ≡ false
      → CanFlush F laws env s
      → Written (tombstone_of F k) s tables (del_found F env k s)
  unfolding del_found
  del_found-Written env k s tables h open_ p =
      let e : Entry = tombstone_of F k in
      guarded s.read_only _ _ s (Written e s tables) open_ (
        then_write-Written e s tables _
          (λ s' t h o.
            checked-Written e s' t (log_and_set F env e s') (log_and_set-Written env e s' t h o))
          (flush_if_full F env del_flush_failed s)
          (flush_if_full-Prepared env del_flush_failed s tables h open_ p))

  pub del_lem :
      (env : Env) (k : Bytes) (s : Engine F.Reader) (b : Bool)
      → is_missing F k s ≡ (ok b, s)
      → del F env k s ≡ (if b then (ok (some no_such_key), s) else del_found F env k s)
  unfolding del
  del_lem env k s true e = ground (arith, e)
  del_lem env k s false e = ground (arith, e)

  pub del_outcome :
      (env : Env) (k : Bytes) (s : Engine F.Reader) (tables : List (List Entry))
      → IsStored F laws s tables
      → s.read_only ≡ false
      → CanFlush F laws env s
      → ((find k s.skip_list.entries ≡ none)
          × (alive (newest k tables) ≡ none)
          × (del F env k s ≡ (ok (some no_such_key), s)))
        ⊎ Written (tombstone_of F k) s tables (del F env k s)
  del_outcome env k s tables h open_ p =
      let (b, m, missing) = is_missing_lem k s tables h in at b m missing.0
    where
      at :
          (b : Bool)
          → is_missing F k s ≡ (ok b, s)
          → (b ≡ true → (find k s.skip_list.entries ≡ none) × (alive (newest k tables) ≡ none))
          → ((find k s.skip_list.entries ≡ none)
              × (alive (newest k tables) ≡ none)
              × (del F env k s ≡ (ok (some no_such_key), s)))
            ⊎ Written (tombstone_of F k) s tables (del F env k s)
      at true m gone = let (g, a) = gone refl in inl (g, a, del_lem env k s true m)
      at false m gone = inr (
          subst (Written (tombstone_of F k) s tables) (sym (del_lem env k s false m))
            (del_found-Written env k s tables h open_ p))

  -- neither the memtable nor a live entry of the tables has the key
  abbrev pub IsMissing : Bytes → Engine F.Reader → List (List Entry) → Type 0
  IsMissing k s tables = (find k s.skip_list.entries ≡ none) × (alive (newest k tables) ≡ none)

  -- On an engine in order (`IsStored`: its memtable in key order, all its tables at level 0, its
  -- file counter in 64 bits) that accepts writes and meets `CanFlush` (its memtable has fewer than
  -- 2 ^ 31 entries; where it has levels, the file of the next table is none that a reader of level
  -- 0 depends on; where it has none yet, the base directory can be made and scanned, and the level
  -- directories can be made and read and hold no file: `FreshDirs`): a `del` of a key of which the
  -- memtable has no entry, not even a tombstone, and the tables no live one, says that it is not
  -- there and changes nothing. A `del` of any other key returns or throws; if it reports no error,
  -- the key is deleted and every other key has the verdict that it had; if it reports one or
  -- throws, every verdict is as it was.
  pub del-Written :
      (env : Env) (k : Bytes) (s : Engine F.Reader) (tables : List (List Entry))
      → IsStored F laws s tables
      → s.read_only ≡ false
      → CanFlush F laws env s
      → (IsMissing k s tables → del F env k s ≡ (ok (some no_such_key), s))
        × (¬ IsMissing k s tables → Written (tombstone_of F k) s tables (del F env k s))
  del-Written env k s tables h open_ p =
      let (b, m, missing) = is_missing_lem k s tables h in
      (
        λ gone. del_lem env k s true (m ∙ ap (λ (c : Bool). (ok c, s)) (missing.1 gone)),
        λ there. elim (del_outcome env k s tables h open_ p) [
          | inl (g, a, said) ↦ absurd (there (g, a))
          | inr w ↦ w
        ],
      )
