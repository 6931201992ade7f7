-- ===== src/MemTable/Logged.antt =====
-- The log against the memtable: what a successful call leaves in both.
use tiny_kv.Common.{
  ℕ, suc, ◌≤◌, ◌≡◌, refl, sym, ap, ◌∙◌, Bool, true, false, Option, none, some, List, [], ◌∷◌, ◌++◌,
  map, arith, Bytes, length, length-append,
}
use tiny_kv.Common.Outcome.{Outcome, ok, throws, fault}
use tiny_kv.Types.{Entry, Error, find}
use tiny_kv.SkipList
use tiny_kv.Wal
use tiny_kv.MemTable.Replay.{set_all, engine_verdict-set_all, verdict_after-logged}
use tiny_kv.Table.{TableFormat, TableLaws}
use tiny_kv.SkipList.{insert}
use tiny_kv.Table.Verdict.{verdict, or_else, newest}
use tiny_kv.MemTable.{
  Engine, put, check_length, log_and_set, flush_if_full, tombstone_of, is_full, put_flush_failed,
  del, flush_to_disk, del_found, del_flush_failed, is_missing,
}
use tiny_kv.Context.{Env}
use tiny_kv.Wal.RoundTrip.{logged, Holds, Fits, get_entries-append, no_bytes-Holds}
use tiny_kv.MemTable.Flush.{Flushed, IsStored, flush_to_disk-Flushed, engine_verdict, CanFlush}
use tiny_kv.Common.Exec.{continue}
use tiny_kv.Wal.{no_fault, AppendFault, header_fails, payload_fails, flush_fails}
use tiny_kv.MemTable.Writes.{guarded, del_lem, is_missing_lem}

-- one more record is one more write
set_all-snoc :
    (es : List Entry) (e : Entry) (entries : List Entry)
    → set_all (es ++ e ∷ []) entries ≡ insert e (set_all es entries)
unfolding set_all
set_all-snoc [] e entries = refl
set_all-snoc (x ∷ es) e entries = set_all-snoc es e (insert x entries)

module _ (F : TableFormat) (laws : TableLaws F) where
  -- The log holds whole records and no more, `n` at most, and the writes that they tell of are those
  -- of the memtable.
  abbrev pub IsLogged : ℕ → Engine F.Reader → Type 0
  IsLogged n s =
      (es : List Entry) × Holds s.wal es []
      × (set_all es [] ≡ s.skip_list.entries)
      × (length es ≤ n)

  -- the same after a call that reports no error
  abbrev pub LoggedAfter : ℕ → Outcome (Option Error) × Engine F.Reader → Type 0
  LoggedAfter n (ok none, s') = IsLogged n s'
  LoggedAfter n (r, s') = Unit

  pub flush_to_disk-Logged :
      (n : ℕ) (s : Engine F.Reader) (tables : List (List Entry))
      (r : Outcome (Option Error) × Engine F.Reader)
      → Flushed F laws s tables r
      → LoggedAfter n r
  flush_to_disk-Logged n s tables (ok none, s') (h, o, empty, gone, z) =
      ([], no_bytes-Holds s'.wal (ap Wal.file_bytes gone), unfold set_all in sym empty, omega arith)
  flush_to_disk-Logged n s tables (ok (some e), s') h = tt
  flush_to_disk-Logged n s tables (throws x, s') h = tt
  flush_to_disk-Logged n s tables (fault, s') h = tt

  flush_if_full-Logged :
      (env : Env) (message : Error) (n : ℕ) (s : Engine F.Reader) (tables : List (List Entry))
      → IsStored F laws s tables
      → CanFlush F laws env s
      → IsLogged n s
      → LoggedAfter n (flush_if_full F env message s)
  unfolding flush_if_full
  flush_if_full-Logged env message n s tables h p log = at (is_full F s) refl
    where
      flushed :
          (r : Outcome (Option Error) × Engine F.Reader)
          → LoggedAfter n r
          → LoggedAfter n (
              continue r.0
                (λ err. elim err [
                  | some _ ↦ λ s. (ok (some message), s)
                  | none ↦ λ s. (ok none, s)
                ])
                r.1)
      flushed (ok none, s') g = g
      flushed (ok (some e), s') g = tt
      flushed (throws x, s') g = tt
      flushed (fault, s') g = tt

      at : (b : Bool) → is_full F s ≡ b → LoggedAfter n (flush_if_full F env message s)
      at true e =
          rw (e, flush_if_full)
            (flushed (flush_to_disk F env (record s { read_only = true })) (
              flush_to_disk-Logged n (record s { read_only = true }) tables
                (flush_to_disk F env (record s { read_only = true }))
                (flush_to_disk-Flushed F laws env (record s { read_only = true }) tables
                  (record { sorted = h.sorted; stored = h.stored; small = h.small }) p)))
      at false e = rw (e, flush_if_full) log

  log_and_set-Logged :
      (env : Env) (e : Entry) (n : ℕ) (s : Engine F.Reader)
      → Fits e
      → IsLogged n s
      → LoggedAfter (suc n) (log_and_set F env e s)
  log_and_set-Logged env e n s f (es, held, same, few) = at env.wal_fault refl
    where
      added : IsLogged (suc n) (record s {
        wal = (Wal.append Wal.no_fault e s.wal).1;
        skip_list = record { entries = insert e s.skip_list.entries };
      })
      added = (
        es ++ e ∷ [],
        (get_entries-append s.wal es e held f).1,
        set_all-snoc es e [] ∙ ap (insert e) same,
        omega (arith, length-append es (e ∷ [])),
      )

      at : (a : AppendFault) → env.wal_fault ≡ a → LoggedAfter (suc n) (log_and_set F env e s)
      at Wal.no_fault q = unfold log_and_set SkipList.set in rw q (unfold Wal.append in added)
      at Wal.directory_fails q = unfold log_and_set Wal.append in rw q tt
      at Wal.open_fails q = unfold log_and_set Wal.append in rw q tt
      at (Wal.header_fails k) q = unfold log_and_set Wal.append in rw q tt
      at (Wal.payload_fails k) q = unfold log_and_set Wal.append in rw q tt
      at (Wal.flush_fails k) q = unfold log_and_set Wal.append in rw q tt

  then_write-Logged :
      (n : ℕ) (write : Engine F.Reader → Outcome (Option Error) × Engine F.Reader)
      → ((s : Engine F.Reader) → IsLogged n s → LoggedAfter (suc n) (write s))
      → (r : Outcome (Option Error) × Engine F.Reader) → LoggedAfter n r
      → LoggedAfter
          (suc n)
          (continue r.0 (λ err. elim err [ some x ↦ λ s. (ok (some x), s) | none ↦ write ]) r.1)
  then_write-Logged n write w (ok none, s) h = w s h
  then_write-Logged n write w (ok (some x), s) h = tt
  then_write-Logged n write w (throws x, s) h = tt
  then_write-Logged n write w (fault, s) h = tt

  pub put-Logged :
      (env : Env) (k v : Bytes) (n : ℕ) (s : Engine F.Reader) (tables : List (List Entry))
      → IsStored F laws s tables
      → s.read_only ≡ false
      → CanFlush F laws env s
      → Fits (record { key = k; val = v; tombstone = false })
      → IsLogged n s
      → LoggedAfter (suc n) (put F env k v s)
  unfolding put
  put-Logged env k v n s tables h open_ p f log =
      let e : Entry = record { key = k; val = v; tombstone = false } in
      guarded s.read_only _ _ s (LoggedAfter (suc n)) open_ (
        then_write-Logged n (log_and_set F env e) (λ s' g. log_and_set-Logged env e n s' f g)
          (flush_if_full F env put_flush_failed s)
          (flush_if_full-Logged env put_flush_failed n s tables h p log))

  checked-Logged :
      (n : ℕ) (r : Outcome (Option Error) × Engine F.Reader)
      → LoggedAfter n r
      → LoggedAfter n (
          continue r.0
            (λ err. elim err [ some x ↦ λ s. (ok (some x), s) | none ↦ check_length F ])
            r.1)
  unfolding check_length SkipList.get_length
  checked-Logged n (ok none, s) h = ground (arith, h)
  checked-Logged n (ok (some x), s) h = tt
  checked-Logged n (throws x, s) h = tt
  checked-Logged n (fault, s) h = tt

  pub del-Logged :
      (env : Env) (k : Bytes) (n : ℕ) (s : Engine F.Reader) (tables : List (List Entry))
      → IsStored F laws s tables
      → s.read_only ≡ false
      → CanFlush F laws env s
      → Fits (tombstone_of F k)
      → IsLogged n s
      → LoggedAfter (suc n) (del F env k s)
  del-Logged env k n s tables h open_ p f log =
      let (b, m, missing) = is_missing_lem F laws k s tables h in at b m
    where
      e : Entry
      e = tombstone_of F k

      found : LoggedAfter (suc n) (del_found F env k s)
      found =
          unfold del_found in
          guarded s.read_only _ _ s (LoggedAfter (suc n)) open_ (
            then_write-Logged n _
              (λ s' g.
                checked-Logged (suc n) (log_and_set F env e s') (log_and_set-Logged env e n s' f g))
              (flush_if_full F env del_flush_failed s)
              (flush_if_full-Logged env del_flush_failed n s tables h p log))

      at : (b : Bool) → is_missing F k s ≡ (ok b, s) → LoggedAfter (suc n) (del F env k s)
      at true m = rw (del_lem F laws env k s true m) tt
      at false m = rw (del_lem F laws env k s false m) found

engine_verdict-nil : (j : Bytes) (es : List Entry) → engine_verdict j es [] ≡ verdict (find j es)
unfolding engine_verdict verdict or_else newest
engine_verdict-nil j es = ground arith

-- What the log says of a key is what the memtable says.
pub replayed_verdict :
    (j : Bytes) (es entries : List Entry)
    → set_all es [] ≡ entries
    → verdict (find j (set_all (map logged es) [])) ≡ verdict (find j entries)
replayed_verdict j es entries h =
    sym (engine_verdict-nil j (set_all (map logged es) []))
    ∙ engine_verdict-set_all j (map logged es) [] []
    ∙ verdict_after-logged j es (engine_verdict j [] [])
    ∙ sym (engine_verdict-set_all j es [] [])
    ∙ engine_verdict-nil j (set_all es [])
    ∙ ap (λ (t : List Entry). verdict (find j t)) h
