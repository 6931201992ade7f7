-- ===== src/Db/Durability.antt =====
-- What a restart finds: the log of a session, and what `replayWal` makes of it.
use tiny_kv.Common.{
  ℕ, suc, ◌+◌, ◌≤◌, ◌<◌, ◌≡◌, refl, sym, ap, ◌∙◌, false, Option, none, some, List, [], map, subst,
  arith, Bytes, length, All,
}
use tiny_kv.Common.Outcome.{Outcome, ok, throws, fault}
use tiny_kv.Types.{Entry, Error, find}
use tiny_kv.Db
use tiny_kv.MemTable
use tiny_kv.Wal
use tiny_kv.SkipList
use tiny_kv.Db.Session.{
  Op, run_op, Contents, Runs, Represents, create_db-Represents, apply, op-Represents,
  create_db-IsStored,
}
use tiny_kv.Table.{TableFormat, TableLaws}
use tiny_kv.Wal.{max_len, new_wal, replayed}
use tiny_kv.Db.{put_response, del_response, ok_response}
use tiny_kv.MemTable.{Engine, tombstone_of}
use tiny_kv.Disk.{Disk}
use tiny_kv.MemTable.Flush.{Flushed, IsStored, flush_to_disk-Flushed, engine_verdict, CanFlush}
use tiny_kv.Context.{Env}
use tiny_kv.Common.Words.{int_limit}
use tiny_kv.MemTable.Replay.{
  set_all, Replayed, verdict_after, replay_wal-Replayed, engine_verdict-set_all, length-map-logged,
}
use tiny_kv.MemTable.Logged.{
  LoggedAfter, IsLogged, flush_to_disk-Logged, put-Logged, del-Logged, replayed_verdict,
}
use tiny_kv.Common.Exec.{continue, pure}
use tiny_kv.Storage.Write.{OnlyLevel0, FreshDirs}
use tiny_kv.Wal.RoundTrip.{no_bytes-Holds, logged, get_entries-Holds, Holds}
use tiny_kv.Table.Verdict.{verdict, newest, or_else, answer}
use tiny_kv.Message.{Response}
use tiny_kv.Storage.{new_storage}
use tiny_kv.Db.Reads.{get-verdict, reply}
use tiny_kv.Level.{Level}

-- the key and the value are within the bound of the log's reader
abbrev pub FitsOp : Op → Type 0
FitsOp (Op.put k v) = (length k ≤ max_len) × (length v ≤ max_len)
FitsOp (Op.del k) = length k ≤ max_len
FitsOp Op.flush = Unit

module _ (F : TableFormat) (laws : TableLaws F) where
  -- the response of `put` and of `del` to a client tells success only of a call with no error
  put-IsLogged :
      (n : ℕ) (r : Outcome (Option Error) × Engine F.Reader)
      → LoggedAfter F laws n r
      → (continue r.0 (λ err. pure (put_response F err)) r.1).0 ≡ ok ok_response
      → IsLogged F laws n (continue r.0 (λ err. pure (put_response F err)) r.1).1
  unfolding put_response ok_response
  put-IsLogged n (ok none, s) h q = h
  put-IsLogged n (ok (some x), s) h q = absurd (unfold Db.failed in ground (arith, q))
  put-IsLogged n (throws x, s) h q = cc
  put-IsLogged n (fault, s) h q = cc

  del-IsLogged :
      (n : ℕ) (r : Outcome (Option Error) × Engine F.Reader)
      → LoggedAfter F laws n r
      → (continue r.0 (λ err. pure (del_response F err)) r.1).0 ≡ ok ok_response
      → IsLogged F laws n (continue r.0 (λ err. pure (del_response F err)) r.1).1
  unfolding del_response ok_response
  del-IsLogged n (ok none, s) h q = h
  del-IsLogged n (ok (some x), s) h q = absurd (unfold Db.failed in ground (arith, q))
  del-IsLogged n (throws x, s) h q = cc
  del-IsLogged n (fault, s) h q = cc

  -- a flush that leaves the engine writable has succeeded
  flush-IsLogged :
      (n : ℕ) (s : Engine F.Reader) (tables : List (List Entry))
      (r : Outcome (Option Error) × Engine F.Reader)
      → Flushed F laws s tables r
      → (continue r.0 (λ _. pure ok_response) r.1).1.read_only ≡ false
      → IsLogged F laws n (continue r.0 (λ _. pure ok_response) r.1).1
  flush-IsLogged n s tables (ok none, s') h q =
      flush_to_disk-Logged F laws n s tables (ok none, s') h
  flush-IsLogged n s tables (ok (some x), s') (same, w, o, rest) q = absurd (ground (arith, o, q))
  flush-IsLogged n s tables (throws x, s') (same, w, o, rest) q = absurd (ground (arith, o, q))
  flush-IsLogged n s tables (fault, s') h q = absurd h

  op-Logged :
      (env : Env) (op : Op) (n : ℕ) (s : Engine F.Reader) (tables : List (List Entry))
      → IsStored F laws s tables
      → s.read_only ≡ false
      → CanFlush F laws env s
      → FitsOp op
      → IsLogged F laws n s
      → (run_op F env op s).0 ≡ ok ok_response
      → (run_op F env op s).1.read_only ≡ false
      → IsLogged F laws (suc n) (run_op F env op s).1
  unfolding run_op Db.put Db.del Db.force_flush
  op-Logged env (Op.put k v) n s tables h o p f log q w =
      put-IsLogged (suc n) (MemTable.put F env k v s)
        (put-Logged F laws env k v n s tables h o p (record { key_fits = f.0; val_fits = f.1 }) log)
        q
  op-Logged env (Op.del k) n s tables h o p f log q w =
      del-IsLogged (suc n) (MemTable.del F env k s)
        (del-Logged F laws env k n s tables h o p
          (unfold tombstone_of in record { key_fits = f; val_fits = omega arith }) log)
        q
  op-Logged env Op.flush n s tables h o p f log q w =
      flush-IsLogged (suc n) s tables (MemTable.flush_to_disk F env s)
        (flush_to_disk-Flushed F laws env s tables h p) w

  Runs-Logged :
      {s t : Engine F.Reader} {ops : List Op} (m : Contents) (n total : ℕ)
      → n + length ops ≡ total
      → Represents F laws s m
      → IsLogged F laws n s
      → All FitsOp ops
      → Runs F laws s ops t
      → IsLogged F laws total t
  Runs-Logged {s} m n total sum h log f Runs.done =
      subst (λ (k : ℕ). IsLogged F laws k s) (omega (arith, sum)) log
  Runs-Logged m n total sum h log f (Runs.call {s} {t} {u} {op} {ops} env p q w rest) =
      let ended : (run_op F env op s).0 ≡ ok ok_response = ap (λ r. r.0) q in
      let open_ : (run_op F env op s).1.read_only ≡ false =
        ap (λ (r : Outcome Response × Engine F.Reader). r.1.read_only) q ∙ w in
      let there : (run_op F env op s).1 ≡ t =
        ap (λ (r : Outcome Response × Engine F.Reader). r.1) q in
      Runs-Logged (apply op m) (suc n) total (omega (arith, sum))
        (subst (λ (z : Engine F.Reader). Represents F laws z (apply op m)) there
          (op-Represents F laws env op s m h p ended open_))
        (subst (IsLogged F laws (suc n)) there
          (op-Logged env op n s h.tables h.stored h.writable p f.0 log ended open_))
        f.1 rest

  created-Logged :
      (config : Db.Config) (disk : Disk) → IsLogged F laws 0 (Db.create_db F config none disk)
  unfolding Db.create_db SkipList.empty new_wal set_all
  created-Logged config disk =
      ([], no_bytes-Holds (Db.create_db F config none disk).wal refl, refl, omega arith)

  -- A new database with no log after calls that each answer OK and leave it writable, before each
  -- of which it met `CanFlush` (as for `get_session`), and whose keys and values have at most 2 ^
  -- 30 bytes each, the bound of the log's reader, whatever they flushed on the way: a replay of the
  -- log reads entries, no more than there were calls, that say of each key what the memtable says.
  pub get_entries_session :
      (config : Db.Config) (disk : Disk) (ops : List Op) (t : Engine F.Reader)
      → All FitsOp ops
      → Runs F laws (Db.create_db F config none disk) ops t
      → (es : List Entry) × (Wal.get_entries t.wal ≡ replayed es)
        × (length es ≤ length ops)
        × ((j : Bytes) → verdict (find j (set_all es [])) ≡ verdict (find j t.skip_list.entries))
  get_entries_session config disk ops t f r =
      let (es, held, same, few) =
        Runs-Logged (λ _. none) 0 (length ops) (omega arith)
          (create_db-Represents F laws config none disk) (created-Logged config disk) f r in
      (
        map logged es,
        get_entries-Holds t.wal es [] held,
        omega (arith, few, length-map-logged es),
        λ j. replayed_verdict j es t.skip_list.entries same,
      )

  -- A replay of the log on no tables leaves the answers of the memtable.
  recovered :
      (es : List Entry) (t : Engine F.Reader)
      → set_all es [] ≡ t.skip_list.entries
      → OnlyLevel0 F laws t.context.disk t.storage.levels []
      → (r : Outcome (Option Error) × Engine F.Reader) → Replayed F laws es [] r
      → (j : Bytes) → Db.get F r.1 j ≡ Db.get F t j
  recovered es t same none_yet r h j = at r h
    where
      logged_says : engine_verdict j t.skip_list.entries [] ≡ verdict_after j es (newest j [])
      logged_says =
          ap (λ (z : List Entry). engine_verdict j z []) (sym same)
          ∙ engine_verdict-set_all j es [] []
          ∙ unfold engine_verdict find verdict or_else in refl

      answered :
          (s' : Engine F.Reader) (tables' : List (List Entry))
          → OnlyLevel0 F laws s'.context.disk s'.storage.levels tables'
          → ((j : Bytes)
              → engine_verdict j s'.skip_list.entries tables' ≡ verdict_after j es (newest j []))
          → Db.get F s' j ≡ Db.get F t j
      answered s' tables' here says =
          get-verdict F laws s' j tables' here
          ∙ ap (λ v. ok (reply (answer v))) (says j ∙ sym logged_says)
          ∙ sym (get-verdict F laws t j [] none_yet)

      at :
          (r : Outcome (Option Error) × Engine F.Reader)
          → Replayed F laws es [] r
          → Db.get F r.1 j ≡ Db.get F t j
      at (ok none, s') (tables', here, o, says) = answered s' tables' here.stored says
      at (ok (some x), s') (tables', here, says) = answered s' tables' here says
      at (throws x, s') (tables', here, says) = answered s' tables' here says
      at (fault, s') h = absurd h

  -- A crash of a new database with no log, after calls that each answer OK and leave it writable,
  -- before each of which it met `CanFlush` (as for `get_session`), that made no level and so
  -- flushed nothing, whose keys and values have at most 2 ^ 30 bytes each, the bound of the log's
  -- reader, and that are no more than the memtable holds, whose capacity is below 2 ^ 31: a
  -- database that starts on the log that they left, where the base directory can be made and
  -- scanned, and the level directories can be made and read and hold no file (`FreshDirs`), and
  -- replays it, answers every `get` as the one that crashed, whether or not the flush behind the
  -- replay succeeds.
  pub get-replay_wal :
      (config : Db.Config) (disk disk' : Disk) (ops : List Op) (t : Engine F.Reader) (env : Env)
      → All FitsOp ops
      → Runs F laws (Db.create_db F config none disk) ops t
      → t.storage.levels ≡ []
      → length ops ≤ config.memtable_capacity
      → config.memtable_capacity < int_limit
      → FreshDirs env
      → (j : Bytes)
      → Db.get F (MemTable.replay_wal F env (Db.create_db F config t.wal.file disk')).1 j
        ≡ Db.get F t j
  get-replay_wal config disk disk' ops t env f r flushed_none room small fresh j =
      let (es, held, same, few) =
        Runs-Logged (λ _. none) 0 (length ops) (omega arith)
          (create_db-Represents F laws config none disk) (created-Logged config disk) f r in
      recovered es t same
        (subst (λ (ls : List (Level F.Reader)). OnlyLevel0 F laws t.context.disk ls [])
          (sym flushed_none) refl)
        (MemTable.replay_wal F env (Db.create_db F config t.wal.file disk')) (restarted es held few)
        j
    where
      u : Engine F.Reader
      u = Db.create_db F config t.wal.file disk'

      restarted :
          (es : List Entry)
          → Holds t.wal es []
          → length es ≤ length ops
          → Replayed F laws es [] (MemTable.replay_wal F env u)
      restarted es held few =
          unfold Db.create_db new_storage new_wal SkipList.empty in
          replay_wal-Replayed F laws env u es [] (create_db-IsStored F laws config t.wal.file disk')
            refl held (omega arith) small fresh
