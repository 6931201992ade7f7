-- ===== src/Db/Session.antt =====
-- Sequences of client calls, against a map from keys to values.
use tiny_kv.Common.{
  ◌≡◌, refl, ap, ◌∙◌, inl, inr, false, Option, none, some, List, [], ◌∷◌, subst, arith,
  if◌then◌else◌, Bytes,
}
use tiny_kv.Common.Outcome.{Outcome, ok, throws, fault}
use tiny_kv.Common.Order.{key_eq}
use tiny_kv.Types.{Entry, Error, find}
use tiny_kv.Common.Exec.{continue, pure}
use tiny_kv.Db
use tiny_kv.SkipList
use tiny_kv.Db.{ok_response, put_response, del_response}
use tiny_kv.MemTable
use tiny_kv.MemTable.{Engine, tombstone_of}
use tiny_kv.Table.{TableFormat, TableLaws}
use tiny_kv.Message.{Response}
use tiny_kv.Context.{Env}
use tiny_kv.MemTable.Flush.{IsStored, Flushed, flush_to_disk-Flushed, engine_verdict, CanFlush}
use tiny_kv.Db.Reads.{reply, get-put, get-del, get-force_flush, get-verdict}
use tiny_kv.MemTable.Writes.{put-Written, Written, del_outcome}
use tiny_kv.Storage.{new_storage}
use tiny_kv.Disk.{Disk}
use tiny_kv.Table.Verdict.{verdict, or_else, newest, answer}

-- the calls of a client that change the database
pub data Op : Type 0 where
  put : Bytes → Bytes → Op
  del : Bytes → Op
  flush : Op

-- the specification: a map from keys to values
abbrev pub Contents : Type 0
Contents = Bytes → Option Bytes

unfoldable pub apply : Op → Contents → Contents
apply (put k v) m = λ j. if key_eq k j then some v else m j
apply (del k) m = λ j. if key_eq k j then none else m j
apply flush m = m

unfoldable pub apply_all : List Op → Contents → Contents
unfolding apply
apply_all [] m = m
apply_all (op ∷ ops) m = apply_all ops (apply op m)

module _ (F : TableFormat) where
  unfoldable pub run_op : Env → Op → Engine F.Reader → Outcome Response × Engine F.Reader
  run_op env (put k v) = Db.put F env k v
  run_op env (del k) = Db.del F env k
  run_op env flush = Db.force_flush F env

module _ (F : TableFormat) (laws : TableLaws F) where
  -- What holds between the calls: the engine is in order and accepts writes, and `get` answers as the
  -- map does.
  pub record Represents (s : Engine F.Reader) (m : Contents) : Type 0 where
    pub tables : List (List Entry)
    pub stored : IsStored F laws s tables
    pub writable : s.read_only ≡ false
    pub answers : (j : Bytes) → Db.get F s j ≡ ok (reply (m j))

  -- Calls in turn, each with its own surroundings, that the client is told succeeded, and after which
  -- the engine still accepts writes.
  pub data Runs : Engine F.Reader → List Op → Engine F.Reader → Type 0 where
    done : {s : Engine F.Reader} → Runs s [] s
    call :
        {s t u : Engine F.Reader} {op : Op} {ops : List Op} (env : Env)
        → CanFlush F laws env s
        → run_op F env op s ≡ (ok ok_response, t)
        → t.read_only ≡ false
        → Runs t ops u
        → Runs s (op ∷ ops) u

  put_stored :
      (e : Entry) (s : Engine F.Reader) (tables : List (List Entry))
      (r : Outcome (Option Error) × Engine F.Reader)
      → Written F laws e s tables r
      → (continue r.0 (λ err. pure (put_response F err)) r.1).0 ≡ ok ok_response
      → (tables' : List (List Entry)) × IsStored F laws
          (continue r.0 (λ err. pure (put_response F err)) r.1).1
          tables'
  unfolding put_response ok_response
  put_stored e s tables (ok none, s') (t, h, o, v) q = (t, h)
  put_stored e s tables (ok (some x), s') w q = absurd (unfold Db.failed in ground (arith, q))
  put_stored e s tables (throws x, s') w q = cc
  put_stored e s tables (fault, s') w q = cc

  del_stored :
      (e : Entry) (s : Engine F.Reader) (tables : List (List Entry))
      (r : Outcome (Option Error) × Engine F.Reader)
      → Written F laws e s tables r
      → (continue r.0 (λ err. pure (del_response F err)) r.1).0 ≡ ok ok_response
      → (tables' : List (List Entry)) × IsStored F laws
          (continue r.0 (λ err. pure (del_response F err)) r.1).1
          tables'
  unfolding del_response ok_response
  del_stored e s tables (ok none, s') (t, h, o, v) q = (t, h)
  del_stored e s tables (ok (some x), s') w q = absurd (unfold Db.failed in ground (arith, q))
  del_stored e s tables (throws x, s') w q = cc
  del_stored e s tables (fault, s') w q = cc

  flush_stored :
      (s : Engine F.Reader) (tables : List (List Entry))
      (r : Outcome (Option Error) × Engine F.Reader)
      → Flushed F laws s tables r
      → (continue r.0 (λ _. pure ok_response) r.1).1.read_only ≡ false
      → (tables' : List (List Entry)) × IsStored F laws
          (continue r.0 (λ _. pure ok_response) r.1).1
          tables'
  flush_stored s tables (ok none, s') (h, o, empty, w, z) q = (s.skip_list.entries ∷ tables, h)
  flush_stored s tables (ok (some x), s') (same, w, o, rest) q = absurd (ground (arith, o, q))
  flush_stored s tables (throws x, s') (same, w, o, rest) q = absurd (ground (arith, o, q))
  flush_stored s tables (fault, s') h q = absurd h

  op_stored :
      (env : Env) (op : Op) (s : Engine F.Reader) (tables : List (List Entry))
      → IsStored F laws s tables
      → s.read_only ≡ false
      → CanFlush F laws env s
      → (run_op F env op s).0 ≡ ok ok_response
      → (run_op F env op s).1.read_only ≡ false
      → (tables' : List (List Entry)) × IsStored F laws (run_op F env op s).1 tables'
  unfolding run_op Db.put Db.del Db.force_flush
  op_stored env (put k v) s tables h o p q w =
      put_stored _ s tables (MemTable.put F env k v s) (put-Written F laws env k v s tables h o p) q
  op_stored env (del k) s tables h o p q w = elim (del_outcome F laws env k s tables h o p) [
    | inl (gone, dead, said) ↦
        absurd (unfold Db.del_response Db.failed ok_response in ground (arith, said, q))
    | inr wr ↦ del_stored _ s tables (MemTable.del F env k s) wr q
  ]
  op_stored env flush s tables h o p q w =
      flush_stored s tables (MemTable.flush_to_disk F env s)
        (flush_to_disk-Flushed F laws env s tables h p) w

  op_answers :
      (env : Env) (op : Op) (s : Engine F.Reader) (tables : List (List Entry)) (m : Contents)
      → IsStored F laws s tables
      → s.read_only ≡ false
      → CanFlush F laws env s
      → (run_op F env op s).0 ≡ ok ok_response
      → ((j : Bytes) → Db.get F s j ≡ ok (reply (m j)))
      → (j : Bytes) → Db.get F (run_op F env op s).1 j ≡ ok (reply (apply op m j))
  unfolding run_op apply
  op_answers env (put k v) s tables m h o p q a j =
      get-put F laws env k v s tables h o p q j ∙ ground (arith, a j)
  op_answers env (del k) s tables m h o p q a j =
      get-del F laws env k s tables h o p q j ∙ unfold reply in ground (arith, a j)
  op_answers env flush s tables m h o p q a j = get-force_flush F laws env s tables h p j ∙ a j

  pub op-Represents :
      (env : Env) (op : Op) (s : Engine F.Reader) (m : Contents)
      → Represents s m
      → CanFlush F laws env s
      → (run_op F env op s).0 ≡ ok ok_response
      → (run_op F env op s).1.read_only ≡ false
      → Represents (run_op F env op s).1 (apply op m)
  op-Represents env op s m h p q w =
      let (tables', stored) = op_stored env op s h.tables h.stored h.writable p q w in
      record {
        tables = tables';
        stored = stored;
        writable = w;
        answers = op_answers env op s h.tables m h.stored h.writable p q h.answers;
      }

  -- After any calls that succeed, whatever they flushed on the way, the database answers every `get`
  -- as the map does to which the same puts and deletions were made.
  pub Runs-Represents :
      {s t : Engine F.Reader} {ops : List Op} (m : Contents)
      → Represents s m
      → Runs s ops t
      → Represents t (apply_all ops m)
  unfolding apply_all
  Runs-Represents m h done = h
  Runs-Represents m h (call {s} {t} {u} {op} {ops} env p q w rest) =
      let now : Represents (run_op F env op s).1 (apply op m) =
        op-Represents env op s m h p (ap (λ r. r.0) q)
          (ap (λ (r : Outcome Response × Engine F.Reader). r.1.read_only) q ∙ w) in
      Runs-Represents (apply op m)
        (subst (λ (z : Engine F.Reader). Represents z (apply op m))
          (ap (λ (r : Outcome Response × Engine F.Reader). r.1) q) now)
        rest

  pub create_db-IsStored :
      (config : Db.Config) (log : Option Bytes) (disk : Disk)
      → IsStored F laws (Db.create_db F config log disk) []
  unfolding Db.create_db SkipList.empty new_storage
  create_db-IsStored config log disk = record { sorted = tt; stored = refl; small = omega arith }

  -- A new database holds nothing: the log that it finds is not replayed, nor the tables on the disk.
  pub create_db-Represents :
      (config : Db.Config) (log : Option Bytes) (disk : Disk)
      → Represents (Db.create_db F config log disk) (λ _. none)
  unfolding Db.create_db SkipList.empty new_storage
  create_db-Represents config log disk = record {
    tables = [];
    stored = create_db-IsStored config log disk;
    writable = refl;
    answers = λ j.
        get-verdict F laws (Db.create_db F config log disk) j [] refl
        ∙ unfold engine_verdict find verdict or_else newest answer in refl;
  }

  -- A new database, over whatever log and disk, after calls of `put`, `del` and a forced flush that
  -- each answer OK and leave it writable, and before each of which it meets `CanFlush` (its
  -- memtable has fewer than 2 ^ 31 entries; where it has levels, the file of the next table is none
  -- that a reader of level 0 depends on; where it has none yet, the base directory can be made and
  -- scanned, and the level directories can be made and read and hold no file: `FreshDirs`): every
  -- `get` answers as the map does that began empty and to which the same puts and deletions were
  -- made. A start on directories that hold tables is so excluded.
  pub get_session :
      (config : Db.Config) (log : Option Bytes) (disk : Disk) (ops : List Op) (t : Engine F.Reader)
      → Runs (Db.create_db F config log disk) ops t
      → (j : Bytes) → Db.get F t j ≡ ok (reply (apply_all ops (λ _. none) j))
  get_session config log disk ops t r =
      (Runs-Represents (λ _. none) (create_db-Represents config log disk) r).answers
