-- ===== src/MemTable.antt =====
-- core/mem_table/mem_table_impl.cpp: the memtable over the skip list, the log and the storage.
pub mod Flush
pub mod Writes
pub mod Replay
pub mod Logged
pub mod Recover
use tiny_kv.Common.{
  ℕ, zero, suc, ◌+◌, ◌-◌, ◌*◌, ◌/◌, ◌%◌, ◌^◌, ◌≤◌, ◌<◌, Ordering, compare, ◌≡◌, refl, sym, ap, ◌∙◌,
  ◌≢◌, ◌↔◌, ◌⊎◌, inl, inr, Bool, true, false, not, ◌&&◌, ◌||◌, Option, none, some, List, [], ◌∷◌,
  ◌++◌, append_assoc, append-nil, map, foldl, subst, arith, String, ltb, leb, ◌==◌, if◌then◌else◌,
  ltb→lt, lt→ltb, le→ltb, ltb→le, tests, Bool-cases, Option-cases, Bytes, codes, length, get_elem?,
  take, drop, All, length-append, length-take, length-drop, take-append, drop-append, take_all,
  All-append, All-map, get_elem?-append,
}
use tiny_kv.Common.Outcome.{Outcome, ok, throws, fault, bad_optional}
use tiny_kv.Common.Order.{compare_bytes, key_lt, key_le, key_eq, KeyLt, key_eq_self}
use tiny_kv.Types.{
  Entry, Error, IsSorted, find, del_failed, wal_failed, replay_flush_failed, put_read_only,
  no_such_key, put_flush_failed, del_read_only, del_flush_failed,
}
use tiny_kv.Common.Exec.{Exec, ◌>>=◌, ◌>>◌, pure, modify, gets}
use tiny_kv.SkipList.Iter as SkipIter
use tiny_kv.SkipList
use tiny_kv.SkipList.{SkipList}
use tiny_kv.Storage
use tiny_kv.Storage.{Storage}
use tiny_kv.Wal
use tiny_kv.Wal.{Wal, replayed, corrupt, out_of_fuel}
use tiny_kv.Context.{Context, Env}
use tiny_kv.Common.Words.{int_limit}
use tiny_kv.Table.{TableFormat}
use tiny_kv.Iterator.{Iterator, over_skip_list}

-- the objects that `MemTableImpl` refers to, with its own `m_size`, an `int`, and `m_readOnly`
pub record Engine (R : Type 0) : Type 0 where
  pub size : ℕ
  pub read_only : Bool
  pub skip_list : SkipList
  pub wal : Wal
  pub storage : Storage R
  pub context : Context

module _ (F : TableFormat) where
  abbrev Act : Type 0 → Type 0
  Act A = Exec (Engine F.Reader) A

  unfoldable pub set_read_only : Bool → Act (Unit {0})
  set_read_only b = modify (λ s. record s { read_only = b })

  unfoldable pub wal_append : Env → Entry → Act (Option Error)
  wal_append env e s = let (r, w) = Wal.append env.wal_fault e s.wal in (r, record s { wal = w })

  unfoldable pub wal_remove : Env → Act (Option Error)
  wal_remove env s =
      let (err, w) = Wal.remove env.wal_remove_fails s.wal in (ok err, record s { wal = w })

  unfoldable pub skip_set : Entry → Act (Unit {0})
  skip_set e = modify (λ s. record s { skip_list = (SkipList.set s.skip_list e).1 })

  unfoldable pub skip_clear : Act (Unit {0})
  skip_clear = modify (λ s. record s { skip_list = (SkipList.clear s.skip_list).1 })

  -- `m_storageManager.write(*entries, 0)`
  unfoldable pub storage_write : Env → Iterator → Act (Option Error)
  storage_write env it s =
      let (r, c, st) = Storage.write F env s.context s.storage it in
      (r, record s { context = c; storage = st })

  -- `m_skiplist.getLength() == m_size`, both of type `int`, by the bits that hold them
  unfoldable pub is_full : Engine F.Reader → Bool
  is_full s = elim (SkipList.get_length s.skip_list) [ none ↦ false | some n ↦ n == s.size ]

  -- what `flushToDisk` does once `write` has returned
  unfoldable pub after_write : Env → Option Error → Act (Option Error)
  unfolding set_read_only wal_remove skip_clear
  after_write env (some e) = pure (some e)
  after_write env none = do
    err ← wal_remove env
    elim err [ some e ↦ pure (some e) | none ↦ do skip_clear; set_read_only false; pure none ]

  unfoldable pub flush_to_disk : Env → Act (Option Error)
  unfolding set_read_only storage_write after_write
  flush_to_disk env = do
    set_read_only true
    entries ← gets (λ s. over_skip_list (SkipIter.new_iterator s.skip_list))
    err ← storage_write env entries
    after_write env err

  -- the flush that `put` and `del` make of a full memtable: `none` if they may go on
  unfoldable pub flush_if_full : Env → Error → Act (Option Error)
  unfolding is_full set_read_only
  flush_if_full env message = do
    full ← gets is_full
    if full
        then (do
          set_read_only true
          err ← flush_to_disk env
          elim err [ some _ ↦ pure (some message) | none ↦ pure none ])
        else pure none

  -- what follows the flush: the log first, then the map
  unfoldable pub log_and_set : Env → Entry → Act (Option Error)
  unfolding wal_append skip_set
  log_and_set env e = do
    err ← wal_append env e
    elim err [ some _ ↦ pure (some wal_failed) | none ↦ do skip_set e; pure none ]

  unfoldable pub put : Env → Bytes → Bytes → Act (Option Error)
  put env k v = do
    read_only ← gets (λ s. s.read_only)
    if read_only then pure (some put_read_only) else (do
      err ← flush_if_full env put_flush_failed
      elim err [
        | some e ↦ pure (some e)
        | none ↦ log_and_set env (record { key = k; val = v; tombstone = false })
      ])

  unfoldable pub get : Engine F.Reader → Bytes → Option Entry
  get s k = SkipList.get s.skip_list k

  -- `!get(key) && !m_storageManager.get(key)`, the storage asked only if the memtable has nothing
  unfoldable pub is_missing : Bytes → Act Bool
  unfolding get
  is_missing k s = elim (get s k) [
    | some _ ↦ (ok false, s)
    | none ↦ elim (Storage.get F s.context.disk s.storage k) [
      | throws x ↦ (throws x, s)
      | fault ↦ (fault, s)
      | ok none ↦ (ok true, s)
      | ok (some _) ↦ (ok false, s)
    ]
  ]

  unfoldable pub tombstone_of : Bytes → Entry
  tombstone_of k = record { key = k; val = codes "val"; tombstone = true }

  -- `!m_skiplist.getLength()` after the last `set`
  unfoldable pub check_length : Act (Option Error)
  check_length s = elim (SkipList.get_length s.skip_list) [
    | none ↦ (ok (some del_failed), s)
    | some _ ↦ (ok none, s)
  ]

  -- `del` of a key that was found
  unfoldable pub del_found : Env → Bytes → Act (Option Error)
  unfolding tombstone_of check_length
  del_found env k = do
    read_only ← gets (λ s. s.read_only)
    if read_only then pure (some del_read_only) else (do
      err ← flush_if_full env del_flush_failed
      elim err [
        | some e ↦ pure (some e)
        | none ↦ do
          err' ← log_and_set env (tombstone_of k)
          elim err' [ some e ↦ pure (some e) | none ↦ check_length ]
      ])

  unfoldable pub del : Env → Bytes → Act (Option Error)
  unfolding is_missing del_found
  del env k = do
    missing ← is_missing k
    if missing then pure (some no_such_key) else del_found env k

  -- the loop of `replayWal`: a flush's error is dropped, its exception is not
  unfoldable pub replay_loop : Env → List Entry → Act (Unit {0})
  unfolding is_full skip_set
  replay_loop env [] = pure tt
  replay_loop env (e ∷ es) = do
    full ← gets is_full
    if full then (flush_to_disk env >>= λ _. pure tt) else pure tt
    skip_set e
    replay_loop env es

  -- `m_skiplist.getLength() > 0`: a negative `int` has the highest of its bits set
  unfoldable pub has_entries : Engine F.Reader → Bool
  has_entries s = elim (SkipList.get_length s.skip_list) [
    | none ↦ false
    | some n ↦ ltb 0 n && ltb n int_limit
  ]

  unfoldable pub wal_entries : Act (List Entry)
  wal_entries s = elim (Wal.get_entries s.wal) [
    | replayed es ↦ (ok es, s)
    | corrupt ↦ (throws bad_optional, s)
    | out_of_fuel ↦ (fault, s)
  ]

  unfoldable pub replay_wal : Env → Act (Option Error)
  unfolding wal_entries set_read_only replay_loop has_entries wal_remove
  replay_wal env = do
    set_read_only true
    entries ← wal_entries
    replay_loop env entries
    left ← gets has_entries
    err ← (if left then flush_to_disk env else pure none)
    elim err [
      | some _ ↦ pure (some replay_flush_failed)
      | none ↦ do _ ← wal_remove env; set_read_only false; pure none
    ]
