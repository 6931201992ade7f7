-- ===== src/Db/Reads.antt =====
-- What `get` answers after `put`, `del` and a flush, through any table format that keeps its laws.
use tiny_kv.Common.{
  ◌≡◌, sym, ◌∙◌, true, false, Option, none, some, List, arith, Bytes, codes, if◌then◌else◌, ap, inl,
  inr, Option-cases, ◌∷◌,
}
use tiny_kv.Common.Outcome.{Outcome, ok, throws, fault}
use tiny_kv.Common.Order.{key_eq}
use tiny_kv.Types.{Entry, Error, find}
use tiny_kv.MemTable
use tiny_kv.MemTable.{Engine, tombstone_of}
use tiny_kv.SkipList
use tiny_kv.Db.{
  put, get, del, force_flush, ok_response, no_key_response, put_response, del_response,
  storage_response, failed,
}
use tiny_kv.Common.Exec.{continue, pure}
use tiny_kv.Message.{Response}
use tiny_kv.Table.{TableFormat, TableLaws}
use tiny_kv.MemTable.Flush.{
  engine_verdict, IsStored, Flushed, engine_verdict_flush, flush_to_disk-Flushed, CanFlush,
}
use tiny_kv.Table.Verdict.{verdict, answer, or_else}
use tiny_kv.Context.{Env}
use tiny_kv.MemTable.Writes.{Written, updated, put-Written, del_outcome, engine_verdict_twice}
use tiny_kv.Storage.Write.{get-newest, OnlyLevel0}
use tiny_kv.Level.Lookup.{alive}

-- the response that a client gets for a key with this value, or with none
unfoldable pub reply : Option Bytes → Response
reply none = no_key_response
reply (some v) = record { is_ok = true; message = codes "OK"; payload = some v }

module _ (F : TableFormat) (laws : TableLaws F) where
  -- For an engine whose only tables stand at level 0, `get` answers by the verdict on the key: the
  -- memtable's entry first, then the newest table's.
  pub get-verdict :
      (s : Engine F.Reader) (k : Bytes) (tables : List (List Entry))
      → OnlyLevel0 F laws s.context.disk s.storage.levels tables
      → get F s k ≡ ok (reply (answer (engine_verdict k s.skip_list.entries tables)))
  unfolding get reply engine_verdict answer verdict or_else storage_response MemTable.get
      SkipList.get
  get-verdict s k tables h =
      let (o, g, v) = get-newest F laws s.context.disk s.storage k tables h in
      elim (Option-cases (find k s.skip_list.entries)) [
        | inr (e, here) ↦ ground (arith, here)
        | inl gone ↦ unfold alive in ground (arith, gone, g, v)
      ]

  get_after :
      (s s' : Engine F.Reader) (j : Bytes) (tables tables' : List (List Entry))
      → OnlyLevel0 F laws s.context.disk s.storage.levels tables
      → OnlyLevel0 F laws s'.context.disk s'.storage.levels tables'
      → engine_verdict j s'.skip_list.entries tables' ≡ engine_verdict j s.skip_list.entries tables
      → get F s' j ≡ get F s j
  get_after s s' j tables tables' h h' same =
      get-verdict s' j tables' h'
      ∙ ap (λ v. ok (reply (answer v))) same
      ∙ sym (get-verdict s j tables h)

  get_updated :
      (e : Entry) (s s' : Engine F.Reader) (j : Bytes) (tables tables' : List (List Entry))
      → IsStored F laws s tables
      → IsStored F laws s' tables'
      → engine_verdict j s'.skip_list.entries tables'
        ≡ updated e j (engine_verdict j s.skip_list.entries tables)
      → get F s' j ≡ (
          if key_eq e.key j
          then ok (reply (if e.tombstone then none else some e.val))
          else get F s j)
  unfolding verdict answer
  get_updated e s s' j tables tables' h h' v =
      ground (arith, get-verdict s' j tables' h'.stored, get-verdict s j tables h.stored, v)

  abbrev Success : Outcome Response × Engine F.Reader → Type 0
  Success r = r.0 ≡ ok ok_response

  put_cases :
      (e : Entry) (s : Engine F.Reader) (tables : List (List Entry))
      (r : Outcome (Option Error) × Engine F.Reader)
      → IsStored F laws s tables
      → Written F laws e s tables r
      → (continue r.0 (λ err. pure (put_response F err)) r.1).0 ≡ ok ok_response
      → (j : Bytes)
      → get F (continue r.0 (λ err. pure (put_response F err)) r.1).1 j ≡ (
          if key_eq e.key j
          then ok (reply (if e.tombstone then none else some e.val))
          else get F s j)
  unfolding put_response ok_response failed
  put_cases e s tables (ok none, s') h (t, h', o, v) q j = get_updated e s s' j tables t h h' (v j)
  put_cases e s tables (ok (some x), s') h u q j = ground arith
  put_cases e s tables (throws x, s') h u q j = cc
  put_cases e s tables (fault, s') h u q j = cc

  -- On an engine in order (`IsStored`: its memtable in key order, all its tables at level 0, its
  -- file counter in 64 bits) that accepts writes and meets `CanFlush` (its memtable has fewer than
  -- 2 ^ 31 entries; where it has levels, the file of the next table is none that a reader of level
  -- 0 depends on; where it has none yet, the base directory can be made and scanned, and the level
  -- directories can be made and read and hold no file: `FreshDirs`): after a `put` that answers OK,
  -- `get` returns the value at its key and what it returned before at every other key, whether or
  -- not the `put` flushed the memtable.
  pub get-put :
      (env : Env) (k v : Bytes) (s : Engine F.Reader) (tables : List (List Entry))
      → IsStored F laws s tables
      → s.read_only ≡ false
      → CanFlush F laws env s
      → (put F env k v s).0 ≡ ok ok_response
      → (j : Bytes)
      → get F (put F env k v s).1 j ≡ (if key_eq k j then ok (reply (some v)) else get F s j)
  unfolding put
  get-put env k v s tables h o p =
      put_cases (record { key = k; val = v; tombstone = false }) s tables (MemTable.put F env k v s)
        h (put-Written F laws env k v s tables h o p)

  del_cases :
      (k : Bytes) (s : Engine F.Reader) (tables : List (List Entry))
      (r : Outcome (Option Error) × Engine F.Reader)
      → IsStored F laws s tables
      → Written F laws (tombstone_of F k) s tables r
      → (continue r.0 (λ err. pure (del_response F err)) r.1).0 ≡ ok ok_response
      → (j : Bytes)
      → get F (continue r.0 (λ err. pure (del_response F err)) r.1).1 j
        ≡ (if key_eq k j then ok no_key_response else get F s j)
  unfolding del_response ok_response failed tombstone_of reply
  del_cases k s tables (ok none, s') h (t, h', o, v) q j =
      get_updated (tombstone_of F k) s s' j tables t h h' (v j)
  del_cases k s tables (ok (some x), s') h u q j = ground arith
  del_cases k s tables (throws x, s') h u q j = cc
  del_cases k s tables (fault, s') h u q j = cc

  -- On an engine in order (`IsStored`: its memtable in key order, all its tables at level 0, its
  -- file counter in 64 bits) that accepts writes and meets `CanFlush` (its memtable has fewer than
  -- 2 ^ 31 entries; where it has levels, the file of the next table is none that a reader of level
  -- 0 depends on; where it has none yet, the base directory can be made and scanned, and the level
  -- directories can be made and read and hold no file: `FreshDirs`): after a `del` that answers OK,
  -- `get` finds no such key, and returns what it returned before at every other key.
  pub get-del :
      (env : Env) (k : Bytes) (s : Engine F.Reader) (tables : List (List Entry))
      → IsStored F laws s tables
      → s.read_only ≡ false
      → CanFlush F laws env s
      → (del F env k s).0 ≡ ok ok_response
      → (j : Bytes)
      → get F (del F env k s).1 j ≡ (if key_eq k j then ok no_key_response else get F s j)
  unfolding del
  get-del env k s tables h o p q = elim (del_outcome F laws env k s tables h o p) [
    | inl (gone, dead, said) ↦
        absurd (unfold del_response ok_response failed in ground (arith, said))
    | inr w ↦ del_cases k s tables (MemTable.del F env k s) h w q
  ]

  -- On an engine in order (`IsStored`: its memtable in key order, all its tables at level 0, its
  -- file counter in 64 bits) that meets `CanFlush` (its memtable has fewer than 2 ^ 31 entries;
  -- where it has levels, the file of the next table is none that a reader of level 0 depends on;
  -- where it has none yet, the base directory can be made and scanned, and the level directories
  -- can be made and read and hold no file: `FreshDirs`): a forced flush, however it ends, leaves
  -- every answer of `get`.
  pub get-force_flush :
      (env : Env) (s : Engine F.Reader) (tables : List (List Entry))
      → IsStored F laws s tables
      → CanFlush F laws env s
      → (j : Bytes) → get F (force_flush F env s).1 j ≡ get F s j
  unfolding force_flush
  get-force_flush env s tables h p j =
      at (MemTable.flush_to_disk F env s) (flush_to_disk-Flushed F laws env s tables h p)
    where
      at :
          (r : Outcome (Option Error) × Engine F.Reader)
          → Flushed F laws s tables r
          → get F (continue r.0 (λ _. pure ok_response) r.1).1 j ≡ get F s j
      at (ok none, s') (h', o, empty, w, z) =
          get_after s s' j tables (s.skip_list.entries ∷ tables) h.stored h'.stored
            (rw empty (engine_verdict_flush j s.skip_list.entries tables))
      at (ok (some e), s') (same, w, o, inl kept) =
          get_after s s' j tables tables h.stored kept (rw same)
      at (ok (some e), s') (same, w, o, inr added) =
          get_after s s' j tables (s.skip_list.entries ∷ tables) h.stored added
            (rw same (engine_verdict_twice j s.skip_list.entries tables))
      at (throws x, s') (same, w, o, kept) = get_after s s' j tables tables h.stored kept (rw same)
      at (fault, s') h = absurd h
