-- ===== src/Level/Write.antt =====
-- What `createTable` leaves: the new table in front, the old ones as they were.
use tiny_kv.Common.{ℕ, ◌<◌, ◌≡◌, refl, ◌≢◌, List, [], ◌∷◌, ◌++◌, arith, Bytes, codes, All, length}
use tiny_kv.Common.Outcome.{Outcome, ok, throws, fault}
use tiny_kv.Types.{Entry, IsSorted}
use tiny_kv.Table.{TableFormat, TableLaws}
use tiny_kv.Context.{Env, Context}
use tiny_kv.Disk.{Disk}
use tiny_kv.Iterator.{Iterator, contents}
use tiny_kv.Level.{
  Level, generate_file_name, create_table, status_ok, time_now, Status, insert_front,
}
use tiny_kv.Level.Lookup.{HoldsAll}
use tiny_kv.Common.Words.{u64_mod, int_limit}

module _ (F : TableFormat) (laws : TableLaws F) where
  -- where the next table of the level goes
  abbrev pub table_path : Env → Context → Level F.Reader → Bytes
  table_path env c l = l.directory ++ codes "/" ++ (generate_file_name env c).0

  -- no reader of the level depends on a file at the path
  abbrev pub Unused : Bytes → List F.Reader → Type 0
  Unused path rs = All (λ r. laws.Avoids r path) rs

  HoldsAll-frame :
      (d : Disk) (path : Bytes) (it : Iterator) (timestamp file_num : ℕ) (rs : List F.Reader)
      (tables : List (List Entry))
      → Unused path rs
      → HoldsAll F laws d rs tables
      → HoldsAll F laws (F.write_table d path it timestamp file_num).1 rs tables
  HoldsAll-frame d path it ts fn [] [] u h = tt
  HoldsAll-frame d path it ts fn [] (es ∷ tables) u h = absurd h
  HoldsAll-frame d path it ts fn (r ∷ rs) [] u h = absurd h
  HoldsAll-frame d path it ts fn (r ∷ rs) (es ∷ tables) u h = (
    laws.write_table_frame d path it ts fn r es u.0 h.0,
    HoldsAll-frame d path it ts fn rs tables u.1 h.1,
  )

  -- on success the new table in front, else the old tables; it returns or throws
  abbrev pub Stored :
      List Entry → List (List Entry) → Outcome Status × Context × Level F.Reader → Type 0
  Stored es tables (o, c, l) =
      (o ≡ ok status_ok → HoldsAll F laws c.disk l.readers (es ∷ tables))
      × (o ≢ ok status_ok → HoldsAll F laws c.disk l.readers tables)
      × (c.file_counter < u64_mod)
      × (o ≢ fault)

  insert_front-Stored :
      (es : List Entry) (tables : List (List Entry)) (w : Outcome F.Reader × Disk) (c : Context)
      (l : Level F.Reader)
      → ((r : F.Reader) → w.0 ≡ ok r → laws.Holds w.1 r es)
      → HoldsAll F laws w.1 l.readers tables
      → c.file_counter < u64_mod
      → w.0 ≢ fault
      → Stored es tables (insert_front F w c l)
  unfolding insert_front
  insert_front-Stored es tables (ok r, d) c l new old small defined =
      (λ e. (new r refl, old), λ ne. absurd (ne refl), small, λ p. cc)
  insert_front-Stored es tables (throws x, d) c l new old small defined =
      (λ e. cc, λ ne. old, small, λ p. cc)
  insert_front-Stored es tables (fault, d) c l new old small defined = absurd (defined refl)

  -- After `createTable`: on success the table of the iterator's entries stands in front of the old
  -- ones; in no case does an old table change its answers.
  pub create_table-Stored :
      (env : Env) (c : Context) (l : Level F.Reader) (it : Iterator) (tables : List (List Entry))
      → HoldsAll F laws c.disk l.readers tables
      → Unused (table_path env c l) l.readers
      → IsSorted (contents it)
      → length (contents it) < int_limit
      → c.file_counter < u64_mod
      → Stored (contents it) tables (create_table F env c l it)
  unfolding create_table
  create_table-Stored env c l it tables h u s short small =
      insert_front-Stored (contents it) tables _ _ l
        (λ r e.
          laws.write_table-Holds c.disk _ it _ _ r e s short (unfold time_now in omega arith) small)
        (HoldsAll-frame c.disk _ it _ _ l.readers tables u h) (omega arith)
        (laws.write_table_defined c.disk _ it _ _ s (unfold time_now in omega arith) small)
