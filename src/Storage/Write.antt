-- ===== src/Storage/Write.antt =====
-- What `write` leaves on directories that began without tables: every table stands at level 0.
use tiny_kv.Common.{
  ℕ, zero, suc, ◌+◌, ◌≤◌, ◌<◌, ◌≡◌, refl, sym, ap, ◌≢◌, inl, inr, Bool-cases, false, Option, none,
  some, List, [], ◌∷◌, ◌++◌, subst, arith, if◌then◌else◌, Option-cases, Bytes, length, All,
  length-append, All-append,
}
use tiny_kv.Common.Outcome.{Outcome, ok, throws, fault}
use tiny_kv.Types.{Entry, Error, IsSorted}
use tiny_kv.Context.{Env, Context, DirEntry}
use tiny_kv.Table.{TableFormat, TableLaws}
use tiny_kv.Level.{
  status_ok, status_error, Level, get_key, new_level, Status, status_error, create_table, init_new,
  open_tables,
}
use tiny_kv.Disk.{Disk}
use tiny_kv.Storage.{
  get_loop, get, make_levels, init_levels, write_level0, Storage, contains, scan_levels, after_init,
  write, level_path, finish_write,
}
use tiny_kv.Level.Lookup.{HoldsAll, alive, get_key-newest}
use tiny_kv.Level.Write.{Unused, table_path, Stored, create_table-Stored}
use tiny_kv.Table.Verdict.{verdict, newest}
use tiny_kv.Common.Words.{u64_mod, int_limit}
use tiny_kv.Iterator.{Iterator, contents}

-- The directories hold no table: the base directory is there or can be made, and lists what the scan
-- takes; a level's directory can be made where it is missing, and can be read and holds no regular file
-- where it is there.
pub record FreshDirs (env : Env) : Type 0 where
  pub base_ok : env.base_fails ≡ false
  pub entries : List DirEntry
  pub listed : env.base_listing ≡ some entries
  pub scanned : (max : ℕ) → (found : List ℕ) × (scan_levels max entries [] ≡ ok found)
  pub levels_ok : (n : ℕ) → env.level_fails n ≡ false
  pub no_files :
      (n : ℕ)
      → (es : List DirEntry) × (env.level_listing n ≡ some es) × All (λ e. e.is_regular ≡ false) es

module _ (F : TableFormat) (laws : TableLaws F) where
  abbrev pub NoTables : List (Level F.Reader) → Type 0
  NoTables ls = All (λ l. l.readers ≡ []) ls

  -- level 0 holds these tables, newest first, and the others hold none
  abbrev pub OnlyLevel0 : Disk → List (Level F.Reader) → List (List Entry) → Type 0
  OnlyLevel0 d [] tables = tables ≡ []
  OnlyLevel0 d (l ∷ ls) tables = HoldsAll F laws d l.readers tables × NoTables ls

  -- The next table of level 0 can be placed. Where there are levels already, its file is none that a
  -- reader of level 0 depends on. Where there are none, the directories hold no table
  -- (`FreshDirs`): there `write` makes the levels first, and would open what tables it finds.
  abbrev pub CanPlace : Env → Context → List (Level F.Reader) → Type 0
  CanPlace env c [] = FreshDirs env
  CanPlace env c (l ∷ ls) = Unused F laws (table_path F laws env c l) l.readers

  first_alive-nil :
      (d : Disk) (k : Bytes) (ls : List (Level F.Reader))
      → NoTables ls
      → get_loop F d k ls ≡ ok none
  unfolding get_loop get_key
  first_alive-nil d k [] h = refl
  first_alive-nil d k (l ∷ ls) h = ground (arith, h.0, first_alive-nil d k ls h.1)

  -- The answer of such a storage: the newest table that says something of the key decides.
  pub get-newest :
      (d : Disk) (s : Storage F.Reader) (k : Bytes) (tables : List (List Entry))
      → OnlyLevel0 d s.levels tables
      → (o : Option Entry) × (get F d s k ≡ ok o) × (verdict o ≡ alive (newest k tables))
  unfolding get
  get-newest d s k tables h = at s.levels h
    where
      at :
          (ls : List (Level F.Reader))
          → OnlyLevel0 d ls tables
          → (o : Option Entry) × (get_loop F d k ls ≡ ok o) × (verdict o ≡ alive (newest k tables))
      at [] h = (none, unfold get_loop in refl, unfold newest verdict alive in ground (arith, h))
      at (l ∷ ls) h =
          let (o, g, v) = get_key-newest F laws d l k tables h.0 in
          elim (Option-cases o) [
            | inl nothing ↦ (
              none,
              unfold get_loop in ground (arith, g, nothing, first_alive-nil d k ls h.1),
              ground (arith, v, nothing),
            )
            | inr (e, found) ↦ (
              if e.tombstone then none else some e,
              unfold get_loop in ground (arith, g, found),
              unfold verdict alive in ground (arith, v, found),
            )
          ]

  open_tables_none :
      (d : Disk) (directory : Bytes) (es : List DirEntry) (rs : List F.Reader)
      → All (λ e. e.is_regular ≡ false) es
      → open_tables F d directory es rs ≡ ok rs
  unfolding open_tables
  open_tables_none d directory [] rs h = refl
  open_tables_none d directory (e ∷ es) rs h =
      ground (arith, h.0, open_tables_none d directory es rs h.1)

  init_new_none :
      (env : Env) (d : Disk) (n : ℕ) (directory : Bytes)
      → FreshDirs env
      → init_new F env d (new_level F n directory) ≡ ok (new_level F n directory)
  unfolding init_new new_level
  init_new_none env d n directory f =
      let (es, listed, none_there) = f.no_files n in
      ground (arith, listed, open_tables_none d directory es [] none_there)

  -- a level is made, or its directory is there and nothing in it is opened
  make_levels_next :
      (env : Env) (d : Disk) (found : List ℕ) (rounds n : ℕ) (s : Storage F.Reader)
      → FreshDirs env
      → make_levels F env d found (suc rounds) n s
        ≡ make_levels F env d found rounds
            (n + 1)
            (record s { levels = s.levels ++ new_level F n (level_path s.base_path n) ∷ [] })
  unfolding make_levels
  make_levels_next env d found rounds n s f = elim (Bool-cases (contains n found)) [
    | inl there ↦ ground (arith, there, init_new_none env d n (level_path s.base_path n) f)
    | inr missing ↦ ground (arith, missing, f.levels_ok n)
  ]

  make_levels-NoTables :
      (env : Env) (d : Disk) (found : List ℕ) (rounds n : ℕ) (s : Storage F.Reader)
      → FreshDirs env
      → NoTables s.levels
      → ((make_levels F env d found rounds n s).0 ≡ ok none)
        × NoTables (make_levels F env d found rounds n s).1.levels
        × (length s.levels + rounds ≤ length (make_levels F env d found rounds n s).1.levels)
  make_levels-NoTables env d found zero n s f h = unfold make_levels in (refl, h, omega arith)
  make_levels-NoTables env d found (suc rounds) n s f h =
      let level : Level F.Reader = new_level F n (level_path s.base_path n) in
      let s' : Storage F.Reader = record s { levels = s.levels ++ level ∷ [] } in
      let (done, empty, many) = make_levels-NoTables env d found rounds (n + 1) s' f (
        All-append (λ (l : Level F.Reader). l.readers ≡ []) s.levels (level ∷ []) h
          (unfold new_level in refl, tt)) in
      rw (make_levels_next env d found rounds n s f)
        (done, empty, omega (arith, many, length-append s.levels (level ∷ [])))

  init_levels-NoTables :
      (env : Env) (d : Disk) (s : Storage F.Reader)
      → FreshDirs env
      → s.levels ≡ []
      → ((init_levels F env d s).0 ≡ ok none)
        × NoTables (init_levels F env d s).1.levels
        × (0 < length (init_levels F env d s).1.levels)
  unfolding init_levels
  init_levels-NoTables env d s f e =
      let (found, scan) = f.scanned s.max_level in
      ground (
        arith,
        f.base_ok,
        f.listed,
        scan,
        make_levels-NoTables env d found (s.max_level + 1) 0 (record s { levels = [] }) f tt,
      )

  -- what `write` returns, and what it leaves
  abbrev pub Wrote :
      List Entry → List (List Entry) → Outcome (Option Error) × Context × Storage F.Reader → Type 0
  Wrote es tables (o, c, s) =
      (o ≡ ok none → OnlyLevel0 c.disk s.levels (es ∷ tables))
      × (o ≢ ok none → OnlyLevel0 c.disk s.levels tables)
      × (c.file_counter < u64_mod)
      × (o ≢ fault)

  write_level0-Wrote :
      (env : Env) (c : Context) (s : Storage F.Reader) (l : Level F.Reader)
      (ls : List (Level F.Reader)) (it : Iterator) (tables : List (List Entry))
      → s.levels ≡ l ∷ ls
      → OnlyLevel0 c.disk (l ∷ ls) tables
      → Unused F laws (table_path F laws env c l) l.readers
      → IsSorted (contents it)
      → length (contents it) < int_limit
      → c.file_counter < u64_mod
      → Wrote (contents it) tables (write_level0 F env c s it)
  unfolding write_level0
  write_level0-Wrote env c s l ls it tables e h u sorted short small =
      rw (e, write_level0)
        (at (create_table F env c l it)
          (create_table-Stored F laws env c l it tables h.0 u sorted short small))
    where
      at :
          (r : Outcome Status × Context × Level F.Reader)
          → Stored F laws (contents it) tables r
          → Wrote (contents it) tables (finish_write F r ls s)
      at (ok status_ok, c', l') st = (λ p. (st.0 refl, h.1), λ ne. absurd (ne refl), st.2, λ p. cc)
      at (ok (status_error x), c', l') st = (λ p. cc, λ ne. (st.1 (λ q. cc), h.1), st.2, λ p. cc)
      at (throws x, c', l') st = (λ p. cc, λ ne. (st.1 (λ q. cc), h.1), st.2, λ p. cc)
      at (fault, c', l') st = absurd (st.3 refl)

  after_init-Wrote :
      (env : Env) (c : Context) (s : Storage F.Reader) (it : Iterator) (o : Option Error)
      → NoTables s.levels
      → 0 < length s.levels
      → IsSorted (contents it)
      → length (contents it) < int_limit
      → c.file_counter < u64_mod
      → Wrote (contents it) [] (after_init F env c it (ok o, s))
  unfolding after_init
  after_init-Wrote env c s it o none_yet some_levels sorted short small =
      at s.levels refl none_yet some_levels
    where
      at :
          (ls : List (Level F.Reader))
          → s.levels ≡ ls
          → NoTables ls
          → 0 < length ls
          → Wrote (contents it) [] (write_level0 F env c s it)
      at [] e n p = absurd (omega arith)
      at (l ∷ ls) e n p =
          write_level0-Wrote env c s l ls it [] e
            (subst (λ (rs : List F.Reader). HoldsAll F laws c.disk rs []) (sym n.0) tt, n.1)
            (subst (λ (rs : List F.Reader). Unused F laws (table_path F laws env c l) rs) (sym n.0)
              tt)
            sorted short small

  after_init-done :
      (env : Env) (c : Context) (it : Iterator) (r : Outcome (Option Error) × Storage F.Reader)
      → r.0 ≡ ok none
      → NoTables r.1.levels
      → 0 < length r.1.levels
      → IsSorted (contents it)
      → length (contents it) < int_limit
      → c.file_counter < u64_mod
      → Wrote (contents it) [] (after_init F env c it r)
  after_init-done env c it (ok o, s) e = after_init-Wrote env c s it o
  after_init-done env c it (throws x, s) e = cc
  after_init-done env c it (fault, s) e = cc

  write-nil :
      (env : Env) (c : Context) (s : Storage F.Reader) (it : Iterator)
      → s.levels ≡ []
      → write F env c s it ≡ after_init F env c it (init_levels F env c.disk s)
  unfolding write
  write-nil env c s it e = ground (arith, ap length e)

  write-cons :
      (env : Env) (c : Context) (s : Storage F.Reader) (it : Iterator) (l : Level F.Reader)
      (ls : List (Level F.Reader))
      → s.levels ≡ l ∷ ls
      → write F env c s it ≡ write_level0 F env c s it
  unfolding write
  write-cons env c s it l ls e = ground (arith, ap length e)

  -- `write` of an iterator in key order over fewer than 2 ^ 31 entries, on a storage whose only
  -- tables stand at level 0, with a file counter in its 64 bits; where there are levels, the file
  -- of the next table is none that a reader of level 0 depends on, and where there are none, the
  -- base directory can be made and scanned, and the level directories can be made and read and hold
  -- no file (`FreshDirs`). It returns or throws. If it reports no error, level 0 has the table of
  -- the iterator's entries in front of those it had; if it reports one or throws, the tables are
  -- those it had. The file counter stays in its 64 bits.
  pub write-Wrote :
      (env : Env) (c : Context) (s : Storage F.Reader) (it : Iterator) (tables : List (List Entry))
      → OnlyLevel0 c.disk s.levels tables
      → CanPlace env c s.levels
      → IsSorted (contents it)
      → length (contents it) < int_limit
      → c.file_counter < u64_mod
      → Wrote (contents it) tables (write F env c s it)
  write-Wrote env c s it tables h p sorted short small = at s.levels refl h p
    where
      fresh :
          s.levels ≡ []
          → FreshDirs env
          → Wrote (contents it) [] (after_init F env c it (init_levels F env c.disk s))
      fresh e f =
          let (done, empty, some_levels) = init_levels-NoTables env c.disk s f e in
          after_init-done env c it (init_levels F env c.disk s) done empty some_levels sorted short
            small

      at :
          (ls : List (Level F.Reader))
          → s.levels ≡ ls
          → OnlyLevel0 c.disk ls tables
          → CanPlace env c ls
          → Wrote (contents it) tables (write F env c s it)
      at [] e h p =
          subst (Wrote (contents it) tables) (sym (write-nil env c s it e)) (rw h (fresh e p))
      at (l ∷ ls) e h p =
          subst (Wrote (contents it) tables) (sym (write-cons env c s it l ls e))
            (write_level0-Wrote env c s l ls it tables e h p sorted short small)
