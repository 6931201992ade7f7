-- ===== src/Storage/Restart.antt =====
-- What `initLevels` leaves on directories that hold tables already.
use tiny_kv.Common.{
  ℕ, ◌+◌, ◌≤◌, ◌<◌, ◌^◌, ◌≡◌, refl, sym, ◌⊎◌, inl, inr, true, false, Option, none, some, List, [],
  ◌∷◌, ◌++◌, append_assoc, append-nil, map, subst, arith, Bytes, codes, length, All,
}
use tiny_kv.Common.Outcome.{ok}
use tiny_kv.Types.{Entry}
use tiny_kv.Context.{Env, DirEntry}
use tiny_kv.Table.{TableFormat, TableLaws}
use tiny_kv.Table.Files.{TableFiles}
use tiny_kv.Table.Verdict.{verdict}
use tiny_kv.Disk.{Disk}
use tiny_kv.Level.{Level, new_level, open_tables, init_new}
use tiny_kv.Level.Lookup.{HoldsAll}
use tiny_kv.Storage.{Storage, level_path, make_levels, init_levels, contains, get}
use tiny_kv.Storage.Discover.{level_dir, scan_levels-level_dir}
use tiny_kv.Storage.Lookup.{HoldsLevels, first_alive, get-first_alive}

module _ (F : TableFormat) (laws : TableLaws F) (files : TableFiles F laws) where
  HoldsAll-snoc :
      (d : Disk) (rs : List F.Reader) (olds : List (List Entry)) (r : F.Reader) (t : List Entry)
      → HoldsAll F laws d rs olds
      → laws.Holds d r t
      → HoldsAll F laws d (rs ++ r ∷ []) (olds ++ t ∷ [])
  HoldsAll-snoc d [] [] r t h new = (new, tt)
  HoldsAll-snoc d [] (o ∷ olds) r t h new = absurd h
  HoldsAll-snoc d (q ∷ rs) [] r t h new = absurd h
  HoldsAll-snoc d (q ∷ rs) (o ∷ olds) r t h new = (h.0, HoldsAll-snoc d rs olds r t h.1 new)

  HoldsLevels-snoc :
      (d : Disk) (ls : List (Level F.Reader)) (olds : List (List (List Entry))) (l : Level F.Reader)
      (t : List (List Entry))
      → HoldsLevels F laws d ls olds
      → HoldsAll F laws d l.readers t
      → HoldsLevels F laws d (ls ++ l ∷ []) (olds ++ t ∷ [])
  HoldsLevels-snoc d [] [] l t h new = (new, tt)
  HoldsLevels-snoc d [] (o ∷ olds) l t h new = absurd h
  HoldsLevels-snoc d (q ∷ ls) [] l t h new = absurd h
  HoldsLevels-snoc d (q ∷ ls) (o ∷ olds) l t h new = (h.0, HoldsLevels-snoc d ls olds l t h.1 new)

  -- the regular files of a listing hold these tables, in the order in which they are listed
  abbrev pub StoredIn : Disk → Bytes → List DirEntry → List (List Entry) → Type 0
  StoredIn d directory [] tables = tables ≡ []
  StoredIn d directory (e ∷ es) [] = (e.is_regular ≡ false) × StoredIn d directory es []
  StoredIn d directory (e ∷ es) (t ∷ tables) =
      ((e.is_regular ≡ false) × StoredIn d directory es (t ∷ tables))
      ⊎ ((e.is_regular ≡ true)
          × files.Stores d (directory ++ codes "/" ++ e.name) t
          × StoredIn d directory es tables)

  -- the loop ends with readers that hold these tables
  abbrev Opened : Disk → Bytes → List DirEntry → List F.Reader → List (List Entry) → Type 0
  Opened d directory es rs tables =
      (all : List F.Reader) × (open_tables F d directory es rs ≡ ok all)
      × HoldsAll F laws d all tables

  skipped :
      (d : Disk) (directory : Bytes) (e : DirEntry) (es : List DirEntry) (rs : List F.Reader)
      (tables : List (List Entry))
      → e.is_regular ≡ false
      → Opened d directory es rs tables
      → Opened d directory (e ∷ es) rs tables
  unfolding open_tables
  skipped d directory e es rs tables other (all, back, holds) =
      (all, ground (arith, other, back), holds)

  open_tables-HoldsAll :
      (d : Disk) (directory : Bytes) (es : List DirEntry) (rs : List F.Reader)
      (olds tables : List (List Entry))
      → HoldsAll F laws d rs olds
      → StoredIn d directory es tables
      → Opened d directory es rs (olds ++ tables)
  unfolding open_tables
  open_tables-HoldsAll d directory [] rs olds tables h st =
      (rs, refl, subst (HoldsAll F laws d rs) (ground (arith, append-nil olds, st)) h)
  open_tables-HoldsAll d directory (e ∷ es) rs olds [] h (other, st) =
      skipped d directory e es rs (olds ++ []) other
        (open_tables-HoldsAll d directory es rs olds [] h st)
  open_tables-HoldsAll d directory (e ∷ es) rs olds (t ∷ tables) h (inl (other, st)) =
      skipped d directory e es rs (olds ++ t ∷ tables) other
        (open_tables-HoldsAll d directory es rs olds (t ∷ tables) h st)
  open_tables-HoldsAll d directory (e ∷ es) rs olds (t ∷ tables) h (inr (regular, stored, st)) =
      let (r, back, holds) =
        files.open_table-Stores d (directory ++ codes "/" ++ e.name) t stored in
      let (all, goes_on, all_hold) =
        open_tables-HoldsAll d directory es (rs ++ r ∷ []) (olds ++ t ∷ []) tables
          (HoldsAll-snoc d rs olds r t h holds) st in
      (
        all,
        ground (arith, regular, back, goes_on),
        subst (HoldsAll F laws d all) (append_assoc olds (t ∷ []) tables) all_hold,
      )

  -- The directory of level `n` was found and its files hold these tables; or it was not, it can be
  -- made, and there are other tables.
  abbrev pub LevelStored : Env → Disk → List ℕ → Bytes → ℕ → List (List Entry) → Type 0
  LevelStored env d found base n tables =
      ((contains n found ≡ true)
        × ((es : List DirEntry) × (env.level_listing n ≡ some es)
            × StoredIn d (level_path base n) es tables))
      ⊎ ((contains n found ≡ false) × (env.level_fails n ≡ false) × (tables ≡ []))

  -- the same of the levels from `n` on
  abbrev pub LevelsStored : Env → Disk → List ℕ → Bytes → ℕ → List (List (List Entry)) → Type 0
  LevelsStored env d found base n [] = Unit
  LevelsStored env d found base n (t ∷ rest) =
      LevelStored env d found base n t × LevelsStored env d found base (n + 1) rest

  init_new-HoldsAll :
      (env : Env) (d : Disk) (base : Bytes) (n : ℕ) (es : List DirEntry)
      (tables : List (List Entry))
      → env.level_listing n ≡ some es
      → StoredIn d (level_path base n) es tables
      → (l : Level F.Reader) × (init_new F env d (new_level F n (level_path base n)) ≡ ok l)
        × HoldsAll F laws d l.readers tables
  unfolding init_new new_level
  init_new-HoldsAll env d base n es tables listed st =
      let (all, back, holds) = open_tables-HoldsAll d (level_path base n) es [] [] tables tt st in
      (
        record { level_num = n; directory = level_path base n; readers = all },
        ground (arith, listed, back),
        holds,
      )

  make_levels-HoldsLevels :
      (env : Env) (d : Disk) (found : List ℕ) (n : ℕ) (s : Storage F.Reader)
      (olds rest : List (List (List Entry)))
      → HoldsLevels F laws d s.levels olds
      → LevelsStored env d found s.base_path n rest
      → ((make_levels F env d found (length rest) n s).0 ≡ ok none)
        × HoldsLevels F laws d (make_levels F env d found (length rest) n s).1.levels (olds ++ rest)
  unfolding make_levels
  make_levels-HoldsLevels env d found n s olds [] h st =
      (refl, subst (HoldsLevels F laws d s.levels) (sym (append-nil olds)) h)
  make_levels-HoldsLevels env d found n s olds (t ∷ rest) h (inl (there, (es, listed, st)), more) =
      let (l, back, holds) = init_new-HoldsAll env d s.base_path n es t listed st in
      let s' : Storage F.Reader = record s { levels = s.levels ++ l ∷ [] } in
      let (ends, all) =
        make_levels-HoldsLevels env d found (n + 1) s' (olds ++ t ∷ []) rest
          (HoldsLevels-snoc d s.levels olds l t h holds) more in
      ground (arith, there, back, append_assoc olds (t ∷ []) rest, ends, all)
  make_levels-HoldsLevels env d found n s olds (t ∷ rest) h (inr (missing, can, empty), more) =
      let l : Level F.Reader = new_level F n (level_path s.base_path n) in
      let s' : Storage F.Reader = record s { levels = s.levels ++ l ∷ [] } in
      let (ends, all) =
        make_levels-HoldsLevels env d found (n + 1) s' (olds ++ t ∷ []) rest
          (HoldsLevels-snoc d s.levels olds l t h (unfold new_level in rw (empty) tt)) more in
      ground (arith, missing, can, append_assoc olds (t ∷ []) rest, ends, all)

  -- The directory tree, as it is when the program starts: level directories up to the highest, and
  -- in them files that hold these tables, level by level.
  pub record FoundDirs (env : Env) (d : Disk) (s : Storage F.Reader)
      (tables : List (List (List Entry))) : Type 0 where
    pub base_ok : env.base_fails ≡ false
    pub found : List ℕ
    pub listed : env.base_listing ≡ some (map level_dir found)
    pub in_range : All (λ n. n ≤ s.max_level) found
    pub small : s.max_level < 2 ^ 31
    pub each_level : length tables ≡ s.max_level + 1
    pub stored : LevelsStored env d found s.base_path 0 tables

  init_levels-HoldsLevels :
      (env : Env) (d : Disk) (s : Storage F.Reader) (tables : List (List (List Entry)))
      → FoundDirs env d s tables
      → ((init_levels F env d s).0 ≡ ok none)
        × HoldsLevels F laws d (init_levels F env d s).1.levels tables
  unfolding init_levels
  init_levels-HoldsLevels env d s tables f = ground (
    arith,
    f.base_ok,
    f.listed,
    f.each_level,
    scan_levels-level_dir s.max_level f.found [] f.small f.in_range,
    make_levels-HoldsLevels env d f.found 0 (record s { levels = [] }) [] tables tt f.stored,
  )

  -- On a directory tree whose level directories hold table files or can be made, `initLevels`
  -- succeeds, and what the storage then answers is the first level with a live entry of the key,
  -- where in a level the file that the directory lists first decides.
  pub init_levels-first_alive :
      (env : Env) (d : Disk) (s : Storage F.Reader) (k : Bytes) (tables : List (List (List Entry)))
      → FoundDirs env d s tables
      → ((init_levels F env d s).0 ≡ ok none)
        × ((o : Option Entry) × (get F d (init_levels F env d s).1 k ≡ ok o)
            × (verdict o ≡ first_alive k tables))
  init_levels-first_alive env d s k tables f =
      let (ends, holds) = init_levels-HoldsLevels env d s tables f in
      (ends, get-first_alive F laws d (init_levels F env d s).1 k tables holds)
