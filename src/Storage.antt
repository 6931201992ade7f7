-- ===== src/Storage.antt =====
-- core/storage_manager/storage_manager_impl.cpp: the levels, found on disk at the first write.
pub mod Lookup
pub mod Write
pub mod Discover
pub mod Restart
pub mod Compact
use tiny_kv.Common.{
  ℕ, zero, suc, ◌+◌, ◌-◌, ◌*◌, ◌/◌, ◌%◌, ◌^◌, ◌≤◌, ◌<◌, Ordering, compare, ◌≡◌, refl, sym, ap, ◌∙◌,
  ◌≢◌, ◌↔◌, ◌⊎◌, inl, inr, Bool, true, false, not, ◌&&◌, ◌||◌, Option, none, some, List, [], ◌∷◌,
  ◌++◌, append_assoc, append-nil, map, foldl, subst, arith, String, ltb, leb, ◌==◌, if◌then◌else◌,
  ltb→lt, lt→ltb, le→ltb, ltb→le, tests, Bool-cases, Option-cases, Bytes, codes, length, get_elem?,
  take, drop, All, length-append, length-take, length-drop, take-append, drop-append, take_all,
  All-append, All-map, get_elem?-append,
}
use tiny_kv.Common.Outcome.{Outcome, ok, throws, fault, ◌>>=◌, out_of_range, no_directory}
use tiny_kv.Common.Order.{compare_bytes, key_lt, key_le, key_eq, KeyLt, key_eq_self}
use tiny_kv.Types.{Entry, Error, IsSorted, find, no_base_directory, no_level_directory}
use tiny_kv.Level.{
  status_ok, status_error, Level, compact_into, new_level, get_key, init_new, create_table,
  status_error, Status,
}
use tiny_kv.Common.Decimal.{is_digit, to_string, value}
use tiny_kv.Context.{DirEntry, Env, Context}
use tiny_kv.Table.{TableFormat}
use tiny_kv.Disk.{Disk}
use tiny_kv.Iterator.{Iterator}

pub record Storage (R : Type 0) : Type 0 where
  pub max_level : ℕ
  pub base_path : Bytes
  pub levels : List (Level R)

-- what follows `prefix` in `s`
unfoldable pub after_prefix : Bytes → Bytes → Option Bytes
after_prefix [] s = some s
after_prefix (p ∷ ps) [] = none
after_prefix (p ∷ ps) (c ∷ s) = let rest = after_prefix ps s in if p == c then rest else none

unfoldable pub all_digits : Bytes → Bool
all_digits [] = true
all_digits (c ∷ s) = is_digit c && all_digits s

-- `std::regex_match` with `level-(\d+)`: the digits
unfoldable pub match_level : Bytes → Option Bytes
unfolding after_prefix all_digits
match_level name = elim (after_prefix (codes "level-") name) [
  | none ↦ none
  | some [] ↦ none
  | some (c ∷ s) ↦ if all_digits (c ∷ s) then some (c ∷ s) else none
]

-- `std::stoi`, on digits
unfoldable pub stoi : Bytes → Outcome ℕ
unfolding value
stoi s = if ltb (2 ^ 31 - 1) (value 0 s) then throws out_of_range else ok (value 0 s)

-- the scan of the base directory: the keys of `discoveredLevels`
unfoldable pub scan_levels : ℕ → List DirEntry → List ℕ → Outcome (List ℕ)
scan_levels max [] found = ok found
scan_levels max (e ∷ es) found = elim e.is_directory [
  | false ↦ scan_levels max es found
  | true ↦ elim (match_level e.name) [
    | none ↦ scan_levels max es found
    | some digits ↦ elim (stoi digits) [
      | throws x ↦ throws x
      | fault ↦ fault
      | ok n ↦ scan_levels max es (if ltb max n then found else found ++ n ∷ [])
    ]
  ]
]

unfoldable pub contains : ℕ → List ℕ → Bool
contains n [] = false
contains n (m ∷ ms) = n == m || contains n ms

unfoldable pub level_path : Bytes → ℕ → Bytes
level_path base_path n = base_path ++ (codes "/level-" ++ to_string n)

module _ (F : TableFormat) where
  open F use {Reader}

  unfoldable pub new_storage : Bytes → ℕ → Storage Reader
  new_storage base_path max_level = record {
    max_level = max_level;
    base_path = base_path;
    levels = [];
  }

  -- step 2 of `initLevels`: `rounds` levels from `n` on. An error keeps the levels made so far.
  unfoldable pub make_levels :
      Env → Disk → List ℕ → ℕ → ℕ → Storage Reader → Outcome (Option Error) × Storage Reader
  make_levels env d found zero n s = (ok none, s)
  make_levels env d found (suc rounds) n s =
      let level = new_level F n (level_path s.base_path n) in
      elim (contains n found) [
        | true ↦ elim (init_new F env d level) [
          | throws x ↦ (throws x, s)
          | fault ↦ (fault, s)
          | ok l ↦ make_levels env d found rounds (n + 1) (record s { levels = s.levels ++ l ∷ [] })
        ]
        | false ↦ elim (env.level_fails n) [
          | true ↦ (ok (some no_level_directory), s)
          | false ↦
              make_levels env d found rounds (n + 1) (record s { levels = s.levels ++ level ∷ [] })
        ]
      ]

  unfoldable pub init_levels : Env → Disk → Storage Reader → Outcome (Option Error) × Storage Reader
  unfolding scan_levels make_levels
  init_levels env d s =
      if env.base_fails then (ok (some no_base_directory), s) else elim env.base_listing [
        | none ↦ (throws no_directory, s)
        | some es ↦ elim (scan_levels s.max_level es []) [
          | throws x ↦ (throws x, s)
          | fault ↦ (fault, s)
          | ok found ↦ make_levels env d found (s.max_level + 1) 0 (record s { levels = [] })
        ]
      ]

  -- the status of `createTable` as the result of `write`, with level 0 put back
  unfoldable pub finish_write :
      Outcome Status × Context × Level Reader
      → List (Level Reader)
      → Storage Reader
      → Outcome (Option Error) × Context × Storage Reader
  finish_write (throws x, c, l) ls s = (throws x, c, record s { levels = l ∷ ls })
  finish_write (fault, c, l) ls s = (fault, c, record s { levels = l ∷ ls })
  finish_write (ok status_ok, c, l) ls s = (ok none, c, record s { levels = l ∷ ls })
  finish_write (ok (status_error e), c, l) ls s = (ok (some e), c, record s { levels = l ∷ ls })

  -- `level0Manager->createTable(entries)`; of no levels the code reads past the vector
  unfoldable pub write_level0 :
      Env → Context → Storage Reader → Iterator → Outcome (Option Error) × Context × Storage Reader
  unfolding finish_write
  write_level0 env c s it = elim s.levels [
    | [] ↦ (fault, c, s)
    | l ∷ ls ↦ finish_write (create_table F env c l it) ls s
  ]

  unfoldable pub after_init :
      Env
      → Context
      → Iterator
      → Outcome (Option Error) × Storage Reader
      → Outcome (Option Error) × Context × Storage Reader
  after_init env c it (throws x, s) = (throws x, c, s)
  after_init env c it (fault, s) = (fault, c, s)
  after_init env c it (ok _, s) = write_level0 env c s it

  -- `write(entries, level)`: the level asked for is not looked at, and neither is what `initLevels`
  -- returns
  unfoldable pub write :
      Env → Context → Storage Reader → Iterator → Outcome (Option Error) × Context × Storage Reader
  unfolding write_level0 init_levels after_init
  write env c s it =
      if length s.levels == 0
      then after_init env c it (init_levels env c.disk s)
      else write_level0 env c s it

  -- the loop of `get`
  unfoldable pub get_loop : Disk → Bytes → List (Level Reader) → Outcome (Option Entry)
  get_loop d k [] = ok none
  get_loop d k (l ∷ ls) =
      let rest = get_loop d k ls in
      get_key F d l k >>= λ o. elim o [
        | none ↦ rest
        | some e ↦ ok (if e.tombstone then none else some e)
      ]

  unfoldable pub get : Disk → Storage Reader → Bytes → Outcome (Option Entry)
  unfolding get_loop
  get d s k = get_loop d k s.levels

  -- the loop of `compact`: `rounds` levels from the front of `ls`, after `done`
  unfoldable pub compact_loop :
      ℕ → List (Level Reader) → List (Level Reader) → Outcome (List (Level Reader))
  unfolding compact_into
  compact_loop zero done ls = ok (done ++ ls)
  compact_loop (suc rounds) done (a ∷ b ∷ ls) =
      let (_, a', b') = compact_into F a b in compact_loop rounds (done ++ a' ∷ []) (b' ∷ ls)
  compact_loop (suc rounds) done ls = fault

  unfoldable pub compact : Storage Reader → Outcome (Option Error) × Storage Reader
  unfolding compact_loop
  compact s =
      if length s.levels == 0 then (ok none, s) else elim (compact_loop s.max_level [] s.levels) [
        | throws x ↦ (throws x, s)
        | fault ↦ (fault, s)
        | ok ls ↦ (ok none, record s { levels = ls })
      ]
