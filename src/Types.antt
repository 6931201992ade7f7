-- ===== src/Types.antt =====
-- types/entry.h and types/error.h: the entry that every layer passes on, and the errors as values.
use tiny_kv.Common.{Bool, Option, none, some, List, [], ◌∷◌, if◌then◌else◌, Bytes, All}
use tiny_kv.Common.Order.{key_lt, key_eq, KeyLt}

-- `struct Entry`; `operator<` and `operator==` look at the key alone
pub record Entry : Type 0 where
  pub key : Bytes
  pub val : Bytes
  pub tombstone : Bool

unfoldable pub entry_lt : Entry → Entry → Bool
entry_lt a b = key_lt a.key b.key

unfoldable pub entry_eq : Entry → Entry → Bool
entry_eq a b = key_eq a.key b.key

-- The `Error` values that the sources build, one constructor for each message.
pub data Error : Type 0 where
  put_read_only put_flush_failed wal_failed : Error
  no_such_key del_read_only del_flush_failed del_failed : Error
  replay_flush_failed : Error
  wal_open wal_header wal_payload wal_flush wal_remove : Error
  no_base_directory no_level_directory : Error

-- Strictly ascending keys: no key occurs twice.
abbrev pub IsSorted : List Entry → Type 0
IsSorted [] = Unit
IsSorted (e ∷ es) = All (λ f. KeyLt e.key f.key) es × IsSorted es

-- The specification of every lookup: the first entry with the key.
unfoldable pub find : Bytes → List Entry → Option Entry
find k [] = none
find k (e ∷ es) = if key_eq e.key k then some e else find k es

-- An entry that a lookup may answer with: a tombstone counts as absent.
unfoldable pub live : Option Entry → Option Entry
live none = none
live (some e) = if e.tombstone then none else some e
