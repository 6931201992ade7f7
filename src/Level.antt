-- ===== src/Level.antt =====
-- core/level_manager/level_manager_impl.cpp: the tables of one level, newest first.
pub mod Lookup
pub mod Write
use tiny_kv.Common.{
  ℕ, zero, suc, ◌+◌, ◌-◌, ◌*◌, ◌/◌, ◌%◌, ◌^◌, ◌≤◌, ◌<◌, Ordering, compare, ◌≡◌, refl, sym, ap, ◌∙◌,
  ◌≢◌, ◌↔◌, ◌⊎◌, inl, inr, Bool, true, false, not, ◌&&◌, ◌||◌, Option, none, some, List, [], ◌∷◌,
  ◌++◌, append_assoc, append-nil, map, foldl, subst, arith, String, ltb, leb, ◌==◌, if◌then◌else◌,
  ltb→lt, lt→ltb, le→ltb, ltb→le, tests, Bool-cases, Option-cases, Bytes, codes, length, get_elem?,
  take, drop, All, length-append, length-take, length-drop, take-append, drop-append, take_all,
  All-append, All-map, get_elem?-append,
}
use tiny_kv.Common.Outcome.{Outcome, ok, throws, fault, ◌>>=◌, no_directory}
use tiny_kv.Common.Order.{compare_bytes, key_lt, key_le, key_eq, KeyLt, key_eq_self}
use tiny_kv.Types.{Entry, Error, IsSorted, find}
use Prim.Native.Nat.{bit_xor}
use tiny_kv.Context.{Env, Context, next_file_number, DirEntry}
use tiny_kv.Table.{TableFormat}
use tiny_kv.Disk.{Disk}
use tiny_kv.Common.Decimal.{to_string}
use tiny_kv.Common.Words.{u64_mod}
use tiny_kv.Iterator.{Iterator}

pub data Status : Type 0 where
  status_ok : Status
  status_error : Error → Status

pub record Level (R : Type 0) : Type 0 where
  pub level_num : ℕ
  pub directory : Bytes
  pub readers : List R

-- `(ns << 16) ^ counter.fetch_add(1)`, in 64 bits
unfoldable pub generate_file_name : Env → Context → Bytes × Context
generate_file_name env c = (
  codes "table-" ++ to_string (bit_xor (env.ns c.name_counter * 2 ^ 16 % u64_mod) c.name_counter),
  record c { name_counter = (c.name_counter + 1) % u64_mod },
)

-- `_getTimeNow`
unfoldable pub time_now : Env → Context → ℕ
time_now env c = env.ms c.name_counter % u64_mod

module _ (F : TableFormat) where
  open F use {Reader}

  unfoldable pub new_level : ℕ → Bytes → Level Reader
  new_level n directory = record { level_num = n; directory = directory; readers = [] }

  -- the loop of `getKey`
  unfoldable pub get_key_loop : Disk → Bytes → List Reader → Outcome (Option Entry)
  get_key_loop d k [] = ok none
  get_key_loop d k (r ∷ rs) =
      let rest = get_key_loop d k rs in
      F.within_range r k >>= λ inside.
      if not inside
      then rest
      else (F.get d r k >>= λ o. elim o [
        | none ↦ rest
        | some e ↦ ok (if e.tombstone then none else some e)
      ])

  unfoldable pub get_key : Disk → Level Reader → Bytes → Outcome (Option Entry)
  unfolding get_key_loop
  get_key d l k = get_key_loop d k l.readers

  -- `m_tableReaders.insert(begin, …)`, if `writeTable` returned
  unfoldable pub insert_front :
      Outcome Reader × Disk → Context → Level Reader → Outcome Status × Context × Level Reader
  insert_front (ok r, d) c l =
      (ok status_ok, record c { disk = d }, record l { readers = r ∷ l.readers })
  insert_front (throws x, d) c l = (throws x, record c { disk = d }, l)
  insert_front (fault, d) c l = (fault, record c { disk = d }, l)

  unfoldable pub create_table :
      Env → Context → Level Reader → Iterator → Outcome Status × Context × Level Reader
  unfolding generate_file_name next_file_number time_now insert_front
  create_table env c l it =
      let (name, c1) = generate_file_name env c in
      let timestamp = time_now env c in
      let (file_num, c2) = next_file_number c1 in
      let full_path = l.directory ++ codes "/" ++ name in
      insert_front (F.write_table c2.disk full_path it timestamp file_num) c2 l

  -- the loop of `initNew` over the directory's entries, in the order in which they are listed
  unfoldable pub open_tables : Disk → Bytes → List DirEntry → List Reader → Outcome (List Reader)
  open_tables d directory [] readers = ok readers
  open_tables d directory (e ∷ es) readers = elim e.is_regular [
    | false ↦ open_tables d directory es readers
    | true ↦ elim (F.open_table d (directory ++ codes "/" ++ e.name)) [
      | throws x ↦ throws x
      | fault ↦ fault
      | ok r ↦ open_tables d directory es (readers ++ r ∷ [])
    ]
  ]

  unfoldable pub init_new : Env → Disk → Level Reader → Outcome (Level Reader)
  unfolding open_tables
  init_new env d l = elim (env.level_listing l.level_num) [
    | none ↦ throws no_directory
    | some es ↦
        open_tables d l.directory es l.readers >>= λ readers. ok (record l { readers = readers })
  ]

  -- `compactInto(other)`: both levels stay as they are
  unfoldable pub compact_into : Level Reader → Level Reader → Status × Level Reader × Level Reader
  compact_into l other = (status_ok, l, other)
