-- ===== src/Wal.antt =====
-- core/wal/wal.cpp: the write-ahead log, one file of records that `append` extends and
-- `get_entries` replays.
pub mod RoundTrip
pub mod Torn
use tiny_kv.Common.{
  ℕ, zero, suc, ◌+◌, ◌-◌, ◌*◌, ◌/◌, ◌%◌, ◌^◌, ◌≤◌, ◌<◌, Ordering, compare, ◌≡◌, refl, sym, ap, ◌∙◌,
  ◌≢◌, ◌↔◌, ◌⊎◌, inl, inr, Bool, true, false, not, ◌&&◌, ◌||◌, Option, none, some, List, [], ◌∷◌,
  ◌++◌, append_assoc, append-nil, map, foldl, arith, ltb, leb, ◌==◌, if◌then◌else◌, ltb→lt, lt→ltb,
  le→ltb, ltb→le, tests, Bool-cases, Option-cases, Bytes, codes, length, get_elem?, take, drop, All,
  length-append, length-take, length-drop, take-append, drop-append, take_all, All-append, All-map,
  get_elem?-append,
}
use tiny_kv.Common.Order.{
  compare_bytes, key_lt, key_le, key_eq, KeyLt, compare_bytes_refl, compare_bytes-eq,
  compare_bytes_flip, lt-of_gt, gt-of_lt, lt_irrefl, lt_trans, Compare-cases, key_eq_self,
  eq-of_key_eq, key_eq_comm,
}
use tiny_kv.Common.Outcome.{filesystem_error, Outcome, ok, throws, fault, Exception, ◌>>=◌}
use tiny_kv.Common.Words.{to_u32, le32, read_le32, read_bytes}
use tiny_kv.Common.Decimal.{to_string}
use tiny_kv.Types.{Entry, Error, wal_open, wal_header, wal_payload, wal_flush, wal_remove}

-- `file` is what stands at `full_path`, `none` if no file does
pub record Wal : Type 0 where
  pub id : ℕ
  pub base_path : Bytes
  pub fname : Bytes
  pub full_path : Bytes
  pub file : Option Bytes

unfoldable pub build_file_name : ℕ → Bytes
build_file_name id = codes "wal-" ++ to_string id

-- the constructor, over whatever file the directory already holds
unfoldable pub new_wal : ℕ → Bytes → Option Bytes → Wal
unfolding build_file_name
new_wal id base_path file = record {
  id = id;
  base_path = base_path;
  fname = build_file_name id;
  full_path = base_path ++ codes "/" ++ build_file_name id;
  file = file;
}

-- `type`, `klen` and `vlen` as the host holds them, then the payloads
unfoldable pub wal_record : Entry → Bytes
wal_record e =
    let type = if e.tombstone then 1 else 0 in
    let klen = to_u32 (length e.key) in
    let vlen = if e.tombstone then 0 else to_u32 (length e.val) in
    (type ∷ le32 klen ++ le32 vlen)
    ++ (take klen e.key ++ (if e.tombstone then [] else take vlen e.val))

-- How the file behaves in one call: the stage at which it fails, with the number of bytes of the
-- record that reached the file by then. `directory_fails` is `create_directories` on `m_basePath`.
pub data AppendFault : Type 0 where
  no_fault directory_fails open_fails : AppendFault
  header_fails payload_fails flush_fails : ℕ → AppendFault

abbrev pub file_bytes : Option Bytes → Bytes
file_bytes none = []
file_bytes (some bs) = bs

unfoldable pub append : AppendFault → Entry → Wal → Outcome (Option Error) × Wal
append directory_fails e w = (throws filesystem_error, w)
append open_fails e w = (ok (some wal_open), w)
append (header_fails n) e w =
    (ok (some wal_header), record w { file = some (file_bytes w.file ++ take n (wal_record e)) })
append (payload_fails n) e w =
    (ok (some wal_payload), record w { file = some (file_bytes w.file ++ take n (wal_record e)) })
append (flush_fails n) e w =
    (ok (some wal_flush), record w { file = some (file_bytes w.file ++ take n (wal_record e)) })
append no_fault e w = (ok none, record w { file = some (file_bytes w.file ++ wal_record e) })

-- `fails` is a `filesystem_error`, which leaves the file
unfoldable pub remove : Bool → Wal → Option Error × Wal
remove fails w = if fails then (some wal_remove, w) else (none, record w { file = none })

-- How the reading loop ends. `out_of_fuel` is no behaviour of the code: `read_entries` never ends so.
pub data Replay : Type 0 where
  replayed : List Entry → Replay
  corrupt out_of_fuel : Replay

-- what one round of the loop finds
pub data Round : Type 0 where
  entry : Entry → Bytes → Round
  stop bad : Round

abbrev pub max_len : ℕ
max_len = 2 ^ 30

unfoldable pub read_payload : ℕ → ℕ → ℕ → Bytes → Round
read_payload type klen vlen s = elim (read_bytes klen s) [
  | none ↦ stop
  | some (key, s') ↦
      if type == 1
      then entry (record { key = key; val = []; tombstone = true }) s'
      else elim (read_bytes vlen s') [
        | none ↦ stop
        | some (val, s'') ↦ entry (record { key = key; val = val; tombstone = false }) s''
      ]
]

unfoldable pub read_round : Bytes → Round
read_round [] = stop
read_round (type ∷ s) = elim (read_le32 s) [
  | none ↦ stop
  | some (klen, s') ↦ elim (read_le32 s') [
    | none ↦ stop
    | some (vlen, s'') ↦
        if ltb max_len klen || ltb max_len vlen then bad else read_payload type klen vlen s''
  ]
]

-- the `while (true)` loop, over the bytes not yet read
unfoldable pub read_entries : ℕ → Bytes → List Entry → Replay
read_entries zero s entries = out_of_fuel
read_entries (suc fuel) s entries = elim (read_round s) [
  | stop ↦ replayed entries
  | bad ↦ corrupt
  | entry e rest ↦ read_entries fuel rest (entries ++ e ∷ [])
]

-- every record has a byte at least, so one round more than bytes is enough
unfoldable pub get_entries : Wal → Replay
get_entries w = elim w.file [ none ↦ replayed [] | some bs ↦ read_entries (suc (length bs)) bs [] ]
