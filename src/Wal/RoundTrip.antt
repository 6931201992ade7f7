-- ===== src/Wal/RoundTrip.antt =====
-- What `get_entries` returns on the files that `append` writes.
use tiny_kv.Common.{
  ℕ, zero, suc, ◌≤◌, ◌<◌, ◌≡◌, refl, sym, ap, ◌∙◌, inl, inr, false, none, List, [], ◌∷◌, ◌++◌,
  append_assoc, append-nil, map, arith, if◌then◌else◌, Bool-cases, Option-cases, Bytes, length,
  take, All, length-append, take_all, All-append,
}
use tiny_kv.Common.Outcome.{ok}
use tiny_kv.Common.Words.{to_u32, le32, read_le32-le32, read_bytes-append}
use tiny_kv.Types.{Entry}
use tiny_kv.Wal.{
  Wal, wal_record, append, no_fault, file_bytes, remove, replayed, entry, stop, max_len,
  read_payload, read_round, read_entries, get_entries,
}

-- what a record keeps of an entry: the value of a tombstone is not written
unfoldable pub logged : Entry → Entry
logged e = if e.tombstone then record e { val = [] } else e

-- the bound that the reader checks
pub record Fits (e : Entry) : Type 0 where
  pub key_fits : length e.key ≤ max_len
  pub val_fits : length e.val ≤ max_len

-- the bytes of a file that holds the records of `es`
unfoldable pub log_bytes : List Entry → Bytes
log_bytes [] = []
log_bytes (e ∷ es) = wal_record e ++ log_bytes es

take-length : (bs : Bytes) → take (length bs) bs ≡ bs
take-length bs = take_all (length bs) bs (omega arith)

-- a record of `e` as a stream: type, lengths, key, value
abbrev pub written_val : Entry → Bytes
written_val e = if e.tombstone then [] else e.val

abbrev pub type_byte : Entry → ℕ
type_byte e = if e.tombstone then 1 else 0

to_u32_fits : (n : ℕ) → n ≤ max_len → to_u32 n ≡ n
to_u32_fits n h = omega arith

pub wal_record_lem :
    (e : Entry)
    → Fits e
    → wal_record e
      ≡ type_byte e
        ∷ (le32 (length e.key) ++ (le32 (length (written_val e)) ++ (e.key ++ written_val e)))
unfolding wal_record
wal_record_lem e h = elim (Bool-cases e.tombstone) [
  | inl dead ↦ simp (dead, to_u32_fits _ h.key_fits, take-length, append_assoc)
  | inr alive ↦
      simp (alive, to_u32_fits _ h.key_fits, to_u32_fits _ h.val_fits, take-length, append_assoc)
]

read_payload-written :
    (e : Entry) (rest : Bytes)
    → read_payload
        (type_byte e)
        (length e.key)
        (length (written_val e))
        (e.key ++ (written_val e ++ rest))
      ≡ entry (logged e) rest
unfolding read_payload logged
read_payload-written e rest =
    ground (
      arith,
      read_bytes-append e.key (written_val e ++ rest),
      read_bytes-append (written_val e) rest,
    )

pub written_val-le : (e : Entry) → Fits e → length (written_val e) ≤ max_len
written_val-le e h = ground arith

read_round_head :
    (type klen vlen : ℕ) (s : Bytes)
    → klen ≤ max_len
    → vlen ≤ max_len
    → read_round (type ∷ (le32 klen ++ (le32 vlen ++ s))) ≡ read_payload type klen vlen s
unfolding read_round
read_round_head type klen vlen s hk hv =
    ground (
      arith,
      read_le32-le32 klen (le32 vlen ++ s) (omega arith),
      read_le32-le32 vlen s (omega arith),
    )

pub read_round-wal_record :
    (e : Entry) (rest : Bytes) → Fits e → read_round (wal_record e ++ rest) ≡ entry (logged e) rest
read_round-wal_record e rest h =
    simp (wal_record_lem e h, append_assoc)
      (read_round_head (type_byte e) _ _ _ h.key_fits (written_val-le e h)
        ∙ read_payload-written e rest)

pub read_entries-log_bytes :
    (fuel : ℕ) (es acc : List Entry) (tail : Bytes)
    → All Fits es
    → read_round tail ≡ stop
    → length es < fuel
    → read_entries fuel (log_bytes es ++ tail) acc ≡ replayed (acc ++ map logged es)
unfolding read_entries log_bytes
read_entries-log_bytes zero es acc tail h t f = absurd (omega arith)
read_entries-log_bytes (suc fuel) [] acc tail h t f = ground (arith, t, append-nil acc)
read_entries-log_bytes (suc fuel) (e ∷ es) acc tail h t f = ground (
  arith,
  append_assoc (wal_record e) (log_bytes es) tail,
  read_round-wal_record e (log_bytes es ++ tail) h.0,
  read_entries-log_bytes fuel es (acc ++ logged e ∷ []) tail h.1 t (omega arith),
  append_assoc acc (logged e ∷ []) (map logged es),
)

wal_record-pos : (e : Entry) → 0 < length (wal_record e)
unfolding wal_record
wal_record-pos e = omega arith

pub length-log_bytes : (es : List Entry) → length es ≤ length (log_bytes es)
unfolding log_bytes
length-log_bytes [] = omega arith
length-log_bytes (e ∷ es) =
    omega
      (arith, length-log_bytes es, wal_record-pos e, length-append (wal_record e) (log_bytes es))

pub log_bytes-append :
    (es : List Entry) (e : Entry) → log_bytes (es ++ e ∷ []) ≡ log_bytes es ++ wal_record e
unfolding log_bytes
log_bytes-append [] e = append-nil (wal_record e)
log_bytes-append (f ∷ es) e =
    rw (log_bytes-append es e) (sym (append_assoc (wal_record f) (log_bytes es) (wal_record e)))

pub map-snoc :
    (f : Entry → Entry) (es : List Entry) (e : Entry) → map f (es ++ e ∷ []) ≡ map f es ++ f e ∷ []
map-snoc f [] e = refl
map-snoc f (x ∷ es) e = rw (map-snoc f es e)

-- The file holds the records of `es`, and then bytes that make no whole record.
abbrev pub Holds : Wal → List Entry → Bytes → Type 0
Holds w es tail =
    (file_bytes w.file ≡ log_bytes es ++ tail) × All Fits es × (read_round tail ≡ stop)

read_round-nil : read_round [] ≡ stop
unfolding read_round
read_round-nil = refl

-- a log with no bytes holds no record
pub no_bytes-Holds : (w : Wal) → file_bytes w.file ≡ [] → Holds w [] []
unfolding log_bytes
no_bytes-Holds w h = (h, tt, read_round-nil)

get_entries_file :
    (bs : Bytes) (es : List Entry) (tail : Bytes)
    → bs ≡ log_bytes es ++ tail
    → All Fits es
    → read_round tail ≡ stop
    → read_entries (suc (length bs)) bs [] ≡ replayed (map logged es)
get_entries_file bs es tail e h t = rw e (
    read_entries-log_bytes (suc (length (log_bytes es ++ tail))) es [] tail h t
      (omega (arith, length-append (log_bytes es) tail, length-log_bytes es)))

log_bytes-nil : (es : List Entry) (tail : Bytes) → [] ≡ log_bytes es ++ tail → es ≡ []
unfolding log_bytes wal_record
log_bytes-nil [] tail h = refl
log_bytes-nil (e ∷ es) tail h = cc

-- Replaying a log of whole records, and behind them bytes that stop the reader, returns the
-- entries of the records, in order, and nothing of the rest.
pub get_entries-Holds :
    (w : Wal) (es : List Entry) (tail : Bytes)
    → Holds w es tail
    → get_entries w ≡ replayed (map logged es)
unfolding get_entries
get_entries-Holds w es tail (e, h, t) = elim (Option-cases w.file) [
  | inl missing ↦ ground (arith, log_bytes-nil es tail)
  | inr (bs, there) ↦ ground (arith, get_entries_file bs es tail)
]

-- On a log of whole records, a successful append of an entry whose lengths are within the reader's
-- bound adds the entry, as the log keeps it, to what a replay returns.
pub get_entries-append :
    (w : Wal) (es : List Entry) (e : Entry)
    → Holds w es []
    → Fits e
    → ((append no_fault e w).0 ≡ ok none)
      × Holds (append no_fault e w).1 (es ++ e ∷ []) []
      × (get_entries (append no_fault e w).1 ≡ replayed (map logged es ++ logged e ∷ []))
unfolding append
get_entries-append w es e (c, h, t) f =
    let held : Holds (append no_fault e w).1 (es ++ e ∷ []) [] =
      (c_after, All-append Fits es (e ∷ []) h (f, tt), t) in
    (refl, held, get_entries-Holds _ (es ++ e ∷ []) [] held ∙ ap replayed (map-snoc logged es e))
  where
    c_after : file_bytes w.file ++ wal_record e ≡ log_bytes (es ++ e ∷ []) ++ []
    c_after = simp (c, append-nil, log_bytes-append)

-- After `remove` nothing is replayed.
pub get_entries-remove : (w : Wal) → get_entries (remove false w).1 ≡ replayed []
unfolding get_entries remove
get_entries-remove w = refl
