-- ===== src/SsTable/RoundTrip.antt =====
-- A table file read back: `SSTableReader::read` after `SSTableWriter::write`.
use tiny_kv.Common.{
  ℕ, zero, suc, ◌+◌, ◌-◌, ◌≤◌, ◌<◌, ◌≡◌, refl, sym, ap, ◌∙◌, true, List, [], ◌∷◌, ◌++◌,
  append_assoc, append-nil, arith, if◌then◌else◌, Bytes, length, All, length-append, take-append,
  drop-append, take_all,
}
use tiny_kv.Types.{Entry, IsSorted}
use tiny_kv.Common.Words.{
  u32_mod, le64, to_u32, be32, u64_mod, read_be32-be32, read_le64-le64, read_bytes-append,
}
use tiny_kv.SsTable.Reader.{deserialize_entry, deserialize_entries, read_trailer, read_data, read}
use tiny_kv.SsTable.Writer.{serialize_entry, serialize_entries, metadata_of, table_bytes, write}
use tiny_kv.Common.Outcome.{ok}
use tiny_kv.SsTable.{Metadata, new_table}
use tiny_kv.SsTable.Range.{last, get_elem?-last}
use tiny_kv.Disk.{Disk, store, files-store}
use tiny_kv.SsTable.Sort.{sort-sorted}
use tiny_kv.Common.Order.{key_eq_self}

-- lengths that the four-byte length fields hold
pub record FitsWord (e : Entry) : Type 0 where
  pub key_fits : length e.key < u32_mod
  pub val_fits : length e.val < u32_mod

to_u32_lt : (n : ℕ) → n < u32_mod → to_u32 n ≡ n
to_u32_lt n h = omega arith

-- One entry: what `_serializeEntry` writes, `_deserializeEntry` reads, and stops right behind it.
pub deserialize_entry-serialize_entry :
    (e : Entry) (rest : Bytes)
    → FitsWord e
    → deserialize_entry (serialize_entry e ++ rest) ≡ ok (e, rest)
unfolding deserialize_entry serialize_entry
deserialize_entry-serialize_entry e rest h =
    let flag : ℕ = if e.tombstone then 1 else 0 in
    simp (append_assoc, to_u32_lt (length e.key) h.key_fits, to_u32_lt (length e.val) h.val_fits)
      (ground (
        arith,
        read_be32-be32 (length e.key) (e.key ++ (be32 (length e.val) ++ (e.val ++ flag ∷ rest)))
            h.key_fits,
        read_bytes-append e.key (be32 (length e.val) ++ (e.val ++ flag ∷ rest)),
        read_be32-be32 (length e.val) (e.val ++ flag ∷ rest) h.val_fits,
        read_bytes-append e.val (flag ∷ rest),
      ))

serialize_entry-cons :
    (e : Entry) (s : Bytes) → (b : ℕ) × (t : Bytes) × (serialize_entry e ++ s ≡ b ∷ t)
unfolding serialize_entry be32
serialize_entry-cons e s = (_, _, refl)

deserialize_entries_step :
    (fuel : ℕ) (e : Entry) (s : Bytes) (acc : List Entry)
    → FitsWord e
    → deserialize_entries (suc fuel) (serialize_entry e ++ s) acc
      ≡ deserialize_entries fuel s (acc ++ e ∷ [])
unfolding deserialize_entries
deserialize_entries_step fuel e s acc h =
    let (b, t, cons) = serialize_entry-cons e s in
    ground (arith, cons, deserialize_entry-serialize_entry e s h)

pub deserialize_entries-serialize_entries :
    (fuel : ℕ) (es acc : List Entry)
    → All FitsWord es
    → length es < fuel
    → deserialize_entries fuel (serialize_entries es) acc ≡ ok (acc ++ es)
unfolding serialize_entries
deserialize_entries-serialize_entries zero es acc h f = absurd (omega arith)
deserialize_entries-serialize_entries (suc fuel) [] acc h f =
    unfold deserialize_entries in ap ok (sym (append-nil acc))
deserialize_entries-serialize_entries (suc fuel) (e ∷ es) acc h f =
    deserialize_entries_step fuel e (serialize_entries es) acc h.0
    ∙ deserialize_entries-serialize_entries fuel es (acc ++ e ∷ []) h.1 (omega arith)
    ∙ ap ok (append_assoc acc (e ∷ []) es)

serialize_entry-pos : (e : Entry) → 0 < length (serialize_entry e)
unfolding serialize_entry be32
serialize_entry-pos e = omega arith

length-serialize_entries : (es : List Entry) → length es ≤ length (serialize_entries es)
unfolding serialize_entries
length-serialize_entries [] = omega arith
length-serialize_entries (e ∷ es) = omega (
  arith,
  length-serialize_entries es,
  serialize_entry-pos e,
  length-append (serialize_entry e) (serialize_entries es),
)

length-le64 : (v : ℕ) → length (le64 v) ≡ 8
unfolding le64
length-le64 v = refl

abbrev pub metadata : Entry → List Entry → ℕ → ℕ → Metadata
metadata e es timestamp file_num = record {
  file_number = file_num;
  timestamp = timestamp;
  min_key = e.key;
  max_key = (last e es).key;
}

pub metadata_of-cons :
    (e : Entry) (es : List Entry) (timestamp file_num : ℕ)
    → metadata_of (e ∷ es) timestamp file_num ≡ ok (metadata e es timestamp file_num)
unfolding metadata_of
metadata_of-cons e es timestamp file_num = ground (arith, get_elem?-last e es)

read_trailer_lem :
    (timestamp file_num : ℕ)
    → timestamp < u64_mod
    → file_num < u64_mod
    → read_trailer (le64 timestamp ++ le64 file_num) ≡ ok (timestamp, file_num)
unfolding read_trailer
read_trailer_lem ts fn h k =
    ground (arith, read_le64-le64 ts (le64 fn) h, read_le64-le64 fn [] k, append-nil (le64 fn))

-- the numbers of the trailer, and the entries before it
read_data-parts :
    (body trailer : Bytes) (timestamp file_num : ℕ) (es : List Entry) (m : Metadata)
    → length trailer ≡ 16
    → read_trailer trailer ≡ ok (timestamp, file_num)
    → deserialize_entries (suc (length body)) body [] ≡ ok es
    → metadata_of es timestamp file_num ≡ ok m
    → read_data (body ++ trailer) ≡ ok (new_table m es)
unfolding read_data
read_data-parts body trailer ts fn es m len tr de me =
    let whole : length (body ++ trailer) ≡ length body + 16 =
      omega (arith, length-append body trailer) in
    let before : length (body ++ trailer) - 16 ≡ length body = omega (arith, whole) in
    rw before (rw (take-append, drop-append) (ground (arith, whole, tr, de, me)))

-- Reading the bytes of a table gives the table, with its metadata.
pub read_data-table_bytes :
    (e : Entry) (es : List Entry) (timestamp file_num : ℕ)
    → IsSorted (e ∷ es)
    → All FitsWord (e ∷ es)
    → timestamp < u64_mod
    → file_num < u64_mod
    → read_data (table_bytes (e ∷ es) timestamp file_num)
      ≡ ok (record { meta = metadata e es timestamp file_num; entries = e ∷ es })
unfolding table_bytes
read_data-table_bytes e es ts fn s f h k =
    read_data-parts (serialize_entries (e ∷ es)) (le64 ts ++ le64 fn) ts fn (e ∷ es)
      (metadata e es ts fn)
      (omega (arith, length-append (le64 ts) (le64 fn), length-le64 ts, length-le64 fn))
      (read_trailer_lem ts fn h k)
      (deserialize_entries-serialize_entries _ (e ∷ es) [] f
        (omega (arith, length-serialize_entries (e ∷ es))))
      (metadata_of-cons e es ts fn)
    ∙ new_table-sorted
  where
    new_table-sorted :
        ok (new_table (metadata e es ts fn) (e ∷ es))
        ≡ ok (record { meta = metadata e es ts fn; entries = e ∷ es })
    new_table-sorted = unfold new_table in rw (sort-sorted (e ∷ es) s)

-- `write` of entries in key order, one at least, with keys and values shorter than 2 ^ 32 bytes and
-- a timestamp and file number of 64 bits, on a device that lets the file be made and has room for
-- it, then `read` of the path: the same entries and metadata come back.
pub read-write :
    (d : Disk) (path : Bytes) (e : Entry) (es : List Entry) (timestamp file_num : ℕ)
    → IsSorted (e ∷ es)
    → All FitsWord (e ∷ es)
    → timestamp < u64_mod
    → file_num < u64_mod
    → d.can_create path ≡ true
    → length (table_bytes (e ∷ es) timestamp file_num) ≤ d.room path
    → (d' : Disk) × (write d path (e ∷ es) timestamp file_num
        ≡ ok (metadata e es timestamp file_num, e ∷ es, d'))
      × (read d' path ≡ ok (record { meta = metadata e es timestamp file_num; entries = e ∷ es }))
unfolding write read
read-write d path e es ts fn s f h k c r = (
  store d path (table_bytes (e ∷ es) ts fn),
  rw (sort-sorted (e ∷ es) s) (rw (take_all _ _ r) (ground (arith, metadata_of-cons e es ts fn))),
  ground (
    arith,
    files-store d path (table_bytes (e ∷ es) ts fn) path,
    key_eq_self path,
    read_data-table_bytes e es ts fn s f h k,
  ),
)
