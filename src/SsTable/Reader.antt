-- ===== src/SsTable/Reader.antt =====
-- core/sstable_manager/sstable_reader.cpp: the bytes of a table file back to a table.
use tiny_kv.Common.{
  ℕ, zero, suc, ◌-◌, not, none, some, List, [], ◌∷◌, ◌++◌, ltb, ◌==◌, if◌then◌else◌, Bytes, length,
  take, drop,
}
use tiny_kv.Common.Outcome.{
  Exception, Outcome, bad_key_length, fault, throws, ◌>>=◌, ok, bad_key, empty_file, read_failed,
  bad_val_length, bad_val, bad_tombstone,
}
use tiny_kv.Types.{Entry}
use tiny_kv.SsTable.Writer.{metadata_of}
use tiny_kv.Disk.{Disk}
use tiny_kv.Common.Words.{read_bytes, read_be32, read_le64}
use tiny_kv.SsTable.{new_table, SsTable}

-- `read_bytes` after a length check that throws
unfoldable pub checked : ℕ → Bytes → Exception → Outcome (Bytes × Bytes)
checked n s x = elim (read_bytes n s) [ none ↦ throws x | some r ↦ ok r ]

unfoldable pub checked_length : Bytes → Exception → Outcome (ℕ × Bytes)
checked_length s x = elim (read_be32 s) [ none ↦ throws x | some r ↦ ok r ]

-- The entry at the front of the buffer, and what follows it.
unfoldable pub deserialize_entry : Bytes → Outcome (Entry × Bytes)
unfolding checked checked_length
deserialize_entry s = checked_length s bad_key_length >>= λ (key_len, s1).
    checked key_len s1 bad_key >>= λ (key, s2).
    checked_length s2 bad_val_length >>= λ (val_len, s3).
    checked val_len s3 bad_val >>= λ (val, s4). elim s4 [
      | [] ↦ throws bad_tombstone
      | b ∷ rest ↦ ok (record { key = key; val = val; tombstone = not (b == 0) }, rest)
    ]

-- `while (offset < serializedEntriesSize)`, over the bytes not yet read
unfoldable pub deserialize_entries : ℕ → Bytes → List Entry → Outcome (List Entry)
deserialize_entries zero s entries = fault
deserialize_entries (suc fuel) [] entries = ok entries
deserialize_entries (suc fuel) (b ∷ s) entries = elim (deserialize_entry (b ∷ s)) [
  | throws x ↦ throws x
  | fault ↦ fault
  | ok r ↦ deserialize_entries fuel r.1 (entries ++ r.0 ∷ [])
]

-- the two numbers at the end of the file
unfoldable pub read_trailer : Bytes → Outcome (ℕ × ℕ)
read_trailer s = elim (read_le64 s) [
  | none ↦ fault
  | some (timestamp, s') ↦ elim (read_le64 s') [
    | none ↦ fault
    | some (file_num, rest) ↦ ok (timestamp, file_num)
  ]
]

-- Of a file with fewer than sixteen bytes the code computes an address before its buffer.
unfoldable pub read_data : Bytes → Outcome SsTable
unfolding read_trailer deserialize_entries metadata_of new_table
read_data bs =
    let n = length bs - 16 in
    if length bs == 0
    then throws empty_file
    else if ltb (length bs) 16
    then fault
    else (read_trailer (drop n bs) >>= λ (timestamp, file_num).
        deserialize_entries (suc n) (take n bs) [] >>= λ entries.
        metadata_of entries timestamp file_num >>= λ m. ok (new_table m entries))

unfoldable pub read : Disk → Bytes → Outcome SsTable
unfolding read_data
read d path = elim (d.files path) [ none ↦ throws read_failed | some bs ↦ read_data bs ]
