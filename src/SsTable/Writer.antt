-- ===== src/SsTable/Writer.antt =====
-- core/sstable_manager/sstable_writer.cpp: entries to the bytes of a table file.
use tiny_kv.Common.{ℕ, Bool, true, false, List, [], ◌∷◌, ◌++◌, if◌then◌else◌, Bytes, length, take}
use tiny_kv.Types.{Entry}
use tiny_kv.Disk.{store, Disk}
use tiny_kv.SsTable.{entry_at, last_entry, Outcome, Metadata, sort}
use tiny_kv.Common.Words.{be32, le64, to_u32}
use tiny_kv.Common.Outcome.{◌>>=◌, throws, ok, empty_table, create_failed}

-- <keyLen><key><valLen><val><tombstone>
unfoldable pub serialize_entry : Entry → Bytes
serialize_entry e =
    be32 (to_u32 (length e.key))
    ++ (e.key ++ (be32 (to_u32 (length e.val)) ++ (e.val ++ (if e.tombstone then 1 else 0) ∷ [])))

-- the loop over the sorted entries
unfoldable pub serialize_entries : List Entry → Bytes
unfolding serialize_entry
serialize_entries [] = []
serialize_entries (e ∷ es) = serialize_entry e ++ serialize_entries es

-- `writeData`: the entries, then the two numbers as the host holds them
unfoldable pub table_bytes : List Entry → ℕ → ℕ → Bytes
unfolding serialize_entries
table_bytes es timestamp file_num = serialize_entries es ++ (le64 timestamp ++ le64 file_num)

-- Only the opening is checked: a device that refuses bytes leaves a shorter file, and `true`.
unfoldable pub write_binary_to_file : Disk → Bytes → Bytes → Bool × Disk
unfolding store
write_binary_to_file d path bytes =
    if d.can_create path then (true, store d path (take (d.room path) bytes)) else (false, d)

-- the metadata of sorted entries
unfoldable pub metadata_of : List Entry → ℕ → ℕ → Outcome Metadata
unfolding entry_at last_entry
metadata_of es timestamp file_num = entry_at es 0 >>= λ first. last_entry es >>= λ last.
    ok (record {
      file_number = file_num;
      timestamp = timestamp;
      min_key = first.key;
      max_key = last.key;
    })

-- `entries` is sorted in place, so the caller's vector comes back too
unfoldable pub write : Disk → Bytes → List Entry → ℕ → ℕ → Outcome (Metadata × List Entry × Disk)
unfolding write_binary_to_file
write d path [] timestamp file_num = throws empty_table
write d path (e ∷ es) timestamp file_num =
    let sorted = sort (e ∷ es) in
    let written = write_binary_to_file d path (table_bytes sorted timestamp file_num) in
    if written.0
    then (metadata_of sorted timestamp file_num >>= λ m. ok (m, sorted, written.1))
    else throws create_failed
