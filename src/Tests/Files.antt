-- ===== src/Tests/Files.antt =====
-- Tables, log files and sorted lists with a few entries.
use tiny_kv.Tests.{disk, apple, banana, cherry, fruit}
use tiny_kv.Common.{
  ℕ, zero, suc, ◌+◌, ◌-◌, ◌*◌, ◌/◌, ◌%◌, ◌^◌, ◌≤◌, ◌<◌, Ordering, compare, ◌≡◌, refl, sym, ap, ◌∙◌,
  ◌≢◌, ◌↔◌, ◌⊎◌, inl, inr, Bool, true, false, not, ◌&&◌, ◌||◌, Option, none, some, List, [], ◌∷◌,
  ◌++◌, append_assoc, append-nil, map, foldl, subst, arith, String, ltb, leb, ◌==◌, if◌then◌else◌,
  ltb→lt, lt→ltb, le→ltb, ltb→le, tests, Bool-cases, Option-cases, Bytes, codes, length, get_elem?,
  take, drop, All, length-append, length-take, length-drop, take-append, drop-append, take_all,
  All-append, All-map, get_elem?-append,
}
use tiny_kv.Common.Outcome.{ok}
use tiny_kv.Common.Order.{compare_bytes}
use tiny_kv.Types.{IsSorted, find, Error}
use tiny_kv.SsTable.Iter as TableIter
use tiny_kv.SsTable.Writer
use tiny_kv.SsTable.Reader
use tiny_kv.SsTable
use tiny_kv.InMemory
use tiny_kv.Disk.{store}
use tiny_kv.Common.Outcome.{throws, create_failed}
use tiny_kv.Disk.{Disk}
use tiny_kv.Wal.{
  Wal, no_fault, payload_fails, append, get_entries, replayed, out_of_fuel, wal_record, read_round,
}
use tiny_kv.SsTable.{SsTable, Metadata}
use tiny_kv.Wal.RoundTrip.{log_bytes, Fits, logged, get_entries-Holds, Holds, get_entries-append}
use tiny_kv.SsTable.RoundTrip.{FitsWord, metadata, read-write}
use tiny_kv.Wal.Torn.{get_entries_ends, get_entries-append_torn}
use tiny_kv.SsTable.Search.{get-find}
use tiny_kv.SsTable.Range.{within_range-find}
use tiny_kv.SsTable.Iter.{seek-find}
use tiny_kv.SsTable.Writer.{table_bytes, serialize_entries, serialize_entry}
use tiny_kv.SsTable.Reader.{deserialize_entry}
use tiny_kv.Iterator.Collect.{materialize, materialize-contents}
use tiny_kv.SkipList.{SkipList}
use tiny_kv.Iterator.{over_table, contents}
use tiny_kv.InMemory.Laws.{write_table_lem}

abbrev pub log : Wal
log = record {
  id = 0;
  base_path = codes "./wal";
  fname = codes "wal-0";
  full_path = codes "./wal/wal-0";
  file = some (log_bytes (apple ∷ []));
}

pub log-Holds : Holds log (apple ∷ []) []
unfolding log_bytes read_round wal_record tiny_kv.Common.Words.le32
log-Holds = (refl, (record { key_fits = omega arith; val_fits = omega arith }, tt), refl)

pub cherry-Fits : Fits cherry
cherry-Fits = record { key_fits = omega arith; val_fits = omega arith }

cherry-FitsWord : FitsWord cherry
cherry-FitsWord = record { key_fits = omega arith; val_fits = omega arith }

get_entries-Holds_example : get_entries log ≡ replayed (map logged (apple ∷ []))
get_entries-Holds_example = get_entries-Holds log (apple ∷ []) [] log-Holds

get_entries-append_example :
    ((append no_fault cherry log).0 ≡ ok none)
    × Holds (append no_fault cherry log).1 (apple ∷ cherry ∷ []) []
    × (get_entries (append no_fault cherry log).1
        ≡ replayed (map logged (apple ∷ []) ++ logged cherry ∷ []))
get_entries-append_example = get_entries-append log (apple ∷ []) cherry log-Holds cherry-Fits

cherry_record : 6 < length (wal_record cherry)
unfolding wal_record tiny_kv.Common.Words.le32
cherry_record = omega arith

get_entries-append_torn_example :
    ((err : Error) × ((append (payload_fails 6) cherry log).0 ≡ ok (some err)))
    × Holds (append (payload_fails 6) cherry log).1 (apple ∷ []) (take 6 (wal_record cherry))
    × (get_entries (append (payload_fails 6) cherry log).1 ≡ get_entries log)
get_entries-append_torn_example =
    get_entries-append_torn (payload_fails 6) log (apple ∷ []) cherry 6 refl log-Holds cherry-Fits
      cherry_record

get_entries_ends_example : get_entries log ≢ out_of_fuel
get_entries_ends_example = get_entries_ends log

pub fruit-IsSorted : IsSorted fruit
unfolding compare_bytes
fruit-IsSorted = ((refl, (refl, tt)), ((refl, tt), (tt, tt)))

abbrev table : SsTable
table = record { meta = metadata apple (banana ∷ cherry ∷ []) 7 1; entries = fruit }

get-find_example : SsTable.get table (codes "b") ≡ ok (find (codes "b") fruit)
get-find_example = get-find table (codes "b") fruit-IsSorted (omega arith)

within_range-find_example :
    (b : Bool) × (SsTable.within_range table (codes "d") ≡ ok b)
    × (b ≡ false → find (codes "d") fruit ≡ none)
within_range-find_example = within_range-find table (codes "d") fruit-IsSorted (λ e. cc)

abbrev pub position : TableIter.Iter
position = record { index = 2; entries = fruit }

seek-find_example :
    (j : TableIter.Iter) × (TableIter.seek position (codes "b") ≡ ok j)
    × (j.entries ≡ fruit)
    × (TableIter.current j ≡ find (codes "b") fruit)
    × (find (codes "b") fruit ≡ none → TableIter.valid j ≡ false)
seek-find_example = seek-find position (codes "b") fruit-IsSorted (omega arith)

pub fruit-FitsWord : All FitsWord fruit
fruit-FitsWord = (
  record { key_fits = omega arith; val_fits = omega arith },
  (record { key_fits = omega arith; val_fits = omega arith }, (cherry-FitsWord, tt)),
)

fruit_bytes : length (table_bytes fruit 7 1) ≤ 1000
unfolding table_bytes serialize_entries serialize_entry tiny_kv.Common.Words.be32
    tiny_kv.Common.Words.le64
fruit_bytes = omega arith

read-write_example :
    (d : Disk) × (Writer.write disk (codes "t") fruit 7 1
      ≡ ok (metadata apple (banana ∷ cherry ∷ []) 7 1, fruit, d))
    × (Reader.read d (codes "t") ≡ ok table)
read-write_example =
    read-write disk (codes "t") apple (banana ∷ cherry ∷ []) 7 1 fruit-IsSorted fruit-FitsWord
      (omega arith) (omega arith) refl fruit_bytes

materialize-contents_example :
    materialize (over_table position) ≡ ok (contents (over_table position))
materialize-contents_example = materialize-contents (over_table position)

abbrev list : SkipList
list = record { entries = fruit }

pub position-contents : contents (over_table position) ≡ fruit
unfolding contents
position-contents = refl

write_table_lem_example : InMemory.write_table disk (codes "t") (over_table position) 7 1 ≡ (
    if disk.can_create (codes "t")
    then (ok table, store disk (codes "t") (take (disk.room (codes "t")) (table_bytes fruit 7 1)))
    else (throws create_failed, disk))
write_table_lem_example =
    write_table_lem disk (codes "t") (over_table position) 7 1 apple (banana ∷ cherry ∷ [])
      position-contents fruit-IsSorted
