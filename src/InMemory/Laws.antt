-- ===== src/InMemory/Laws.antt =====
-- The in-memory format keeps what `TableLaws` asks for.
use tiny_kv.Common.{
  ℕ, ◌<◌, ◌≡◌, refl, sym, ◌∙◌, ◌≢◌, Bool, false, Option, none, List, [], ◌∷◌, arith, if◌then◌else◌,
  Bytes, take, subst, length,
}
use tiny_kv.Common.Outcome.{ok, throws, fault, empty_table, create_failed}
use tiny_kv.Types.{Entry, IsSorted, find}
use tiny_kv.SsTable
use tiny_kv.SsTable.Writer
use tiny_kv.SsTable.{SsTable, new_table}
use tiny_kv.Disk.{Disk, store}
use tiny_kv.InMemory.{write_table, Iterator, in_memory}
use tiny_kv.Table.{TableLaws}
use tiny_kv.SsTable.Search.{get-find}
use tiny_kv.SsTable.Range.{within_range-find}
use tiny_kv.Table.Verdict.{verdict}
use tiny_kv.Iterator.{contents}
use tiny_kv.SsTable.RoundTrip.{metadata, metadata_of-cons}
use tiny_kv.Common.Words.{u64_mod, int_limit}
use tiny_kv.Iterator.Collect.{materialize-contents}
use tiny_kv.SsTable.Writer.{table_bytes}
use tiny_kv.SsTable.Sort.{sort-sorted}

pub record Keeps (r : SsTable) (es : List Entry) : Type 0 where
  pub same : r.entries ≡ es
  pub sorted : IsSorted es
  pub full : es ≢ []
  pub short : length es < int_limit

pub within_range-Keeps :
    (d : Disk) (r : SsTable) (es : List Entry) (k : Bytes)
    → Keeps r es
    → (b : Bool) × (SsTable.within_range r k ≡ ok b) × (b ≡ false → find k es ≡ none)
within_range-Keeps d r es k h =
    rw (← h.same)
      (within_range-find r k (subst IsSorted (sym h.same) h.sorted) (λ e. h.full (sym h.same ∙ e)))

pub get-Keeps :
    (d : Disk) (r : SsTable) (es : List Entry) (k : Bytes)
    → Keeps r es
    → (o : Option Entry) × (SsTable.get r k ≡ ok o) × (verdict o ≡ verdict (find k es))
get-Keeps d r es k h = (
  find k es,
  rw (← h.same) (
      get-find r k (subst IsSorted (sym h.same) h.sorted)
        (subst (λ (t : List Entry). length t < int_limit) (sym h.same) h.short)),
  refl,
)

-- A write of an iterator over entries in key order, one at least: if the file can be created, it
-- returns their table and stores as much of its bytes as the device has room for; if not, it throws
-- and leaves the disk.
pub write_table_lem :
    (d : Disk) (path : Bytes) (it : Iterator) (timestamp file_num : ℕ) (e : Entry) (es : List Entry)
    → contents it ≡ e ∷ es
    → IsSorted (e ∷ es)
    → write_table d path it timestamp file_num ≡ (
        if d.can_create path
        then (
          ok (record { meta = metadata e es timestamp file_num; entries = e ∷ es }),
          store d path (take (d.room path) (table_bytes (e ∷ es) timestamp file_num)),
        )
        else (throws create_failed, d))
unfolding write_table Writer.write new_table
write_table_lem d path it ts fn e es c s =
    ground (arith, materialize-contents it, c, sort-sorted (e ∷ es) s, metadata_of-cons e es ts fn)

pub write_table_empty :
    (d : Disk) (path : Bytes) (it : Iterator) (timestamp file_num : ℕ)
    → contents it ≡ []
    → write_table d path it timestamp file_num ≡ (throws empty_table, d)
unfolding write_table Writer.write
write_table_empty d path it ts fn c = ground (arith, materialize-contents it, c)

pub write_table-Keeps :
    (d : Disk) (path : Bytes) (it : Iterator) (timestamp file_num : ℕ) (r : SsTable)
    → (write_table d path it timestamp file_num).0 ≡ ok r
    → IsSorted (contents it)
    → length (contents it) < int_limit
    → timestamp < u64_mod
    → file_num < u64_mod
    → Keeps r (contents it)
write_table-Keeps d path it ts fn r w s short h k = by_contents (contents it) refl s short
  where
    by_contents :
        (es : List Entry) → contents it ≡ es → IsSorted es → length es < int_limit → Keeps r es
    by_contents [] c s few = absurd (ground (arith, write_table_empty d path it ts fn c))
    by_contents (e ∷ es) c s few =
        let l = write_table_lem d path it ts fn e es c s in
        record { same = ground (arith, l); sorted = s; full = λ p. cc; short = few }

pub write_table-returns :
    (d : Disk) (path : Bytes) (it : Iterator) (timestamp file_num : ℕ)
    → IsSorted (contents it)
    → timestamp < u64_mod
    → file_num < u64_mod
    → (write_table d path it timestamp file_num).0 ≢ fault
write_table-returns d path it ts fn s h k = by_contents (contents it) refl s
  where
    by_contents :
        (es : List Entry) → contents it ≡ es → IsSorted es → (write_table d path it ts fn).0 ≢ fault
    by_contents [] c s p = ground (arith, write_table_empty d path it ts fn c)
    by_contents (e ∷ es) c s p = ground (arith, write_table_lem d path it ts fn e es c s)

abbrev pub in_memory_laws : TableLaws in_memory
in_memory_laws = record {
  Holds = λ d r es. Keeps r es;
  Avoids = λ r path. Unit {0};
  within_range-Holds = within_range-Keeps;
  get-Holds = get-Keeps;
  write_table-Holds = write_table-Keeps;
  write_table_defined = write_table-returns;
  write_table_frame = λ d path it ts fn r es a h. h;
}
