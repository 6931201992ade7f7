-- ===== src/Iterator.antt =====
-- core/iterators/iterator.h: the interface `tinykv::Iterator`, as the classes that implement it.
pub mod Collect
use tiny_kv.Common.{
  ℕ, zero, suc, ◌+◌, ◌-◌, ◌*◌, ◌/◌, ◌%◌, ◌^◌, ◌≤◌, ◌<◌, Ordering, compare, ◌≡◌, refl, sym, ap, ◌∙◌,
  ◌≢◌, ◌↔◌, ◌⊎◌, inl, inr, Bool, true, false, not, ◌&&◌, ◌||◌, Option, none, some, List, [], ◌∷◌,
  ◌++◌, append_assoc, append-nil, map, foldl, arith, String, ltb, leb, ◌==◌, if◌then◌else◌, ltb→lt,
  lt→ltb, le→ltb, ltb→le, tests, Bool-cases, Option-cases, Bytes, codes, length, get_elem?, take,
  drop, All, length-append, length-take, length-drop, take-append, drop-append, take_all,
  All-append, All-map, get_elem?-append,
}
use tiny_kv.SkipList.Iter as SkipIter
use tiny_kv.SsTable.Iter as TableIter
use tiny_kv.Common.Outcome.{Outcome}
use tiny_kv.Types.{Entry}

pub data Iterator : Type 0 where
  over_skip_list : SkipIter.Iter → Iterator
  over_table : TableIter.Iter → Iterator

unfoldable pub valid : Iterator → Bool
valid (over_skip_list i) = SkipIter.valid i
valid (over_table i) = TableIter.valid i

unfoldable pub seek_to_first : Iterator → Iterator
seek_to_first (over_skip_list i) = over_skip_list (SkipIter.seek_to_first i)
seek_to_first (over_table i) = over_table (TableIter.seek_to_first i)

unfoldable pub next : Iterator → Iterator
next (over_skip_list i) = over_skip_list (SkipIter.next i)
next (over_table i) = over_table (TableIter.next i)

unfoldable pub key : Iterator → Outcome Bytes
key (over_skip_list i) = SkipIter.key i
key (over_table i) = TableIter.key i

unfoldable pub value : Iterator → Outcome Bytes
value (over_skip_list i) = SkipIter.value i
value (over_table i) = TableIter.value i

unfoldable pub is_tombstone : Iterator → Outcome Bool
is_tombstone (over_skip_list i) = SkipIter.is_tombstone i
is_tombstone (over_table i) = TableIter.is_tombstone i

-- what the iterator runs over
unfoldable pub contents : Iterator → List Entry
contents (over_skip_list i) = i.table
contents (over_table i) = i.entries
