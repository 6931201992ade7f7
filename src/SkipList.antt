-- ===== src/SkipList.antt =====
-- core/skip_list/skip_list_impl.cpp: the memtable's ordered map. `m_map` is a `std::map` that only
-- `set` writes, under the entry's own key: the list of its entries in key order.
pub mod Laws
pub mod Iter
use tiny_kv.Common.{
  ℕ, zero, suc, ◌+◌, ◌-◌, ◌*◌, ◌/◌, ◌%◌, ◌^◌, ◌≤◌, ◌<◌, Ordering, compare, ◌≡◌, refl, sym, ap, ◌∙◌,
  ◌≢◌, ◌↔◌, ◌⊎◌, inl, inr, Bool, true, false, not, ◌&&◌, ◌||◌, Option, none, some, List, [], ◌∷◌,
  ◌++◌, append_assoc, append-nil, map, foldl, arith, ltb, leb, ◌==◌, if◌then◌else◌, ltb→lt, lt→ltb,
  le→ltb, ltb→le, tests, Bool-cases, Option-cases, Bytes, codes, length, get_elem?, take, drop, All,
  length-append, length-take, length-drop, take-append, drop-append, take_all, All-append, All-map,
  get_elem?-append,
}
use tiny_kv.Common.Order.{
  compare_bytes, key_lt, key_le, key_eq, KeyLt, compare_bytes_refl, compare_bytes-eq,
  compare_bytes_flip, lt-of_gt, gt-of_lt, lt_irrefl, lt_trans, Compare-cases, key_eq_self,
  eq-of_key_eq, key_eq_comm,
}
use tiny_kv.Common.Outcome.{Outcome, ok, throws, fault, Exception, ◌>>=◌}
use tiny_kv.Types.{Entry, Error, IsSorted, find}
use tiny_kv.Common.Words.{u32_mod}

pub record SkipList : Type 0 where
  pub entries : List Entry

unfoldable pub empty : SkipList
empty = record { entries = [] }

-- `m_map[entry.key] = entry`
unfoldable pub insert : Entry → List Entry → List Entry
insert e [] = e ∷ []
insert e (f ∷ fs) = elim (compare_bytes e.key f.key) [
  | Ordering.lt ↦ e ∷ f ∷ fs
  | Ordering.eq ↦ e ∷ fs
  | Ordering.gt ↦ f ∷ insert e fs
]

unfoldable pub set : SkipList → Entry → Option Error × SkipList
set s e = (none, record { entries = insert e s.entries })

unfoldable pub get : SkipList → Bytes → Option Entry
get s key = find key s.entries

unfoldable pub get_all : SkipList → Option (List Entry)
get_all s = some s.entries

-- an `int`, as the 32 bits that hold it
unfoldable pub get_length : SkipList → Option ℕ
get_length s = some (length s.entries % u32_mod)

unfoldable pub clear : SkipList → Option Error × SkipList
unfolding empty
clear s = (none, empty)
