-- ===== src/SkipList/Iter.antt =====
-- `SkipListImpl::Iter`: a position in the map. The index `length` stands for `m_map->end()`.
use tiny_kv.Common.{
  ℕ, zero, suc, ◌+◌, ◌-◌, ◌≤◌, ◌≡◌, refl, ◌↔◌, Bool, false, not, Option, none, some, List, [], ◌∷◌,
  arith, ◌==◌, if◌then◌else◌, Bytes, length, get_elem?,
}
use tiny_kv.Common.Order.{key_eq}
use tiny_kv.Common.Outcome.{Outcome, ok, fault}
use tiny_kv.Types.{Entry, find}
use tiny_kv.SkipList.{SkipList}

pub record Iter : Type 0 where
  pub table : List Entry
  pub pos : ℕ

-- `NewIterator`: the constructor starts at the end
unfoldable pub new_iterator : SkipList → Iter
new_iterator s = record { table = s.entries; pos = length s.entries }

unfoldable pub valid : Iter → Bool
valid i = not (i.pos == length i.table)

unfoldable pub seek_to_first : Iter → Iter
seek_to_first i = record i { pos = 0 }

unfoldable pub seek_to_last : Iter → Iter
seek_to_last i =
    if length i.table == 0 then record i { pos = 0 } else record i { pos = length i.table - 1 }

-- `m_map->find(target)`: the place of the key, or the end
unfoldable pub index_of : Bytes → List Entry → ℕ
index_of k [] = 0
index_of k (e ∷ es) = if key_eq e.key k then 0 else suc (index_of k es)

unfoldable pub seek : Iter → Bytes → Iter
seek i target = record i { pos = index_of target i.table }

unfoldable pub next : Iter → Iter
unfolding valid
next i = if valid i then record i { pos = i.pos + 1 } else i

-- `m_it->second`: reading at the end is outside the language's rules
unfoldable pub current : Iter → Option Entry
current i = get_elem? i.table i.pos

unfoldable pub key : Iter → Outcome Bytes
unfolding current
key i = elim (current i) [ none ↦ fault | some e ↦ ok e.key ]

unfoldable pub value : Iter → Outcome Bytes
unfolding current
value i = elim (current i) [ none ↦ fault | some e ↦ ok e.val ]

unfoldable pub is_tombstone : Iter → Outcome Bool
unfolding current
is_tombstone i = elim (current i) [ none ↦ fault | some e ↦ ok e.tombstone ]

index_of-le : (k : Bytes) (es : List Entry) → index_of k es ≤ length es
unfolding index_of
index_of-le k [] = omega arith
index_of-le k (e ∷ es) = ground (arith, index_of-le k es)

get_elem?-index_of : (k : Bytes) (es : List Entry) → get_elem? es (index_of k es) ≡ find k es
unfolding index_of find
get_elem?-index_of k [] = refl
get_elem?-index_of k (e ∷ es) = ground (arith, get_elem?-index_of k es)

get_elem?-none : (es : List Entry) (i : ℕ) → get_elem? es i ≡ none → length es ≤ i
get_elem?-none [] i h = omega arith
get_elem?-none (e ∷ es) zero h = cc
get_elem?-none (e ∷ es) (suc i) h = omega (arith, get_elem?-none es i h)

get_elem?-length : (es : List Entry) → get_elem? es (length es) ≡ none
get_elem?-length [] = refl
get_elem?-length (e ∷ es) = get_elem?-length es

-- `Seek` stands on the entry that `get` would return, and is not valid exactly when there is none.
pub current-seek :
    (i : Iter) (k : Bytes)
    → (current (seek i k) ≡ find k i.table) × ((valid (seek i k) ≡ false) ↔ (find k i.table ≡ none))
unfolding current seek valid
current-seek i k = (
  get_elem?-index_of k i.table,
  (
    λ h. ground (arith, get_elem?-length i.table, get_elem?-index_of k i.table),
    λ h. ground (
      arith,
      index_of-le k i.table,
      get_elem?-index_of k i.table,
      get_elem?-none i.table (index_of k i.table),
    ),
  ),
)
