-- ===== src/SsTable.antt =====
-- core/sstable_manager/sstable.{h,cpp} and sstable_metadata.h: a table held in memory, searched by
-- bisection.
pub mod Sort
pub mod Search
pub mod Range
pub mod Iter
pub mod Writer
pub mod Reader
pub mod RoundTrip
use tiny_kv.Common.{
  ℕ, zero, suc, ◌+◌, ◌-◌, ◌*◌, ◌/◌, ◌%◌, ◌^◌, ◌≤◌, ◌<◌, Ordering, compare, ◌≡◌, refl, sym, ap, ◌∙◌,
  ◌≢◌, ◌↔◌, ◌⊎◌, inl, inr, Bool, true, false, not, ◌&&◌, ◌||◌, Option, none, some, List, [], ◌∷◌,
  ◌++◌, append_assoc, append-nil, map, foldl, arith, ltb, leb, ◌==◌, if◌then◌else◌, ltb→lt, lt→ltb,
  le→ltb, ltb→le, tests, Bool-cases, Option-cases, Bytes, codes, length, get_elem?, take, drop, All,
  length-append, length-take, length-drop, take-append, drop-append, take_all, All-append, All-map,
  get_elem?-append,
}
use tiny_kv.Types.{Entry, entry_lt}
use tiny_kv.Common.Outcome.{Outcome, fault, ok, ◌>>=◌}
use tiny_kv.Common.Order.{key_eq, key_le, key_lt}
use tiny_kv.Common.Words.{u32_mod, int_limit}

pub record Metadata : Type 0 where
  pub file_number : ℕ
  pub timestamp : ℕ
  pub min_key : Bytes
  pub max_key : Bytes

unfoldable pub metadata_lt : Metadata → Metadata → Bool
metadata_lt a b = ltb a.file_number b.file_number

pub record SsTable : Type 0 where
  pub meta : Metadata
  pub entries : List Entry

-- `std::sort` by `operator<`
unfoldable pub insert_sorted : Entry → List Entry → List Entry
unfolding entry_lt
insert_sorted e [] = e ∷ []
insert_sorted e (f ∷ fs) = if entry_lt f e then f ∷ insert_sorted e fs else e ∷ f ∷ fs

unfoldable pub sort : List Entry → List Entry
unfolding insert_sorted
sort [] = []
sort (e ∷ es) = insert_sorted e (sort es)

unfoldable pub new_table : Metadata → List Entry → SsTable
new_table m es = record { meta = m; entries = sort es }

-- `int r = n - 1`, for a size `n` from 1 on: what is kept is `r + 1`, and 0 for every negative `r`,
-- since with `l` at 0 all of these leave the loop at once
unfoldable pub int_end : ℕ → ℕ
int_end n = let r = (n - 1) % u32_mod in if ltb r int_limit then r + 1 else 0

-- the loop of `SSTable::get`. The code's `int r` may become -1: `end` is `r + 1`. While `l < r`,
-- `mid + 1` is at most `r` and does not overflow.
unfoldable pub get_loop : ℕ → List Entry → Bytes → ℕ → ℕ → Outcome (Option Entry)
get_loop zero es key l end = fault
get_loop (suc fuel) es key l end =
    let mid = l + (end - 1 - l) / 2 in
    elim (ltb (l + 1) end) [
      | true ↦ elim (get_elem? es mid) [
        | none ↦ fault
        | some mid_entry ↦ elim (key_eq mid_entry.key key) [
          | true ↦ ok (some mid_entry)
          | false ↦ elim (key_lt key mid_entry.key) [
            | true ↦ get_loop fuel es key l mid
            | false ↦ get_loop fuel es key (mid + 1) end
          ]
        ]
      ]
      | false ↦ elim (get_elem? es l) [
        | none ↦ fault
        | some e ↦ ok (if key_eq e.key key then some e else none)
      ]
    ]

-- each round shortens the range, so as many rounds as entries are enough
unfoldable pub get : SsTable → Bytes → Outcome (Option Entry)
unfolding int_end
get t key =
    if length t.entries == 0
    then ok none
    else get_loop (suc (length t.entries)) t.entries key 0 (int_end (length t.entries))

-- `m_entries[i]`
unfoldable pub entry_at : List Entry → ℕ → Outcome Entry
entry_at es i = elim (get_elem? es i) [ none ↦ fault | some e ↦ ok e ]

-- `m_entries[m_entries.size() - 1]`; of an empty vector the index wraps around
unfoldable pub last_entry : List Entry → Outcome Entry
unfolding entry_at
last_entry [] = fault
last_entry (e ∷ es) = entry_at (e ∷ es) (length es)

unfoldable pub within_range : SsTable → Bytes → Outcome Bool
unfolding entry_at last_entry
within_range t key = entry_at t.entries 0 >>= λ first.
    last_entry t.entries >>= λ last. ok (key_le first.key key && key_le key last.key)

unfoldable pub get_start_key : SsTable → Outcome Bytes
unfolding entry_at
get_start_key t = entry_at t.entries 0 >>= λ e. ok e.key

unfoldable pub get_end_key : SsTable → Outcome Bytes
unfolding last_entry
get_end_key t = last_entry t.entries >>= λ e. ok e.key

unfoldable pub get_size : SsTable → ℕ
get_size t = length t.entries

-- a size that an `int` holds is kept
pub int_end_lem : (n : ℕ) → 0 < n → n < int_limit → int_end n ≡ n
unfolding int_end
int_end_lem n h k = ground arith
