-- ===== src/SsTable/Iter.antt =====
-- core/sstable_manager/sstable_iterator.cpp: `SSTable::Iter`, an index into the table's entries.
use tiny_kv.Common.{
  ℕ, zero, suc, ◌+◌, ◌-◌, ◌/◌, ◌≤◌, ◌<◌, ◌≡◌, refl, sym, ◌∙◌, inl, inr, Bool, true, false, Option,
  none, some, List, [], ◌∷◌, arith, ltb, ◌==◌, if◌then◌else◌, ltb→lt, lt→ltb, ltb→le, Bool-cases,
  Bytes, length, get_elem?,
}
use tiny_kv.SsTable.{SsTable, Entry, key_eq, key_lt, int_end, int_end_lem}
use tiny_kv.Common.Words.{int_limit}
use tiny_kv.Common.Outcome.{Outcome, fault, ok, ◌>>=◌, throws}
use tiny_kv.Types.{IsSorted, find}
use tiny_kv.SsTable.Search.{
  Below, Above, find_absent, get_elem?-some, lt-ne_key, gt-ne_key, Below-after, find_at, Above-from,
}
use tiny_kv.Common.Order.{Compare-cases, gt-of_lt, lt-of_gt}

pub record Iter : Type 0 where
  pub index : ℕ
  pub entries : List Entry

unfoldable pub new_iterator : SsTable → Iter
new_iterator t = record { index = 0; entries = t.entries }

unfoldable pub valid : Iter → Bool
valid i = ltb i.index (length i.entries)

unfoldable pub seek_to_first : Iter → Iter
seek_to_first i = record i { index = 0 }

unfoldable pub seek_to_last : Iter → Iter
seek_to_last i =
    if length i.entries == 0
    then record i { index = 0 }
    else record i { index = length i.entries - 1 }

-- the loop of `Seek`, which returns `m_index`; `end` is the code's `r + 1`. `l = mid + 1` is undefined
-- where `mid` is the largest `int`.
unfoldable pub seek_loop : ℕ → List Entry → Bytes → ℕ → ℕ → Outcome ℕ
seek_loop zero es key l end = fault
seek_loop (suc fuel) es key l end =
    let mid = l + (end - 1 - l) / 2 in
    elim (ltb l end) [
      | true ↦ elim (get_elem? es mid) [
        | none ↦ fault
        | some mid_entry ↦ elim (key_eq mid_entry.key key) [
          | true ↦ ok mid
          | false ↦ elim (key_lt key mid_entry.key) [
            | true ↦ seek_loop fuel es key l mid
            | false ↦ elim (ltb (mid + 1) int_limit) [
              | true ↦ seek_loop fuel es key (mid + 1) end
              | false ↦ fault
            ]
          ]
        ]
      ]
      | false ↦ ok (length es)
    ]

unfoldable pub seek : Iter → Bytes → Outcome Iter
unfolding int_end
seek i key =
    if length i.entries == 0
    then ok (record i { index = length i.entries })
    else (seek_loop (suc (length i.entries)) i.entries key 0 (int_end (length i.entries)) >>= λ m.
        ok (record i { index = m }))

unfoldable pub next : Iter → Iter
next i = if ltb i.index (length i.entries) then record i { index = i.index + 1 } else i

unfoldable pub current : Iter → Option Entry
current i = get_elem? i.entries i.index

unfoldable pub key : Iter → Outcome Bytes
unfolding current
key i = elim (current i) [ none ↦ fault | some e ↦ ok e.key ]

unfoldable pub value : Iter → Outcome Bytes
unfolding current
value i = elim (current i) [ none ↦ fault | some e ↦ ok e.val ]

unfoldable pub is_tombstone : Iter → Outcome Bool
unfolding current
is_tombstone i = elim (current i) [ none ↦ fault | some e ↦ ok e.tombstone ]

-- The index that `Seek` ends at: that of the entry with the key, or the end if there is none.
abbrev pub Seeks : List Entry → Bytes → Outcome ℕ → Type 0
Seeks es k (ok m) =
    (get_elem? es m ≡ find k es) × (find k es ≡ none → m ≡ length es) × (m ≤ length es)
Seeks es k _ = ⊥

get_elem?_end : (es : List Entry) → get_elem? es (length es) ≡ none
get_elem?_end [] = refl
get_elem?_end (e ∷ es) = get_elem?_end es

pub get_elem?-lt {ℓ} :
    {A : Type ℓ} (xs : List A) (i : ℕ) (x : A) → get_elem? xs i ≡ some x → i < length xs
get_elem?-lt [] i x p = cc
get_elem?-lt (y ∷ xs) zero x p = omega arith
get_elem?-lt (y ∷ xs) (suc i) x p = omega (arith, get_elem?-lt xs i x p)

module _ (es : List Entry) (k : Bytes) (sorted : IsSorted es) (short : length es < int_limit) where
  nowhere : (l end : ℕ) → Below es k l → Above es k end → end ≤ l → find k es ≡ none
  nowhere l end below above met = find_absent k es λ i f q. elim (Bool-cases (ltb i l)) [
    | inl less ↦ lt-ne_key f.key k (below i f (ltb→lt i l less) q)
    | inr more ↦ gt-ne_key k f.key (above i f (omega (arith, ltb→le i l more)) q)
  ]

  seek_loop-Seeks :
      (fuel l end : ℕ)
      → Below es k l
      → Above es k end
      → l ≤ end
      → end ≤ length es
      → end - l < fuel
      → Seeks es k (seek_loop fuel es k l end)
  unfolding seek_loop
  seek_loop-Seeks zero l end below above order inside enough = absurd (omega arith)
  seek_loop-Seeks (suc fuel) l end below above order inside enough = elim (Bool-cases (ltb l end)) [
    | inr stop ↦
        let gone = nowhere l end below above (ltb→le l end stop) in
        ground (arith, gone, get_elem?_end es)
    | inl go ↦
        let mid = l + (end - 1 - l) / 2 in
        let room : l < end = ltb→lt l end go in
        let (e, p) = get_elem?-some es mid (omega arith) in
        elim (Compare-cases e.key k) [
          | inl lt ↦ ground (
            arith,
            gt-of_lt e.key k lt,
            lt→ltb (mid + 1) int_limit (omega arith),
            seek_loop-Seeks fuel (mid + 1) end (Below-after es k sorted mid e p lt) above
                (omega arith) inside (omega arith),
          )
          | inr (inl eq) ↦ ground (arith, find_at k es mid e sorted p)
          | inr (inr gt) ↦ ground (
            arith,
            lt-of_gt e.key k gt,
            seek_loop-Seeks fuel l mid below (Above-from es k sorted mid e p (lt-of_gt e.key k gt))
                (omega arith) (omega arith) (omega arith),
          )
        ]
  ]

-- `Seek` on a table in key order of fewer than 2 ^ 31 entries, which the code's `int` can count:
-- the iterator stands on the entry with the key, or is not valid when the table has none.
pub seek-find :
    (i : Iter) (k : Bytes)
    → IsSorted i.entries
    → length i.entries < int_limit
    → (j : Iter) × (seek i k ≡ ok j)
      × (j.entries ≡ i.entries)
      × (current j ≡ find k i.entries)
      × (find k i.entries ≡ none → valid j ≡ false)
unfolding seek current valid
seek-find i k sorted short = elim (Bool-cases (length i.entries == 0)) [
  | inl nothing ↦ (
    record i { index = length i.entries },
    ground arith,
    refl,
    get_elem?_end i.entries
        ∙ sym (
            nowhere i.entries k sorted short 0 0 (λ j e h p. absurd (omega arith)) (past nothing)
              (omega arith)),
    λ h. ground arith,
  )
  | inr something ↦
      let found =
        seek_loop-Seeks i.entries k sorted short (suc (length i.entries)) 0 (length i.entries)
          (λ j e h p. absurd (omega arith)) (past_end i.entries) (omega arith) (omega arith)
          (omega arith) in
      finish (seek_loop (suc (length i.entries)) i.entries k 0 (length i.entries)) refl something
        found
]
  where
    past_end : (es : List Entry) → Above es k (length es)
    past_end es m e h p = absurd (omega (arith, get_elem?-lt es m e p))

    past : (length i.entries == 0) ≡ true → Above i.entries k 0
    past nothing m e h p = absurd (ground (arith, get_elem?-lt i.entries m e p))

    finish :
        (r : Outcome ℕ)
        → seek_loop (suc (length i.entries)) i.entries k 0 (length i.entries) ≡ r
        → (length i.entries == 0) ≡ false
        → Seeks i.entries k r
        → (j : Iter) × (seek i k ≡ ok j)
          × (j.entries ≡ i.entries)
          × (current j ≡ find k i.entries)
          × (find k i.entries ≡ none → valid j ≡ false)
    finish (ok m) e ne (at, gone, inside) = (
      record i { index = m },
      ground (arith, int_end_lem (length i.entries) (ground arith) short),
      refl,
      at,
      λ h. ground (arith, gone h),
    )
    finish (throws x) e ne h = absurd h
    finish fault e ne h = absurd h
