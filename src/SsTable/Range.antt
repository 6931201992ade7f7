-- ===== src/SsTable/Range.antt =====
-- `SSTable::withinRange` against the linear lookup.
use tiny_kv.Common.{
  ℕ, zero, suc, ◌≤◌, ◌≡◌, refl, ap, inl, inr, false, none, some, List, [], ◌∷◌, arith, ltb, ltb→lt,
  ltb→le, Bool-cases, Bytes, length, get_elem?, ◌≢◌, Bool, ◌&&◌,
}
use tiny_kv.Types.{Entry, find, IsSorted}
use tiny_kv.Common.Order.{KeyLt, gt-of_lt, lt_trans, lt-of_gt, key_le}
use tiny_kv.SsTable.{ok, SsTable, within_range, Metadata}
use tiny_kv.SsTable.Search.{find_absent, gt-ne_key, lt-ne_key, All-get_elem?, sorted_lt}

find_before :
    (k : Bytes) (e : Entry) (es : List Entry)
    → IsSorted (e ∷ es)
    → KeyLt k e.key
    → find k (e ∷ es) ≡ none
unfolding find
find_before k e es s lt = ground (
  arith,
  gt-of_lt k e.key lt,
  find_absent k es (λ i f p.
      gt-ne_key k f.key
        (lt_trans k e.key f.key lt (All-get_elem? (λ g. KeyLt e.key g.key) es i f s.0 p))),
)

find_after :
    (k : Bytes) (es : List Entry) (i : ℕ) (e : Entry)
    → IsSorted es
    → length es ≡ suc i
    → get_elem? es i ≡ some e
    → KeyLt e.key k
    → find k es ≡ none
find_after k es i e s len p lt = find_absent k es λ j f q. elim (Bool-cases (ltb j i)) [
  | inl less ↦
      lt-ne_key f.key k (lt_trans f.key e.key k (sorted_lt es j i f e s (ltb→lt j i less) q p) lt)
  | inr more ↦ elim (Bool-cases (ltb i j)) [
    | inl far ↦ absurd (out es j f (omega (arith, ltb→lt i j far)) q)
    | inr here ↦
        let same : j ≡ i = omega (arith, ltb→le j i more, ltb→le i j here) in
        ground (arith, ap (get_elem? es) same)
  ]
]
  where
    out : (xs : List Entry) (j : ℕ) (f : Entry) → length xs ≤ j → get_elem? xs j ≡ some f → ⊥
    out [] j f h q = cc
    out (x ∷ xs) zero f h q = omega arith
    out (x ∷ xs) (suc j) f h q = out xs j f (omega arith) q

unfoldable pub last : Entry → List Entry → Entry
last e [] = e
last e (f ∷ es) = last f es

pub get_elem?-last :
    (e : Entry) (es : List Entry) → get_elem? (e ∷ es) (length es) ≡ some (last e es)
unfolding last
get_elem?-last e [] = refl
get_elem?-last e (f ∷ es) = get_elem?-last f es

pub range_excludes :
    (k : Bytes) (e : Entry) (es : List Entry)
    → IsSorted (e ∷ es)
    → (key_le e.key k && key_le k (last e es).key) ≡ false
    → find k (e ∷ es) ≡ none
range_excludes k e es s out = elim (Bool-cases (key_le e.key k)) [
  | inr before ↦ find_before k e es s (lt-of_gt e.key k (ground arith))
  | inl fits ↦
      find_after k (e ∷ es) (length es) (last e es) s refl (get_elem?-last e es)
        (lt-of_gt k (last e es).key (ground arith))
]

pub within_range_lem :
    (m : Metadata) (k : Bytes) (e : Entry) (es : List Entry)
    → within_range (record { meta = m; entries = e ∷ es }) k
      ≡ ok (key_le e.key k && key_le k (last e es).key)
unfolding within_range
within_range_lem m k e es = ground (arith, get_elem?-last e es)

-- The range test of a table that is not empty ends with an answer, and the answer is "no" only at
-- keys that the table does not hold.
pub within_range-find :
    (t : SsTable) (k : Bytes)
    → IsSorted t.entries
    → t.entries ≢ []
    → (b : Bool) × (within_range t k ≡ ok b) × (b ≡ false → find k t.entries ≡ none)
within_range-find t k = at t.entries
  where
    at :
        (es : List Entry)
        → IsSorted es
        → es ≢ []
        → (b : Bool) × (within_range (record { meta = t.meta; entries = es }) k ≡ ok b)
          × (b ≡ false → find k es ≡ none)
    at [] s full = absurd (full refl)
    at (e ∷ es) s full = (
      key_le e.key k && key_le k (last e es).key,
      within_range_lem t.meta k e es,
      range_excludes k e es s,
    )
