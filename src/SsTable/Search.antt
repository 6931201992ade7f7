-- ===== src/SsTable/Search.antt =====
-- `SSTable::get` against the linear lookup.
use tiny_kv.Common.{
  ℕ, zero, suc, ◌+◌, ◌-◌, ◌/◌, ◌≤◌, ◌<◌, ◌≡◌, refl, ap, inl, inr, true, false, none, some, List, [],
  ◌∷◌, arith, ltb, ◌==◌, ltb→lt, ltb→le, Bool-cases, Bytes, length, get_elem?, All,
}
use tiny_kv.Types.{Entry, find, IsSorted}
use tiny_kv.Common.Order.{KeyLt, key_eq, eq-of_key_eq, gt-of_lt, lt_trans, Compare-cases, lt-of_gt}
use tiny_kv.SsTable.{get_loop, ok, get, SsTable, int_end_lem}
use tiny_kv.Common.Words.{int_limit}
use mathlib.Core.Path.{subst}
use mathlib.Core.Option.{some-injective}

pub get_elem?-some {ℓ} :
    {A : Type ℓ} (xs : List A) (i : ℕ) → i < length xs → (x : A) × (get_elem? xs i ≡ some x)
get_elem?-some [] i h = absurd (omega arith)
get_elem?-some (x ∷ xs) zero h = (x, refl)
get_elem?-some (x ∷ xs) (suc i) h = get_elem?-some xs i (omega arith)

pub All-get_elem? {ℓ κ} :
    {A : Type ℓ} (P : A → Type κ) (xs : List A) (i : ℕ) (x : A)
    → All P xs
    → get_elem? xs i ≡ some x
    → P x
All-get_elem? P [] i x h e = cc
All-get_elem? P (y ∷ xs) zero x h e = subst P (some-injective y x e) h.0
All-get_elem? P (y ∷ xs) (suc i) x h e = All-get_elem? P xs i x h.1 e

-- entries stand in key order
pub sorted_lt :
    (es : List Entry) (i j : ℕ) (a b : Entry)
    → IsSorted es
    → i < j
    → get_elem? es i ≡ some a
    → get_elem? es j ≡ some b
    → KeyLt a.key b.key
sorted_lt [] i j a b s h p q = cc
sorted_lt (e ∷ es) i zero a b s h p q = absurd (omega arith)
sorted_lt (e ∷ es) zero (suc j) a b s h p q =
    subst (λ (z : Entry). KeyLt z.key b.key) (some-injective e a p)
      (All-get_elem? (λ f. KeyLt e.key f.key) es j b s.0 q)
sorted_lt (e ∷ es) (suc i) (suc j) a b s h p q = sorted_lt es i j a b s.1 (omega arith) p q

pub find_at :
    (k : Bytes) (es : List Entry) (i : ℕ) (e : Entry)
    → IsSorted es
    → get_elem? es i ≡ some e
    → key_eq e.key k ≡ true
    → find k es ≡ some e
unfolding find
find_at k [] i e s p q = cc
find_at k (f ∷ fs) zero e s p q = ground arith
find_at k (f ∷ fs) (suc i) e s p q = ground (
  arith,
  find_at k fs i e s.1 p q,
  All-get_elem? (λ g. KeyLt f.key g.key) fs i e s.0 p,
  eq-of_key_eq e.key k q,
)

pub find_absent :
    (k : Bytes) (es : List Entry)
    → ((i : ℕ) (e : Entry) → get_elem? es i ≡ some e → key_eq e.key k ≡ false)
    → find k es ≡ none
unfolding find
find_absent k [] h = refl
find_absent k (f ∷ fs) h = ground (arith, h 0 f refl, find_absent k fs (λ i e p. h (suc i) e p))

-- below the index the keys are smaller; from it on they are larger
abbrev pub Below : List Entry → Bytes → ℕ → Type 0
Below es k l = (i : ℕ) (e : Entry) → i < l → get_elem? es i ≡ some e → KeyLt e.key k

abbrev pub Above : List Entry → Bytes → ℕ → Type 0
Above es k h = (i : ℕ) (e : Entry) → h ≤ i → get_elem? es i ≡ some e → KeyLt k e.key

pub lt-ne_key : (a b : Bytes) → KeyLt a b → key_eq a b ≡ false
lt-ne_key a b h = ground arith

pub gt-ne_key : (a b : Bytes) → KeyLt a b → key_eq b a ≡ false
gt-ne_key a b h = ground (arith, gt-of_lt a b h)

module _ (es : List Entry) (k : Bytes) (sorted : IsSorted es) where
  pub Below-after :
      (mid : ℕ) (e : Entry) → get_elem? es mid ≡ some e → KeyLt e.key k → Below es k (mid + 1)
  Below-after mid e p lt i f h q = elim (Bool-cases (ltb i mid)) [
    | inl less ↦ lt_trans f.key e.key k (sorted_lt es i mid f e sorted (ltb→lt i mid less) q p) lt
    | inr more ↦
        let same : i ≡ mid = omega (arith, ltb→le i mid more) in
        ground (arith, ap (get_elem? es) same)
  ]

  pub Above-from :
      (mid : ℕ) (e : Entry) → get_elem? es mid ≡ some e → KeyLt k e.key → Above es k mid
  Above-from mid e p lt i f h q = elim (Bool-cases (ltb mid i)) [
    | inl more ↦ lt_trans k e.key f.key lt (sorted_lt es mid i e f sorted (ltb→lt mid i more) p q)
    | inr less ↦
        let same : i ≡ mid = omega (arith, ltb→le mid i less) in
        ground (arith, ap (get_elem? es) same)
  ]

  -- one place is left, or none
  pub absent :
      (l end : ℕ) (e : Entry)
      → Below es k l
      → Above es k end
      → end ≤ l + 1
      → get_elem? es l ≡ some e
      → key_eq e.key k ≡ false
      → find k es ≡ none
  absent l end e below above near p ne = find_absent k es λ i f q. elim (Bool-cases (ltb i l)) [
    | inl less ↦ lt-ne_key f.key k (below i f (ltb→lt i l less) q)
    | inr more ↦ elim (Bool-cases (ltb l i)) [
      | inl far ↦ gt-ne_key k f.key (above i f (omega (arith, ltb→lt l i far)) q)
      | inr here ↦
          let same : i ≡ l = omega (arith, ltb→le i l more, ltb→le l i here) in
          ground (arith, ap (get_elem? es) same)
    ]
  ]

  get_loop-find :
      (fuel l end : ℕ)
      → Below es k l
      → Above es k end
      → l ≤ end
      → end ≤ length es
      → l < length es
      → end - l < fuel
      → get_loop fuel es k l end ≡ ok (find k es)
  unfolding get_loop
  get_loop-find zero l end below above order inside here enough = absurd (omega arith)
  get_loop-find (suc fuel) l end below above order inside here enough =
      elim (Bool-cases (ltb (l + 1) end)) [
        | inr stop ↦
            let (e, p) = get_elem?-some es l here in
            elim (Bool-cases (key_eq e.key k)) [
              | inl hit ↦ ground (arith, find_at k es l e sorted p hit)
              | inr miss ↦
                  ground (arith, absent l end e below above (ltb→le (l + 1) end stop) p miss)
            ]
        | inl go ↦
            let mid = l + (end - 1 - l) / 2 in
            let room : l + 1 < end = ltb→lt (l + 1) end go in
            let (e, p) = get_elem?-some es mid (omega arith) in
            elim (Compare-cases e.key k) [
              | inl lt ↦ ground (
                arith,
                gt-of_lt e.key k lt,
                get_loop-find fuel (mid + 1) end (Below-after mid e p lt) above (omega arith) inside
                    (omega arith) (omega arith),
              )
              | inr (inl eq) ↦ ground (arith, find_at k es mid e sorted p)
              | inr (inr gt) ↦ ground (
                arith,
                lt-of_gt e.key k gt,
                get_loop-find fuel l mid below (Above-from mid e p (lt-of_gt e.key k gt))
                    (omega arith) (omega arith) here (omega arith),
              )
            ]
      ]

-- On a table in key order of fewer than 2 ^ 31 entries, which the code's `int` can count, the
-- bisection finds the entry with the key, if there is one, and never reads out of bounds.
pub get-find :
    (t : SsTable) (k : Bytes)
    → IsSorted t.entries
    → length t.entries < int_limit
    → get t k ≡ ok (find k t.entries)
unfolding get find
get-find t k sorted short = elim (Bool-cases (length t.entries == 0)) [
  | inl none_there ↦ ground (arith, length_zero t.entries)
  | inr some_there ↦ ground (
    arith,
    int_end_lem (length t.entries) (ground arith) short,
    get_loop-find t.entries k sorted (suc (length t.entries)) 0 (length t.entries)
        (λ i e h p. absurd (omega arith)) (λ i e h p. absurd (above_end t.entries i e h p))
        (omega arith) (omega arith) (ground arith) (omega arith),
  )
]
  where
    length_zero : (es : List Entry) → length es ≡ 0 → find k es ≡ none
    length_zero [] h = refl
    length_zero (e ∷ es) h = absurd (omega arith)

    above_end : (es : List Entry) (i : ℕ) (e : Entry) → length es ≤ i → get_elem? es i ≡ some e → ⊥
    above_end [] i e h p = cc
    above_end (f ∷ es) zero e h p = omega arith
    above_end (f ∷ es) (suc i) e h p = above_end es i e (omega arith) p
