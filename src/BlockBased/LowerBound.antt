-- ===== src/BlockBased/LowerBound.antt =====
-- The search of the index leads to the block that can hold the key.
use tiny_kv.Common.{
  ◌≡◌, refl, sym, ap, ◌∙◌, ◌≢◌, ◌⊎◌, inl, inr, true, false, none, some, List, [], ◌∷◌, ◌++◌, arith,
  Bool-cases, Bytes, All, All-map,
}
use tiny_kv.Common.Order.{key_lt, KeyLt}
use tiny_kv.Types.{Entry, IsSorted, find}
use tiny_kv.BlockBased.Structs.{IndexEntry}
use tiny_kv.BlockBased.Reader.{lower_bound}
use tiny_kv.BlockBased.Blocks.{last_key_of, IsBlock, flatten, Indexed}
use tiny_kv.BlockBased.Lookup.{
  not_gt_lt, behind_last, find-append, find_behind, IsSorted-append, find_before, sorted_last,
}

-- What the index answers: no block, and the key is nowhere, or the one block that may hold the key.
abbrev pub Located : Bytes → List IndexEntry → List (List Entry) → Bytes → Type 0
Located file is blocks k =
    ((lower_bound is k ≡ none) × (find k (flatten blocks) ≡ none))
    ⊎ ((i : IndexEntry) × (es : List Entry) × (lower_bound is k ≡ some i)
        × IsBlock file i es
        × IsSorted es
        × (find k (flatten blocks) ≡ find k es))

lower_bound_skip :
    (i : IndexEntry) (is : List IndexEntry) (k : Bytes)
    → key_lt i.last_key k ≡ true
    → lower_bound (i ∷ is) k ≡ lower_bound is k
unfolding lower_bound
lower_bound_skip i is k h = ground (arith, h)

lower_bound_stop :
    (i : IndexEntry) (is : List IndexEntry) (k : Bytes)
    → key_lt i.last_key k ≡ false
    → lower_bound (i ∷ is) k ≡ some i
unfolding lower_bound
lower_bound_stop i is k h = ground (arith, h)

pub lower_bound-Located :
    (file : Bytes) (is : List IndexEntry) (blocks : List (List Entry)) (k : Bytes)
    → Indexed file is blocks
    → IsSorted (flatten blocks)
    → Located file is blocks k
lower_bound-Located file [] [] k h s = inl (unfold lower_bound in refl, unfold find in refl)
lower_bound-Located file [] (es ∷ blocks) k h s = absurd h
lower_bound-Located file (i ∷ is) [] k h s = absurd h
lower_bound-Located file (i ∷ is) (es ∷ blocks) k (b, h) s =
    let (ses, srest, across) = IsSorted-append es (flatten blocks) s in
    elim (Bool-cases (key_lt i.last_key k)) [
      | inl below ↦
          let gone : find k es ≡ none = find_before k es (
            sorted_last k es ses
              (ground (arith, below, ap (λ (t : Bytes). key_lt t k) b.last_lem))) in
          let same : find k (es ++ flatten blocks) ≡ find k (flatten blocks) =
            ground (arith, find-append k es (flatten blocks), gone) in
          let skip = lower_bound_skip i is k below in
          elim (lower_bound-Located file is blocks k h srest) [
            | inl (none_there, nowhere) ↦ inl (skip ∙ none_there, same ∙ nowhere)
            | inr (j, fs, there, fb, sfs, found_there) ↦
                inr (j, fs, skip ∙ there, fb, sfs, same ∙ found_there)
          ]
      | inr stop ↦ inr (
        i,
        es,
        lower_bound_stop i is k stop,
        b,
        ses,
        behind stop es (flatten blocks) b.last_lem b.full across,
      )
    ]
  where
    behind :
        key_lt i.last_key k ≡ false
        → (xs ys : List Entry) → i.last_key ≡ last_key_of xs
        → xs ≢ []
        → All (λ x. All (λ y. KeyLt x.key y.key) ys) xs
        → find k (xs ++ ys) ≡ find k xs
    behind stop xs ys same full across =
        let later =
          All-map _ (λ y. KeyLt k y.key) ys
            (λ y l.
              not_gt_lt k (last_key_of xs) y.key (ap (λ (t : Bytes). key_lt t k) (sym same) ∙ stop)
                l)
            (behind_last xs ys full across) in
        ground (arith, find-append k xs ys, find_behind k ys later)
