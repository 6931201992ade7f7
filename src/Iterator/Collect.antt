-- ===== src/Iterator/Collect.antt =====
-- The loop `for (SeekToFirst(); Valid(); Next())` that copies the entries of an iterator.
use tiny_kv.Common.{
  ◌⊎◌, ap, ◌∙◌, ℕ, zero, suc, ◌≤◌, ◌<◌, ◌≡◌, refl, inl, inr, true, false, some, List, [], ◌∷◌, ◌++◌,
  append_assoc, append-nil, arith, ◌==◌, Bool-cases, length, get_elem?, drop, ltb, ltb→le, ltb→lt,
}
use tiny_kv.SkipList.Iter as SkipIter
use tiny_kv.SsTable.Iter as TableIter
use tiny_kv.Iterator.{
  Iterator, Outcome, over_skip_list, over_table, valid, key, contents, next, seek_to_first, value,
  is_tombstone,
}
use tiny_kv.Types.{Entry}
use tiny_kv.Common.Outcome.{fault, ◌>>=◌, ok, throws}
use tiny_kv.SsTable.Search.{get_elem?-some}

unfoldable pub copy_entry : Iterator → Outcome Entry
copy_entry it = key it >>= λ k.
    value it >>= λ v. is_tombstone it >>= λ t. ok (record { key = k; val = v; tombstone = t })

unfoldable pub collect : ℕ → Iterator → List Entry → Outcome (List Entry)
collect zero it out = fault
collect (suc fuel) it out = elim (valid it) [
  | false ↦ ok out
  | true ↦ elim (copy_entry it) [
    | throws x ↦ throws x
    | fault ↦ fault
    | ok e ↦ collect fuel (next it) (out ++ e ∷ [])
  ]
]

-- one round more than entries: the last one finds the end
unfoldable pub materialize : Iterator → Outcome (List Entry)
unfolding collect
materialize it = collect (suc (length (contents it))) (seek_to_first it) []

drop-get_elem? :
    (es : List Entry) (i : ℕ) (e : Entry)
    → get_elem? es i ≡ some e
    → drop i es ≡ e ∷ drop (suc i) es
drop-get_elem? [] i e p = cc
drop-get_elem? (f ∷ es) zero e p = ground arith
drop-get_elem? (f ∷ es) (suc i) e p = drop-get_elem? es i e p

drop_all : (es : List Entry) → drop (length es) es ≡ []
drop_all [] = refl
drop_all (e ∷ es) = drop_all es

-- the entries that an iterator has not passed
unfoldable pub remaining : Iterator → List Entry
remaining (over_skip_list i) = drop i.pos i.table
remaining (over_table i) = drop i.index i.entries

-- the position is an entry's, or the end
abbrev pub InRange : Iterator → Type 0
InRange (over_skip_list i) = i.pos ≤ length i.table
InRange (over_table i) = i.index ≤ length i.entries

-- What a loop over an iterator sees in a round: the end, or the next entry.
abbrev pub Round : Iterator → Type 0
Round it =
    ((remaining it ≡ []) × (valid it ≡ false))
    ⊎ ((e : Entry) × (rest : List Entry) × (remaining it ≡ e ∷ rest)
        × (valid it ≡ true)
        × (key it ≡ ok e.key)
        × (copy_entry it ≡ ok e)
        × (remaining (next it) ≡ rest)
        × InRange (next it))

pub Round-cases : (it : Iterator) → InRange it → Round it
unfolding remaining copy_entry valid next key value is_tombstone SkipIter.valid SkipIter.next
    SkipIter.key SkipIter.value SkipIter.is_tombstone TableIter.valid TableIter.next TableIter.key
    TableIter.value TableIter.is_tombstone
Round-cases (over_skip_list i) h = elim (Bool-cases (i.pos == length i.table)) [
  | inl end ↦
      let same : i.pos ≡ length i.table = ground arith in
      inl (ap (λ (n : ℕ). drop n i.table) same ∙ drop_all i.table, ground (arith, same))
  | inr more ↦
      let (e, p) = get_elem?-some i.table i.pos (ground arith) in
      inr (
        e,
        drop (suc i.pos) i.table,
        drop-get_elem? i.table i.pos e p,
        ground arith,
        ground (arith, p),
        ground (arith, p),
        ground arith,
        ground arith,
      )
]
Round-cases (over_table i) h = elim (Bool-cases (ltb i.index (length i.entries))) [
  | inr end ↦
      let same : i.index ≡ length i.entries =
        omega (arith, ltb→le i.index (length i.entries) end) in
      inl (ap (λ (n : ℕ). drop n i.entries) same ∙ drop_all i.entries, ground arith)
  | inl more ↦
      let (e, p) = get_elem?-some i.entries i.index (ltb→lt i.index (length i.entries) more) in
      inr (
        e,
        drop (suc i.index) i.entries,
        drop-get_elem? i.entries i.index e p,
        ground arith,
        ground (arith, p),
        ground (arith, p),
        ground arith,
        ground arith,
      )
]

pub seek_to_first_lem :
    (it : Iterator) → (remaining (seek_to_first it) ≡ contents it) × InRange (seek_to_first it)
unfolding remaining contents seek_to_first SkipIter.seek_to_first TableIter.seek_to_first
seek_to_first_lem (over_skip_list i) = (refl, omega arith)
seek_to_first_lem (over_table i) = (refl, omega arith)

collect-remaining :
    (fuel : ℕ) (it : Iterator) (out : List Entry)
    → InRange it
    → length (remaining it) < fuel
    → collect fuel it out ≡ ok (out ++ remaining it)
unfolding collect
collect-remaining zero it out h f = absurd (omega arith)
collect-remaining (suc fuel) it out h f = elim (Round-cases it h) [
  | inl (none_left, stops) ↦ ground (arith, none_left, stops, append-nil out)
  | inr (e, rest, there, goes_on, k, copied, after, in_range) ↦ ground (
    arith,
    there,
    goes_on,
    copied,
    after,
    collect-remaining fuel (next it) (out ++ e ∷ []) in_range
        (omega (arith, ap length there, ap length after)),
    append_assoc out (e ∷ []) rest,
  )
]

-- The loop ends and copies what the iterator runs over, in order, whatever its position was.
pub materialize-contents : (it : Iterator) → materialize it ≡ ok (contents it)
unfolding materialize
materialize-contents it =
    let (all, in_range) = seek_to_first_lem it in
    collect-remaining (suc (length (contents it))) (seek_to_first it) [] in_range
      (omega (arith, ap length all))
    ∙ ap ok all
