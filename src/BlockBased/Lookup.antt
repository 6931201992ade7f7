-- ===== src/BlockBased/Lookup.antt =====
-- The scan of a data block finds the key or passes it.
use tiny_kv.Common.{
  ℕ, suc, ◌+◌, ◌-◌, ◌^◌, ◌≤◌, ◌<◌, Ordering, ◌≡◌, refl, sym, ap, ◌∙◌, ◌≢◌, inl, inr, false, Option,
  none, some, List, [], ◌∷◌, ◌++◌, append_assoc, subst, arith, ltb, if◌then◌else◌, le→ltb, Bytes,
  length, All, length-append, All-map,
}
use tiny_kv.Common.Outcome.{Outcome, ok, throws, fault, ◌>>=◌, past_block}
use tiny_kv.Common.Order.{
  compare_bytes, key_lt, KeyLt, gt-of_lt, Compare-cases, lt_trans, compare_bytes-eq, lt-of_gt,
}
use tiny_kv.Types.{Entry, IsSorted, find}
use tiny_kv.BlockBased.Structs.{IndexEntry}
use tiny_kv.BlockBased.Reader.{
  scan, found, passed, Scan, read_entry_from_data_block, seek, read_uint32,
}
use tiny_kv.SsTable.Range.{last}
use tiny_kv.BlockBased.Blocks.{last_key_of, IsBlock}
use tiny_kv.BlockBased.Encode.{
  EntryFits, stored, entry_bytes, block_bytes, read_entry-entry_bytes, read_uint32-be32,
}
use tiny_kv.Common.Words.{be32}
use tiny_kv.BlockBased.Open.{seek_lem}

-- Nothing is found in front of, or behind, the keys of a list.
pub find-append :
    (k : Bytes) (xs ys : List Entry)
    → find k (xs ++ ys) ≡ (elim (find k xs) [ none ↦ find k ys | some e ↦ some e ])
unfolding find
find-append k [] ys = refl
find-append k (x ∷ xs) ys = ground (arith, find-append k xs ys)

pub find_before : (k : Bytes) (es : List Entry) → All (λ e. KeyLt e.key k) es → find k es ≡ none
unfolding find
find_before k [] h = refl
find_before k (e ∷ es) h = ground (arith, find_before k es h.1)

pub find_behind : (k : Bytes) (es : List Entry) → All (λ e. KeyLt k e.key) es → find k es ≡ none
unfolding find
find_behind k [] h = refl
find_behind k (e ∷ es) h = ground (arith, find_behind k es h.1, gt-of_lt k e.key)

pub IsSorted-append :
    (xs ys : List Entry)
    → IsSorted (xs ++ ys)
    → IsSorted xs × IsSorted ys × All (λ x. All (λ y. KeyLt x.key y.key) ys) xs
IsSorted-append [] ys s = (tt, s, tt)
IsSorted-append (x ∷ xs) ys s =
    let (sx, sy, across) = IsSorted-append xs ys s.1 in
    let (first, rest) = All_split (λ (f : Entry). KeyLt x.key f.key) xs ys s.0 in
    ((first, sx), sy, (rest, across))
  where
    All_split : (P : Entry → Type 0) (xs ys : List Entry) → All P (xs ++ ys) → All P xs × All P ys
    All_split P [] ys h = (tt, h)
    All_split P (z ∷ zs) ys h = let (a, b) = All_split P zs ys h.1 in ((h.0, a), b)

-- in order, every entry is at most the last
pub sorted_last :
    (k : Bytes) (es : List Entry)
    → IsSorted es
    → KeyLt (last_key_of es) k
    → All (λ e. KeyLt e.key k) es
unfolding last
sorted_last k [] s h = tt
sorted_last k (e ∷ []) s h = (h, tt)
sorted_last k (e ∷ f ∷ es) s h =
    let rest = sorted_last k (f ∷ es) s.1 h in (lt_trans e.key f.key k s.0.0 rest.0, rest)

pub behind_last :
    (xs ys : List Entry)
    → xs ≢ []
    → All (λ x. All (λ y. KeyLt x.key y.key) ys) xs
    → All (λ y. KeyLt (last_key_of xs) y.key) ys
unfolding last
behind_last [] ys full h = absurd (full refl)
behind_last (x ∷ []) ys full h = h.0
behind_last (x ∷ z ∷ xs) ys full h = behind_last (z ∷ xs) ys (λ e. cc) h.1

-- `k` is at most `m`
pub not_gt_lt : (k m j : Bytes) → key_lt m k ≡ false → KeyLt m j → KeyLt k j
not_gt_lt k m j h l = elim (Compare-cases k m) [
  | inl lt ↦ lt_trans k m j lt l
  | inr (inl eq) ↦ subst (λ (t : Bytes). KeyLt t j) (sym (compare_bytes-eq k m eq)) l
  | inr (inr gt) ↦ absurd (ground (arith, h, lt-of_gt k m gt))
]

-- How the scan of a block ends: at the entry with the key, or at none with no more than the block
-- read.
abbrev pub Scanned : Option Entry → Bytes → Outcome Scan → Type 0
Scanned (some e) after (ok (found f)) = f ≡ stored e
Scanned none after (ok (passed end)) = length after ≤ length end
Scanned _ after _ = ⊥

scan_next :
    (n : ℕ) (k : Bytes) (e : Entry) (rest : Bytes)
    → EntryFits e
    → scan (suc n) k (entry_bytes e ++ rest) ≡ (elim (compare_bytes e.key k) [
      | Ordering.eq ↦ ok (found (stored e))
      | Ordering.gt ↦ ok (passed rest)
      | Ordering.lt ↦ scan n k rest
    ])
unfolding scan
scan_next n k e rest f = ground (arith, read_entry-entry_bytes e rest f)

Scanned-at :
    (o o' : Option Entry) (after : Bytes) (r r' : Outcome Scan)
    → o ≡ o'
    → r ≡ r'
    → Scanned o' after r'
    → Scanned o after r
Scanned-at o o' after r r' p q h =
    subst (λ (t : Option Entry). Scanned t after r) (sym p)
      (subst (λ (t : Outcome Scan). Scanned o' after t) (sym q) h)

scan-Scanned :
    (es : List Entry) (k after : Bytes)
    → IsSorted es
    → All EntryFits es
    → Scanned (find k es) after (scan (length es) k (block_bytes es ++ after))
scan-Scanned [] k after s f = unfold scan find in (omega arith)
scan-Scanned (e ∷ es) k after s f = elim (Compare-cases e.key k) [
  | inl lt ↦
      Scanned-at (find k (e ∷ es)) (find k es) after run (scan (length es) k rest)
        (unfold find in ground (arith, lt)) (round ∙ ground (arith, lt))
        (scan-Scanned es k after s.1 f.1)
  | inr (inl eq) ↦
      Scanned-at (find k (e ∷ es)) (some e) after run (ok (found (stored e)))
        (unfold find in ground (arith, eq)) (round ∙ ground (arith, eq)) refl
  | inr (inr gt) ↦
      Scanned-at (find k (e ∷ es)) none after run (ok (passed rest))
        (find_behind k (e ∷ es) (ahead (lt-of_gt e.key k gt))) (round ∙ ground (arith, gt))
        (omega (arith, length-append (block_bytes es) after))
]
  where
    rest : Bytes
    rest = block_bytes es ++ after

    run : Outcome Scan
    run = scan (suc (length es)) k (block_bytes (e ∷ es) ++ after)

    round : run ≡ (elim (compare_bytes e.key k) [
      | Ordering.eq ↦ ok (found (stored e))
      | Ordering.gt ↦ ok (passed rest)
      | Ordering.lt ↦ scan (length es) k rest
    ])
    round =
        ap (scan (suc (length es)) k) (append_assoc (entry_bytes e) (block_bytes es) after)
        ∙ scan_next (length es) k e rest f.0

    ahead : KeyLt k e.key → All (λ g. KeyLt k g.key) (e ∷ es)
    ahead lt = (lt, All-map _ _ es (λ g h. lt_trans k e.key g.key lt h) s.0)

abbrev pub stored_option : Option Entry → Option Entry
stored_option none = none
stored_option (some e) = some (stored e)

-- the end of `readEntryFromDataBlock`
finish_scan :
    (o : Option Entry) (after start : Bytes) (size : ℕ) (r : Outcome Scan)
    → Scanned o after r
    → length start ≤ size + length after
    → (r >>= λ q. elim q [
      | found e ↦ ok (some e)
      | passed end ↦ if ltb size (length start - length end) then throws past_block else ok none
    ])
      ≡ ok (stored_option o)
finish_scan (some e) after start size (ok (found f)) h l = ap (λ (g : Entry). ok (some g)) h
finish_scan (some e) after start size (ok (passed end)) h l = absurd h
finish_scan (some e) after start size (throws x) h l = absurd h
finish_scan (some e) after start size fault h l = absurd h
finish_scan none after start size (ok (found f)) h l = absurd h
finish_scan none after start size (ok (passed end)) h l =
    ground (arith, le→ltb size (length start - length end))
finish_scan none after start size (throws x) h l = absurd h
finish_scan none after start size fault h l = absurd h

-- The lookup in a block is the lookup in the entries that it was written from.
pub read_entry_from_data_block-find :
    (file : Bytes) (i : IndexEntry) (es : List Entry) (k : Bytes)
    → IsBlock file i es
    → IsSorted es
    → length file < 2 ^ 63
    → read_entry_from_data_block file i.block k ≡ ok (stored_option (find k es))
unfolding read_entry_from_data_block
read_entry_from_data_block-find file i es k b s small =
    let counted : Bytes = be32 (length es) ++ block_bytes es in
    let start : Bytes = counted ++ b.after in
    let rest : Bytes = block_bytes es ++ b.after in
    let near : length b.before < 2 ^ 63 =
      omega (arith, ap length b.placed, length-append b.before start) in
    let sought : seek file i.block.offset ≡ ok start =
      ap (seek file) b.offset_lem
      ∙ ap (λ (f : Bytes). seek f (length b.before)) b.placed
      ∙ seek_lem b.before start near in
    let count : read_uint32 start ≡ ok (length es, rest) =
      ap read_uint32 (append_assoc (be32 (length es)) (block_bytes es) b.after)
      ∙ read_uint32-be32 (length es) rest b.counted in
    ground (
      arith,
      sought,
      count,
      finish_scan (find k es) b.after start i.block.size (scan (length es) k rest)
          (scan-Scanned es k b.after s b.fits)
          (omega (arith, b.size_lem, length-append counted b.after)),
    )
