-- ===== src/BlockBased/Written.antt =====
-- The whole of `writeTable`'s writing: the table it leaves, or how it fails.
use tiny_kv.Common.{
  ℕ, suc, ◌+◌, ◌^◌, ◌≤◌, ◌<◌, ◌≡◌, refl, sym, ap, ◌∙◌, ◌≢◌, ◌⊎◌, inl, inr, true, List, [], ◌∷◌,
  ◌++◌, append-nil, subst, arith, Bytes, length, All, length-append, All-append,
}
use tiny_kv.Common.Outcome.{Outcome, ok, throws, fault, string_too_large, too_many_entries}
use tiny_kv.Types.{Entry}
use tiny_kv.BlockBased.Structs.{IndexEntry}
use tiny_kv.BlockBased.Writer.{
  Builder, build, finish, finish_loop, flush_data_block, new_builder, add_loop, write_tail,
}
use tiny_kv.BlockBased.Tail.{file_bytes, KeyFits, write_tail_lem}
use tiny_kv.Iterator
use tiny_kv.Iterator.{Iterator, contents}
use tiny_kv.SsTable.Range.{last}
use tiny_kv.BlockBased.Blocks.{Indexed, flatten, last_key_of, Built}
use tiny_kv.BlockBased.Encode.{EntryFits, IndexFits, Fits, HandleFits, block_bytes, TooLong}
use tiny_kv.Common.Words.{be32, u32_mod}
use tiny_kv.BlockBased.Build.{flush_data_block-Built}
use tiny_kv.BlockBased.Loop.{Added, add_loop-Added, new_builder-Built}
use tiny_kv.Iterator.Collect.{seek_to_first_lem, Round-cases}
use tiny_kv.SsTable.RoundTrip.{metadata}
use tiny_kv.BlockBased.Filter.Bits.{FilterOf}

pub last-Fits : (es : List Entry) → es ≢ [] → All EntryFits es → Fits (last_key_of es)
unfolding last
last-Fits [] full f = absurd (full refl)
last-Fits (e ∷ []) full f = f.0.key_fits
last-Fits (e ∷ g ∷ es) full f = last-Fits (g ∷ es) (λ p. cc) f.1

pub Indexed-All :
    (file : Bytes) (is : List IndexEntry) (blocks : List (List Entry))
    → Indexed file is blocks
    → All EntryFits (flatten blocks) × All KeyFits is × (length file < 2 ^ 63 → All IndexFits is)
Indexed-All file [] [] h = (tt, tt, λ s. tt)
Indexed-All file [] (es ∷ blocks) h = absurd h
Indexed-All file (i ∷ is) [] h = absurd h
Indexed-All file (i ∷ is) (es ∷ blocks) (b, h) =
    let (fits, keys, indexes) = Indexed-All file is blocks h in
    let key : KeyFits i = subst Fits (sym b.last_lem) (last-Fits es b.full b.fits) in
    (
      All-append EntryFits es (flatten blocks) b.fits fits,
      (key, keys),
      λ s. (record { key_fits = key; block_fits = handle s }, indexes s),
    )
  where
    handle : length file < 2 ^ 63 → HandleFits i.block
    handle s =
        let counted : Bytes = be32 (length es) ++ block_bytes es in
        let whole : length file ≡ length b.before + (length counted + length b.after) = omega (
          arith,
          ap length b.placed,
          length-append b.before (counted ++ b.after),
          length-append counted b.after,
        ) in
        record {
          offset_fits = omega (arith, whole, b.offset_lem);
          size_fits = omega (arith, whole, b.size_lem);
        }

-- there is an entry at least in each block
Indexed-length :
    (file : Bytes) (is : List IndexEntry) (blocks : List (List Entry))
    → Indexed file is blocks
    → length is ≤ length (flatten blocks)
Indexed-length file [] [] h = omega arith
Indexed-length file [] (es ∷ blocks) h = absurd h
Indexed-length file (i ∷ is) [] h = absurd h
Indexed-length file (i ∷ is) ([] ∷ blocks) (b, h) = absurd (b.full refl)
Indexed-length file (i ∷ is) ((e ∷ es) ∷ blocks) (b, h) =
    omega (arith, length-append es (flatten blocks), Indexed-length file is blocks h)

-- A file that `build` may leave: the blocks of the entries, and the tail that leads to them.
pub record IsTable (e : Entry) (es : List Entry) (timestamp file_num : ℕ) (file : Bytes)
    : Type 0 where
  pub output : Bytes
  pub index : List IndexEntry
  pub bitset : Bytes
  pub blocks : List (List Entry)
  pub indexed : Indexed output index blocks
  pub whole : flatten blocks ≡ e ∷ es
  pub filter_lem : FilterOf bitset (e ∷ es)
  pub few : length index < u32_mod
  pub file_lem : file ≡ file_bytes output (metadata e es timestamp file_num) index bitset

-- How `build` may end: with a table, or on one of two limits.
abbrev pub Ended : Entry → List Entry → ℕ → ℕ → Outcome (Unit {0}) × Bytes → Type 0
Ended e es ts fn (ok _, file) = IsTable e es ts fn file
Ended e es ts fn (throws x, file) =
    ((x ≡ string_too_large) × TooLong (e ∷ es))
    ⊎ ((x ≡ too_many_entries) × (u32_mod ≤ length (e ∷ es)))
Ended e es ts fn (fault, file) = ⊥

finish_lem :
    (min_key : Bytes) (ts fn : ℕ) (b : Builder) (max_key : Bytes)
    → (flush_data_block b).max_key ≡ max_key
    → finish min_key ts fn b
      ≡ write_tail
          (record { file_number = fn; timestamp = ts; min_key = min_key; max_key = max_key })
          (flush_data_block b).index
          (flush_data_block b).filter_bitset
          (flush_data_block b).output
unfolding finish
finish_lem min_key ts fn b max_key h = rw h refl

finish-Ended :
    (e : Entry) (es : List Entry) (ts fn : ℕ) (b : Builder)
    → Built b (e ∷ es)
    → Ended e es ts fn (finish e.key ts fn b)
finish-Ended e es ts fn b h =
    let (k, empty) = flush_data_block-Built b (e ∷ es) h in
    let b' : Builder = flush_data_block b in
    let whole : flatten k.blocks ≡ e ∷ es =
      sym (append-nil (flatten k.blocks))
      ∙ ap (λ (t : List Entry). flatten k.blocks ++ t) (sym empty)
      ∙ k.whole in
    let (fits, keys, indexes) = Indexed-All b'.output b'.index k.blocks k.indexed in
    let all_fit : All EntryFits (e ∷ es) = subst (All EntryFits) whole fits in
    let run = finish_lem e.key ts fn b (last_key_of (e ∷ es)) k.max_lem in
    elim (write_tail_lem (metadata e es ts fn) b'.index b'.filter_bitset b'.output
      all_fit.0.key_fits (last-Fits (e ∷ es) (λ p. cc) all_fit) keys k.filter_lem.size) [
        | inl (written, few) ↦ subst (Ended e es ts fn) (sym (run ∙ written)) (record {
          output = b'.output;
          index = b'.index;
          bitset = b'.filter_bitset;
          blocks = k.blocks;
          indexed = k.indexed;
          whole = whole;
          filter_lem = k.filter_lem;
          few = few;
          file_lem = refl;
        })
        | inr (many, over) ↦ subst (Ended e es ts fn) (sym (run ∙ many)) (
            inr (
              refl,
              omega (
                arith,
                over,
                ap length whole,
                Indexed-length b'.output b'.index k.blocks k.indexed,
              ),
            ))
      ]

finish_loop-Ended :
    (e : Entry) (es : List Entry) (ts fn : ℕ) (r : Outcome (Unit {0}) × Builder)
    → Added (e ∷ es) r
    → Ended e es ts fn (finish_loop e.key ts fn r)
unfolding finish_loop
finish_loop-Ended e es ts fn (ok _, b) h = finish-Ended e es ts fn b h
finish_loop-Ended e es ts fn (throws x, b) h = inl h
finish_loop-Ended e es ts fn (fault, b) h = absurd h

build_lem :
    (it : Iterator) (ts fn : ℕ) (e : Entry)
    → Iterator.valid (Iterator.seek_to_first it) ≡ true
    → Iterator.key (Iterator.seek_to_first it) ≡ ok e.key
    → build it ts fn
      ≡ finish_loop e.key ts fn
          (add_loop (suc (length (contents it))) (Iterator.seek_to_first it) new_builder)
unfolding build
build_lem it ts fn e v k = ground (arith, v, k)

-- The writing always ends, and for entries that are there: with their table, or on a string or an
-- index that its length field does not hold.
pub build-Ended :
    (it : Iterator) (ts fn : ℕ) (e : Entry) (es : List Entry)
    → contents it ≡ e ∷ es
    → Ended e es ts fn (build it ts fn)
build-Ended it ts fn e es c =
    let (all, in_range) = seek_to_first_lem it in
    let first = Iterator.seek_to_first it in
    elim (Round-cases first in_range) [
      | inl (none_left, stops) ↦ absurd (ground (arith, none_left, all, c))
      | inr (f, rest, there, goes_on, key_lem, copied, after, next_in) ↦
          let same : f ∷ rest ≡ e ∷ es = sym there ∙ all ∙ c in
          let key_e : Iterator.key first ≡ ok e.key = ground (arith, key_lem, same) in
          subst (Ended e es ts fn) (sym (build_lem it ts fn e goes_on key_e)) (
            finish_loop-Ended e es ts fn (add_loop (suc (length (contents it))) first new_builder) (
              subst
                (λ (t : List Entry).
                  Added t (add_loop (suc (length (contents it))) first new_builder))
                (all ∙ c)
                (add_loop-Added (suc (length (contents it))) first new_builder [] in_range
                  (omega (arith, ap length all)) new_builder-Built)))
    ]
