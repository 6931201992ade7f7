-- ===== src/BlockBased/Loop.antt =====
-- The loop of `writeTable` keeps the blocks in order, and no count of a block wraps.
use tiny_kv.Common.{
  ℕ, zero, suc, ◌+◌, ◌<◌, ◌≡◌, refl, sym, ap, ◌∙◌, inl, inr, Bool, true, false, ◌&&◌, List, [], ◌∷◌,
  ◌++◌, append_assoc, append-nil, subst, arith, ltb, Bool-cases, Bytes, length, length-append,
  All-append, ◌≤◌,
}
use tiny_kv.Common.Outcome.{Outcome, ok, throws, fault, string_too_large}
use tiny_kv.Types.{Entry}
use tiny_kv.Common.Exec.{Exec, continue}
use tiny_kv.Iterator
use tiny_kv.Iterator.{Iterator, contents}
use tiny_kv.BlockBased.Writer.{
  Builder, flush_data_block, make_room, place_entry, add_entry, add_loop, append_entry, new_builder,
  data_block_max_size,
}
use tiny_kv.BlockBased.Blocks.{Built, max_block_entries, flatten, last_key_of-snoc}
use tiny_kv.Iterator.{Iterator}
use tiny_kv.BlockBased.Encode.{
  entry_bytes, append_entry_lem, block_bytes, length-block_bytes, EntryFits, length-entry_bytes,
  block_bytes-append, TooLong, TooLong-at, TooLong-append,
}
use tiny_kv.Iterator.Collect.{InRange, remaining, copy_entry, Round-cases, seek_to_first_lem}
use tiny_kv.BlockBased.Build.{flush_data_block-Built}
use tiny_kv.BlockBased.Filter.Bits.{add_key_to_filter-FilterOf, zeros-FilterOf}

abbrev is_over : Bytes → Builder → Bool
is_over encoded b =
    ltb 9 b.entries_in_block && ltb data_block_max_size (length b.data_block + length encoded)

make_room_over :
    (encoded : Bytes) (b : Builder)
    → is_over encoded b ≡ true
    → make_room encoded b ≡ flush_data_block b
unfolding make_room
make_room_over encoded b h = ground (arith, h)

make_room_under :
    (encoded : Bytes) (b : Builder) → is_over encoded b ≡ false → make_room encoded b ≡ b
unfolding make_room
make_room_under encoded b h = ground (arith, h)

-- Before an entry is placed there is room for it in the count: the current block is empty, has nine
-- entries at most, or has its size below the limit together with the entry's.
make_room-Built :
    (e : Entry) (b : Builder) (done : List Entry)
    → Built b done
    → (k : Built (make_room (entry_bytes e) b) done) × (length k.cur < max_block_entries)
make_room-Built e b done h = elim (Bool-cases (is_over (entry_bytes e) b)) [
  | inl over ↦
      let (k, empty) = flush_data_block-Built b done h in
      subst (λ (c : Builder). (k : Built c done) × (length k.cur < max_block_entries))
        (sym (make_room_over (entry_bytes e) b over)) (k, omega (arith, ap length empty))
  | inr under ↦
      subst (λ (c : Builder). (k : Built c done) × (length k.cur < max_block_entries))
        (sym (make_room_under (entry_bytes e) b under)) (h, room under)
]
  where
    room : is_over (entry_bytes e) b ≡ false → length h.cur < max_block_entries
    room under = ground (
      arith,
      under,
      h.count_lem,
      ap length h.block_lem,
      length-block_bytes h.cur,
      length-entry_bytes e,
    )

place_entry-Built :
    (e : Entry) (b : Builder) (done : List Entry) (h : Built b done)
    → length h.cur < max_block_entries
    → EntryFits e
    → Built (place_entry e (entry_bytes e) b) (done ++ e ∷ [])
unfolding place_entry
place_entry-Built e b done h room f = record {
  blocks = h.blocks;
  cur = h.cur ++ e ∷ [];
  indexed = h.indexed;
  whole =
      sym (append_assoc (flatten h.blocks) h.cur (e ∷ []))
      ∙ ap (λ (t : List Entry). t ++ e ∷ []) h.whole;
  block_lem =
      ap (λ (t : Bytes). t ++ entry_bytes e) h.block_lem
      ∙ ap (λ (t : Bytes). block_bytes h.cur ++ t) (sym (append-nil (entry_bytes e)))
      ∙ sym (block_bytes-append h.cur (e ∷ []));
  count_lem = omega (arith, h.count_lem, h.small, length-append h.cur (e ∷ []));
  small = omega (arith, length-append h.cur (e ∷ []));
  fits = All-append EntryFits h.cur (e ∷ []) h.fits (f, tt);
  last_lem = sym (last_key_of-snoc h.cur e);
  max_lem = sym (last_key_of-snoc done e);
  filter_lem = add_key_to_filter-FilterOf b.filter_bitset done e h.filter_lem;
}

-- How a part of the loop may end: with the entries in place, or on a string that is too long.
abbrev pub Added : List Entry → Outcome (Unit {0}) × Builder → Type 0
Added done (ok _, b) = Built b done
Added done (throws x, b) = (x ≡ string_too_large) × TooLong done
Added done (fault, b) = ⊥

add_entry_fits :
    (e : Entry) (b : Builder)
    → append_entry e ≡ ok (entry_bytes e)
    → add_entry e b ≡ (ok tt, place_entry e (entry_bytes e) (make_room (entry_bytes e) b))
unfolding add_entry
add_entry_fits e b h = ground (arith, h)

add_entry_refused :
    (e : Entry) (b : Builder)
    → append_entry e ≡ throws string_too_large
    → add_entry e b ≡ (throws string_too_large, b)
unfolding add_entry
add_entry_refused e b h = ground (arith, h)

add_entry-Added :
    (e : Entry) (b : Builder) (done : List Entry)
    → Built b done
    → Added (done ++ e ∷ []) (add_entry e b)
add_entry-Added e b done h = elim (append_entry_lem e) [
  | inr (big, long) ↦
      subst (Added (done ++ e ∷ [])) (sym (add_entry_refused e b big))
        (refl, TooLong-at done e [] long)
  | inl (appended, f) ↦
      let (k, room) = make_room-Built e b done h in
      subst (Added (done ++ e ∷ [])) (sym (add_entry_fits e b appended))
        (place_entry-Built e (make_room (entry_bytes e) b) done k room f)
]

Added-continue :
    (done all : List Entry) (r : Outcome (Unit {0}) × Builder) (f : Exec Builder (Unit {0}))
    → Added done r
    → (TooLong done → TooLong all)
    → ((b : Builder) → Built b done → Added all (f b))
    → Added all (continue r.0 (λ _. f) r.1)
Added-continue done all (ok _, b) f h m k = k b h
Added-continue done all (throws x, b) f (same, long) m k = (same, m long)
Added-continue done all (fault, b) f h m k = absurd h

add_loop_end :
    (fuel : ℕ) (it : Iterator) (b : Builder)
    → Iterator.valid it ≡ false
    → add_loop (suc fuel) it b ≡ (ok tt, b)
unfolding add_loop
add_loop_end fuel it b h = ground (arith, h)

add_loop-next :
    (fuel : ℕ) (it : Iterator) (b : Builder) (e : Entry)
    → Iterator.valid it ≡ true
    → copy_entry it ≡ ok e
    → add_loop (suc fuel) it b
      ≡ continue (add_entry e b).0 (λ _. add_loop fuel (Iterator.next it)) (add_entry e b).1
unfolding add_loop
add_loop-next fuel it b e h k = ground (arith, h, k)

-- The loop ends, and has placed the entries that were ahead, unless one of their strings is too long.
pub add_loop-Added :
    (fuel : ℕ) (it : Iterator) (b : Builder) (done : List Entry)
    → InRange it
    → length (remaining it) < fuel
    → Built b done
    → Added (done ++ remaining it) (add_loop fuel it b)
add_loop-Added zero it b done r f h = absurd (omega arith)
add_loop-Added (suc fuel) it b done r f h = elim (Round-cases it r) [
  | inl (none_left, stops) ↦
      subst (Added (done ++ remaining it)) (sym (add_loop_end fuel it b stops))
        (rw none_left (rw append-nil h))
  | inr (e, rest, there, goes_on, k, copied, after, in_range) ↦
      subst (Added (done ++ remaining it)) (sym (add_loop-next fuel it b e goes_on copied)) (
        Added-continue (done ++ e ∷ []) (done ++ remaining it) (add_entry e b)
          (add_loop fuel (Iterator.next it)) (add_entry-Added e b done h)
          (λ long.
            subst TooLong (rw there (append_assoc done (e ∷ []) rest))
              (TooLong-append (done ++ e ∷ []) rest long))
          λ b' h'.
            subst (λ (t : List Entry). Added t (add_loop fuel (Iterator.next it) b'))
              (rw (after, there) (append_assoc done (e ∷ []) rest))
              (add_loop-Added fuel (Iterator.next it) b' (done ++ e ∷ []) in_range
                (omega (arith, ap length there, ap length after)) h'))
]

pub new_builder-Built : Built new_builder []
unfolding new_builder
new_builder-Built = record {
  blocks = [];
  cur = [];
  indexed = tt;
  whole = refl;
  block_lem = refl;
  count_lem = refl;
  small = omega arith;
  fits = tt;
  last_lem = refl;
  max_lem = refl;
  filter_lem = zeros-FilterOf;
}

add_loop_count :
    (done : List Entry) (r : Outcome (Unit {0}) × Builder)
    → Added done r
    → r.0 ≡ ok tt
    → (r.1.entries_in_block ≤ max_block_entries) × (length r.1.filter_bitset ≡ 1024)
add_loop_count done (ok _, b) h e = (omega (arith, h.count_lem, h.small), h.filter_lem.size)
add_loop_count done (throws x, b) h e = cc
add_loop_count done (fault, b) h e = cc

-- Whatever entries are written, the count of a block, which has 32 bits, is at most 455 when the
-- loop ends, though it is only ever reset by a flush; and the filter keeps its 1024 bytes.
pub add_loop_bounded :
    (it : Iterator)
    → (add_loop (suc (length (contents it))) (Iterator.seek_to_first it) new_builder).0 ≡ ok tt
    → let b = (add_loop (suc (length (contents it))) (Iterator.seek_to_first it) new_builder).1 in
      (b.entries_in_block ≤ max_block_entries) × (length b.filter_bitset ≡ 1024)
add_loop_bounded it e =
    let (all, in_range) = seek_to_first_lem it in
    let first : Iterator = Iterator.seek_to_first it in
    add_loop_count (remaining first) (add_loop (suc (length (contents it))) first new_builder)
      (add_loop-Added (suc (length (contents it))) first new_builder [] in_range
        (omega (arith, ap length all)) new_builder-Built)
      e
