-- ===== src/BlockBased/WriteTable.antt =====
-- `writeTable` as a whole: the file that it writes, opened again.
use tiny_kv.Common.{
  ℕ, ◌^◌, ◌≤◌, ◌<◌, ◌≡◌, ◌≢◌, refl, sym, ◌∙◌, ◌⊎◌, inl, inr, true, false, List, ◌∷◌, subst, arith,
  ltb→lt, Bool-cases, Bytes, length, take, [], some,
}
use tiny_kv.Common.Outcome.{
  Outcome, ok, throws, fault, write_failed, create_failed, string_too_large, too_many_entries,
  empty_table,
}
use tiny_kv.Common.Order.{key_eq_self}
use tiny_kv.Types.{Entry, IsSorted}
use tiny_kv.BlockBased.Reader
use tiny_kv.BlockBased.Reader.{BlockReader, open_file}
use tiny_kv.BlockBased.Writer.{build}
use tiny_kv.Iterator.{Iterator, contents}
use tiny_kv.Disk.{Disk, store, files-store}
use tiny_kv.BlockBased.{write_table, close_table, file_fits}
use tiny_kv.BlockBased.Holds.{HoldsBlocks}
use tiny_kv.Iterator
use tiny_kv.BlockBased.Written.{IsTable, Ended, build-Ended}
use tiny_kv.Common.Words.{u64_mod, u32_mod}
use tiny_kv.Iterator.Collect.{seek_to_first_lem, Round-cases}
use tiny_kv.BlockBased.Files.{open_table-IsTable, StoresBlocks}
use tiny_kv.BlockBased.Encode.{TooLong}
use tiny_kv.BlockBased.Filter.Bits.{FilterOf}

-- How a write of entries may end: with a reader that answers for them, or with an exception.
abbrev pub Written : Disk → Bytes → Entry → List Entry → ℕ → ℕ → Outcome BlockReader × Disk → Type 0
Written d path e es ts fn (ok r, d') =
    HoldsBlocks d' r (e ∷ es)
    × (r.meta.timestamp ≡ ts)
    × (r.meta.file_number ≡ fn)
    × FilterOf r.filter.bitset (e ∷ es)
    × StoresBlocks d' path (e ∷ es)
Written d path e es ts fn (throws x, d') =
    ((x ≡ create_failed) × (d.can_create path ≡ false))
    ⊎ ((x ≡ string_too_large) × TooLong (e ∷ es))
    ⊎ ((x ≡ too_many_entries) × (u32_mod ≤ length (e ∷ es)))
    ⊎ ((x ≡ write_failed)
        × ((out : Bytes) × IsTable e es ts fn out × (file_fits d path out ≡ false)))
Written d path e es ts fn (fault, d') = ⊥

close_table_fits :
    (d : Disk) (path out : Bytes)
    → file_fits d path out ≡ true
    → close_table d path (ok tt, out)
      ≡ (Reader.open_table (store d path out) path, store d path out)
unfolding close_table
close_table_fits d path out h = ground (arith, h)

close_table_full :
    (d : Disk) (path out : Bytes)
    → file_fits d path out ≡ false
    → close_table d path (ok tt, out) ≡ (throws write_failed, store d path (take (d.room path) out))
unfolding close_table
close_table_full d path out h = ground (arith, h)

opened :
    (d : Disk) (path : Bytes) (e : Entry) (es : List Entry) (ts fn : ℕ) (file : Bytes)
    → IsTable e es ts fn file
    → IsSorted (e ∷ es)
    → ts < u64_mod
    → fn < u64_mod
    → length file < 2 ^ 63
    → Written d path e es ts fn (Reader.open_table (store d path file) path, store d path file)
opened d path e es ts fn file t s h k small =
    let there : (store d path file).files path ≡ some file =
      ground (arith, files-store d path file path, key_eq_self path) in
    let (r, back, holds, ts_lem, fn_lem, covers) =
      open_table-IsTable (store d path file) path e es ts fn file there t s h k small in
    subst (λ (o : Outcome BlockReader). Written d path e es ts fn (o, store d path file)) (sym back)
      (
        holds,
        ts_lem,
        fn_lem,
        covers,
        record {
          first = e;
          rest = es;
          es_lem = refl;
          timestamp = ts;
          file_num = fn;
          file = file;
          there = there;
          table = t;
          sorted = s;
          timestamp_fits = h;
          file_num_fits = k;
          small = small;
        },
      )

small_of_fits : (d : Disk) (path out : Bytes) → file_fits d path out ≡ true → length out < 2 ^ 63
unfolding file_fits
small_of_fits d path out h = ground (arith, ltb→lt (length out) (2 ^ 63))

close_table-Written :
    (d : Disk) (path : Bytes) (e : Entry) (es : List Entry) (ts fn : ℕ)
    (r : Outcome (Unit {0}) × Bytes)
    → Ended e es ts fn r
    → IsSorted (e ∷ es)
    → ts < u64_mod
    → fn < u64_mod
    → Written d path e es ts fn (close_table d path r)
close_table-Written d path e es ts fn (throws x, out) (inl long) s h k =
    unfold close_table in inr (inl long)
close_table-Written d path e es ts fn (throws x, out) (inr many) s h k =
    unfold close_table in inr (inr (inl many))
close_table-Written d path e es ts fn (fault, out) t s h k = absurd t
close_table-Written d path e es ts fn (ok _, out) t s h k =
    elim (Bool-cases (file_fits d path out)) [
      | inl fits ↦
          subst (Written d path e es ts fn) (sym (close_table_fits d path out fits))
            (opened d path e es ts fn out t s h k (small_of_fits d path out fits))
      | inr full ↦
          subst (Written d path e es ts fn) (sym (close_table_full d path out full))
            (inr (inr (inr (refl, (out, t, full)))))
    ]

pub write_table_open :
    (d : Disk) (path : Bytes) (it : Iterator) (ts fn : ℕ)
    → d.can_create path ≡ true
    → write_table d path it ts fn ≡ close_table d path (build it ts fn)
unfolding write_table
write_table_open d path it ts fn h = ground (arith, h)

pub write_table_refused :
    (d : Disk) (path : Bytes) (it : Iterator) (ts fn : ℕ)
    → d.can_create path ≡ false
    → write_table d path it ts fn ≡ (throws create_failed, d)
unfolding write_table
write_table_refused d path it ts fn h = ground (arith, h)

-- A write of entries in key order, one at least, with a timestamp and a file number of 64 bits,
-- always ends. It returns a reader that answers for them from the file, with the metadata it was
-- given and a filter in which every bit of their keys is set, and the file is one that a later
-- start opens again. Or it throws, and then for its reason: the file cannot be made; or a key, or
-- the value of an entry that is no tombstone, has 2 ^ 32 bytes or more; or there are 2 ^ 32 entries
-- or more, too many for the index; or the bytes of the table do not fit the device or reach 2 ^ 63.
pub write_table-Written :
    (d : Disk) (path : Bytes) (it : Iterator) (ts fn : ℕ) (e : Entry) (es : List Entry)
    → contents it ≡ e ∷ es
    → IsSorted (e ∷ es)
    → ts < u64_mod
    → fn < u64_mod
    → Written d path e es ts fn (write_table d path it ts fn)
write_table-Written d path it ts fn e es c s h k = elim (Bool-cases (d.can_create path)) [
  | inl can ↦
      subst (Written d path e es ts fn) (sym (write_table_open d path it ts fn can))
        (close_table-Written d path e es ts fn (build it ts fn) (build-Ended it ts fn e es c) s h k)
  | inr cannot ↦
      subst (Written d path e es ts fn) (sym (write_table_refused d path it ts fn cannot))
        (inl (refl, cannot))
]

-- Of no entries it throws, and leaves an empty file.
pub write_table_empty :
    (d : Disk) (path : Bytes) (it : Iterator) (ts fn : ℕ)
    → contents it ≡ []
    → d.can_create path ≡ true
    → write_table d path it ts fn ≡ (throws empty_table, store d path (take (d.room path) []))
unfolding build close_table
write_table_empty d path it ts fn c can =
    let (all, in_range) = seek_to_first_lem it in
    elim (Round-cases (Iterator.seek_to_first it) in_range) [
      | inl (none_left, stops) ↦ write_table_open d path it ts fn can ∙ ground (arith, stops)
      | inr (f, rest, there, goes_on, key_lem, copied, after, next_in) ↦
          absurd (ground (arith, there, all, c))
    ]

pub write_table-ok :
    (d : Disk) (path : Bytes) (it : Iterator) (ts fn : ℕ) (r : BlockReader)
    → (write_table d path it ts fn).0 ≡ ok r
    → IsSorted (contents it)
    → ts < u64_mod
    → fn < u64_mod
    → HoldsBlocks (write_table d path it ts fn).1 r (contents it)
write_table-ok d path it ts fn r w s h k = by_contents (contents it) refl s
  where
    returned :
        (e : Entry) (es : List Entry) (o : Outcome BlockReader × Disk)
        → Written d path e es ts fn o
        → o.0 ≡ ok r
        → HoldsBlocks o.1 r (e ∷ es)
    returned e es (ok q, d') (holds, ts_lem, fn_lem, covers, stored) p =
        subst (λ (z : BlockReader). HoldsBlocks d' z (e ∷ es)) (ground (arith, p)) holds
    returned e es (throws x, d') wr p = cc
    returned e es (fault, d') wr p = cc

    by_contents :
        (es : List Entry)
        → contents it ≡ es
        → IsSorted es
        → HoldsBlocks (write_table d path it ts fn).1 r es
    by_contents [] c s = elim (Bool-cases (d.can_create path)) [
      | inl can ↦ absurd (ground (arith, write_table_empty d path it ts fn c can, w))
      | inr cannot ↦ absurd (ground (arith, write_table_refused d path it ts fn cannot, w))
    ]
    by_contents (e ∷ es) c s =
        returned e es (write_table d path it ts fn)
          (write_table-Written d path it ts fn e es c s h k) w

pub write_table-ne_fault :
    (d : Disk) (path : Bytes) (it : Iterator) (ts fn : ℕ)
    → IsSorted (contents it)
    → ts < u64_mod
    → fn < u64_mod
    → (write_table d path it ts fn).0 ≢ fault
write_table-ne_fault d path it ts fn s h k = by_contents (contents it) refl s
  where
    returned :
        (e : Entry) (es : List Entry) (o : Outcome BlockReader × Disk)
        → Written d path e es ts fn o
        → o.0 ≢ fault
    returned e es (ok q, d') w p = cc
    returned e es (throws x, d') w p = cc
    returned e es (fault, d') w p = absurd w

    by_contents :
        (es : List Entry) → contents it ≡ es → IsSorted es → (write_table d path it ts fn).0 ≢ fault
    by_contents [] c s p = elim (Bool-cases (d.can_create path)) [
      | inl can ↦ ground (arith, write_table_empty d path it ts fn c can)
      | inr cannot ↦ ground (arith, write_table_refused d path it ts fn cannot)
    ]
    by_contents (e ∷ es) c s p =
        returned e es (write_table d path it ts fn)
          (write_table-Written d path it ts fn e es c s h k) p
