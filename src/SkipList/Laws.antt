-- ===== src/SkipList/Laws.antt =====
-- The map laws of `set` and `get`, and the key order that `set` keeps.
use tiny_kv.Common.{
  ◌+◌, ◌≤◌, ◌≡◌, refl, none, some, List, [], ◌∷◌, arith, if◌then◌else◌, Bytes, length, All, All-map,
}
use tiny_kv.Common.Order.{key_eq, KeyLt, compare_bytes-eq, lt-of_gt, gt-of_lt, lt_trans}
use tiny_kv.Types.{Entry, IsSorted, find}
use tiny_kv.SkipList.{SkipList, insert, set, get}

pub find-insert :
    (j : Bytes) (e : Entry) (es : List Entry)
    → find j (insert e es) ≡ (if key_eq e.key j then some e else find j es)
unfolding find insert
find-insert j e [] = refl
find-insert j e (f ∷ fs) =
    ground (arith, find-insert j e fs, compare_bytes-eq e.key f.key, compare_bytes-eq f.key j)

All-insert :
    (k : Bytes) (e : Entry) (es : List Entry)
    → KeyLt k e.key
    → All (λ f. KeyLt k f.key) es
    → All (λ f. KeyLt k f.key) (insert e es)
unfolding insert
All-insert k e [] h hs = (h, tt)
All-insert k e (f ∷ fs) h hs = ground (arith, All-insert k e fs h)

All-lt_trans :
    (a b : Bytes) (es : List Entry)
    → KeyLt a b
    → All (λ f. KeyLt b f.key) es
    → All (λ f. KeyLt a f.key) es
All-lt_trans a b es h hs = All-map _ _ es (λ f p. lt_trans a b f.key h p) hs

-- Whatever is set, the entries stay in strictly ascending key order.
pub insert-IsSorted : (e : Entry) (es : List Entry) → IsSorted es → IsSorted (insert e es)
unfolding insert
insert-IsSorted e [] h = (tt, tt)
insert-IsSorted e (f ∷ fs) h = ground (
  arith,
  insert-IsSorted e fs h.1,
  All-insert f.key e fs,
  lt-of_gt e.key f.key,
  compare_bytes-eq e.key f.key,
  All-lt_trans e.key f.key fs,
)

-- `get` after `set`: the entry that was set at its own key, and what was there at any other.
pub get-set :
    (s : SkipList) (e : Entry) (j : Bytes)
    → get (set s e).1 j ≡ (if key_eq e.key j then some e else get s j)
unfolding get set
get-set s e j = find-insert j e s.entries

pub length-insert_bounds :
    (e : Entry) (es : List Entry)
    → (length es ≤ length (insert e es)) × (length (insert e es) ≤ length es + 1)
unfolding insert
length-insert_bounds e [] = omega arith
length-insert_bounds e (f ∷ fs) = ground (arith, length-insert_bounds e fs)

-- In sorted entries nothing below the head's key is found.
pub find_below : (k : Bytes) (es : List Entry) → All (λ f. KeyLt k f.key) es → find k es ≡ none
unfolding find
find_below k [] h = refl
find_below k (e ∷ es) h = ground (arith, find_below k es, gt-of_lt k e.key)
