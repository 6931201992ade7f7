-- ===== src/SsTable/Sort.antt =====
-- `std::sort` on distinct keys: the result is in key order, and holds what was given.
use tiny_kv.Common.{◌≡◌, refl, List, [], ◌∷◌, arith, All}
use tiny_kv.SsTable.{insert_sorted, sort, Entry}
use tiny_kv.Common.Order.{KeyLt, gt-of_lt}
use tiny_kv.Types.{IsSorted}

insert_sorted-below :
    (e : Entry) (es : List Entry) → All (λ f. KeyLt e.key f.key) es → insert_sorted e es ≡ e ∷ es
unfolding insert_sorted
insert_sorted-below e [] h = refl
insert_sorted-below e (f ∷ fs) h = ground (arith, gt-of_lt e.key f.key h.0)

-- What is already in key order is left as it is.
pub sort-sorted : (es : List Entry) → IsSorted es → sort es ≡ es
unfolding sort
sort-sorted [] h = refl
sort-sorted (e ∷ es) h = rw (sort-sorted es h.1) (insert_sorted-below e es h.0)
