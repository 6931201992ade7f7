-- ===== src/Common/Order.antt =====
-- `std::string::compare`: bytes are compared as unsigned values, from the left.
use Prim.Native.Nat.{compare, Ordering}
use mathlib.Core.Path.{◌≡◌, refl}
use mathlib.Core.Logic.{◌⊎◌}
use mathlib.Core.Bool.{Bool, true, false}
use mathlib.Core.List.{[], ◌∷◌}
use native.Mathlib.Omega.{arith}
use tiny_kv.Common.Lists.{Bytes}

unfoldable pub compare_bytes : Bytes → Bytes → Ordering
compare_bytes [] [] = Ordering.eq
compare_bytes [] (y ∷ ys) = Ordering.lt
compare_bytes (x ∷ xs) [] = Ordering.gt
compare_bytes (x ∷ xs) (y ∷ ys) = elim (compare x y) [
  | Ordering.lt ↦ Ordering.lt
  | Ordering.gt ↦ Ordering.gt
  | Ordering.eq ↦ compare_bytes xs ys
]

-- the operators `<`, `<=` and `==` of `std::string`
abbrev pub key_lt : Bytes → Bytes → Bool
key_lt a b = elim (compare_bytes a b) [ Ordering.lt ↦ true | _ ↦ false ]

abbrev pub key_le : Bytes → Bytes → Bool
key_le a b = elim (compare_bytes a b) [ Ordering.gt ↦ false | _ ↦ true ]

abbrev pub key_eq : Bytes → Bytes → Bool
key_eq a b = elim (compare_bytes a b) [ Ordering.eq ↦ true | _ ↦ false ]

abbrev pub KeyLt : Bytes → Bytes → Type 0
KeyLt a b = compare_bytes a b ≡ Ordering.lt

pub compare_bytes_refl : (a : Bytes) → compare_bytes a a ≡ Ordering.eq
unfolding compare_bytes
compare_bytes_refl [] = refl
compare_bytes_refl (x ∷ xs) = ground (arith, compare_bytes_refl xs)

pub compare_bytes-eq : (a b : Bytes) → compare_bytes a b ≡ Ordering.eq → a ≡ b
unfolding compare_bytes
compare_bytes-eq [] [] h = refl
compare_bytes-eq [] (y ∷ ys) h = cc
compare_bytes-eq (x ∷ xs) [] h = cc
compare_bytes-eq (x ∷ xs) (y ∷ ys) h = ground (arith, compare_bytes-eq xs ys)

pub flip_ordering : Ordering → Ordering
flip_ordering Ordering.lt = Ordering.gt
flip_ordering Ordering.eq = Ordering.eq
flip_ordering Ordering.gt = Ordering.lt

pub compare_bytes_flip : (a b : Bytes) → compare_bytes b a ≡ flip_ordering (compare_bytes a b)
unfolding compare_bytes flip_ordering
compare_bytes_flip [] [] = refl
compare_bytes_flip [] (y ∷ ys) = refl
compare_bytes_flip (x ∷ xs) [] = refl
compare_bytes_flip (x ∷ xs) (y ∷ ys) = ground (arith, compare_bytes_flip xs ys)

pub lt-of_gt : (a b : Bytes) → compare_bytes a b ≡ Ordering.gt → KeyLt b a
unfolding flip_ordering
lt-of_gt a b h = ground (arith, compare_bytes_flip a b)

pub gt-of_lt : (a b : Bytes) → KeyLt a b → compare_bytes b a ≡ Ordering.gt
unfolding flip_ordering
gt-of_lt a b h = ground (arith, compare_bytes_flip a b)

pub lt_irrefl : (a : Bytes) → ¬ (KeyLt a a)
lt_irrefl a h = ground (arith, compare_bytes_refl a)

pub lt_trans : (a b c : Bytes) → KeyLt a b → KeyLt b c → KeyLt a c
unfolding compare_bytes
lt_trans [] [] c h k = cc
lt_trans [] (y ∷ ys) [] h k = cc
lt_trans [] (y ∷ ys) (z ∷ zs) h k = refl
lt_trans (x ∷ xs) [] c h k = cc
lt_trans (x ∷ xs) (y ∷ ys) [] h k = cc
lt_trans (x ∷ xs) (y ∷ ys) (z ∷ zs) h k = ground (arith, lt_trans xs ys zs)

pub Compare-cases :
    (a b : Bytes)
    → KeyLt a b ⊎ (compare_bytes a b ≡ Ordering.eq) ⊎ (compare_bytes a b ≡ Ordering.gt)
Compare-cases a b = ground arith

pub key_eq_self : (a : Bytes) → key_eq a a ≡ true
key_eq_self a = ground (arith, compare_bytes_refl a)

pub eq-of_key_eq : (a b : Bytes) → key_eq a b ≡ true → a ≡ b
eq-of_key_eq a b h = ground (arith, compare_bytes-eq a b)

pub key_eq_comm : (a b : Bytes) → key_eq a b ≡ key_eq b a
unfolding flip_ordering
key_eq_comm a b = ground (arith, compare_bytes_flip a b)
