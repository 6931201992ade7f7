-- ===== src/Common/Words.antt =====
-- Fixed-width integers as bytes: big-endian, as `htonl` and the block format write them, and in the
-- byte order of a little-endian host, as `reinterpret_cast` of an integer's memory gives them.
use Prim.Native.Nat.{ℕ, zero, suc, ◌+◌, ◌*◌, ◌/◌, ◌%◌, ◌^◌, ◌<◌}
use mathlib.Core.Path.{◌≡◌, refl}
use mathlib.Core.Logic.{inl, inr}
use mathlib.Core.Option.{Option, none, some}
use mathlib.Core.List.{[], ◌∷◌, ◌++◌}
use native.Mathlib.Omega.{arith}
use tiny_kv.Common.Tests.{Option-cases}
use tiny_kv.Common.Lists.{Bytes, length}

abbrev pub u32_mod : ℕ
u32_mod = 2 ^ 32

abbrev pub u64_mod : ℕ
u64_mod = 2 ^ 64

-- one more than the largest `int`
abbrev pub int_limit : ℕ
int_limit = 2 ^ 31

-- `static_cast<std::uint32_t>(n)`
abbrev pub to_u32 : ℕ → ℕ
to_u32 n = n % u32_mod

unfoldable pub be32 : ℕ → Bytes
be32 v = (v / 2 ^ 24 % 256) ∷ (v / 2 ^ 16 % 256) ∷ (v / 2 ^ 8 % 256) ∷ (v % 256) ∷ []

unfoldable pub le32 : ℕ → Bytes
le32 v = (v % 256) ∷ (v / 2 ^ 8 % 256) ∷ (v / 2 ^ 16 % 256) ∷ (v / 2 ^ 24 % 256) ∷ []

unfoldable pub le64 : ℕ → Bytes
le64 v =
    (v % 256)
    ∷ (v / 2 ^ 8 % 256)
    ∷ (v / 2 ^ 16 % 256)
    ∷ (v / 2 ^ 24 % 256)
    ∷ (v / 2 ^ 32 % 256)
    ∷ (v / 2 ^ 40 % 256)
    ∷ (v / 2 ^ 48 % 256)
    ∷ (v / 2 ^ 56 % 256)
    ∷ []

unfoldable pub be64 : ℕ → Bytes
unfolding be32
be64 v = be32 (v / 2 ^ 32) ++ be32 v

-- The number that the first bytes spell, and what follows them; `none` if they are not there.
unfoldable pub read_be32 : Bytes → Option (ℕ × Bytes)
read_be32 (a ∷ b ∷ c ∷ d ∷ rest) = some (((a * 256 + b) * 256 + c) * 256 + d, rest)
read_be32 _ = none

unfoldable pub read_be64 : Bytes → Option (ℕ × Bytes)
read_be64 (a ∷ b ∷ c ∷ d ∷ e ∷ f ∷ g ∷ h ∷ rest) =
    some (((((((a * 256 + b) * 256 + c) * 256 + d) * 256 + e) * 256 + f) * 256 + g) * 256 + h, rest)
read_be64 _ = none

unfoldable pub read_le32 : Bytes → Option (ℕ × Bytes)
read_le32 (a ∷ b ∷ c ∷ d ∷ rest) = some (((d * 256 + c) * 256 + b) * 256 + a, rest)
read_le32 _ = none

unfoldable pub read_le64 : Bytes → Option (ℕ × Bytes)
read_le64 (a ∷ b ∷ c ∷ d ∷ e ∷ f ∷ g ∷ h ∷ rest) =
    some (((((((h * 256 + g) * 256 + f) * 256 + e) * 256 + d) * 256 + c) * 256 + b) * 256 + a, rest)
read_le64 _ = none

-- `n` bytes from a stream; `none` if it ends before
unfoldable pub read_bytes : ℕ → Bytes → Option (Bytes × Bytes)
read_bytes zero s = some ([], s)
read_bytes (suc n) [] = none
read_bytes (suc n) (b ∷ s) = elim (read_bytes n s) [
  | none ↦ none
  | some (bs, rest) ↦ some (b ∷ bs, rest)
]

pub be32_value :
    (v : ℕ)
    → v < u32_mod
    → ((v / 2 ^ 24 % 256 * 256 + v / 2 ^ 16 % 256) * 256 + v / 2 ^ 8 % 256) * 256 + v % 256 ≡ v
be32_value v h = omega arith

pub read_be32-be32 :
    (v : ℕ) (rest : Bytes) → v < u32_mod → read_be32 (be32 v ++ rest) ≡ some (v, rest)
unfolding read_be32 be32
read_be32-be32 v rest h = rw (be32_value v h)

pub read_le32-le32 :
    (v : ℕ) (rest : Bytes) → v < u32_mod → read_le32 (le32 v ++ rest) ≡ some (v, rest)
unfolding read_le32 le32
read_le32-le32 v rest h = rw (be32_value v h)

le64_value :
    (v : ℕ)
    → v < u64_mod
    → ((((((v / 2 ^ 56 % 256 * 256 + v / 2 ^ 48 % 256) * 256 + v / 2 ^ 40 % 256) * 256
                        + v / 2 ^ 32 % 256)
                      * 256
                    + v / 2 ^ 24 % 256)
                  * 256
                + v / 2 ^ 16 % 256)
              * 256
            + v / 2 ^ 8 % 256)
          * 256
        + v % 256
      ≡ v
le64_value v h = omega arith

pub read_le64-le64 :
    (v : ℕ) (rest : Bytes) → v < u64_mod → read_le64 (le64 v ++ rest) ≡ some (v, rest)
unfolding read_le64 le64
read_le64-le64 v rest h = rw (le64_value v h)

pub read_bytes-append : (bs rest : Bytes) → read_bytes (length bs) (bs ++ rest) ≡ some (bs, rest)
unfolding read_bytes
read_bytes-append [] rest = refl
read_bytes-append (b ∷ bs) rest = rw (read_bytes-append bs rest)

pub read_bytes_short : (n : ℕ) (s : Bytes) → length s < n → read_bytes n s ≡ none
unfolding read_bytes
read_bytes_short zero s h = absurd (omega arith)
read_bytes_short (suc n) [] h = refl
read_bytes_short (suc n) (b ∷ s) h = rw (read_bytes_short n s (omega arith))

-- What is read is a prefix of the stream, of the length asked for.
pub read_bytes_sound :
    (n : ℕ) (s : Bytes) (bs rest : Bytes)
    → read_bytes n s ≡ some (bs, rest)
    → (length bs ≡ n) × (bs ++ rest ≡ s)
unfolding read_bytes
read_bytes_sound zero s bs rest h = ground arith
read_bytes_sound (suc n) [] bs rest h = cc
read_bytes_sound (suc n) (b ∷ s) bs rest h = elim (Option-cases (read_bytes n s)) [
  | inl e ↦ ground arith
  | inr ((p, q), e) ↦ ground (arith, read_bytes_sound n s p q e)
]

be64_value :
    (v : ℕ)
    → v < u64_mod
    → ((((((v / 2 ^ 32 / 2 ^ 24 % 256 * 256 + v / 2 ^ 32 / 2 ^ 16 % 256) * 256
                            + v / 2 ^ 32 / 2 ^ 8 % 256)
                          * 256
                        + v / 2 ^ 32 % 256)
                      * 256
                    + v / 2 ^ 24 % 256)
                  * 256
                + v / 2 ^ 16 % 256)
              * 256
            + v / 2 ^ 8 % 256)
          * 256
        + v % 256
      ≡ v
be64_value v h = omega arith

pub read_be64-be64 :
    (v : ℕ) (rest : Bytes) → v < u64_mod → read_be64 (be64 v ++ rest) ≡ some (v, rest)
unfolding read_be64 be64 be32
read_be64-be64 v rest h = rw (be64_value v h)

pub length-be32 : (v : ℕ) → length (be32 v) ≡ 4
unfolding be32
length-be32 v = refl

pub length-be64 : (v : ℕ) → length (be64 v) ≡ 8
unfolding be64 be32
length-be64 v = refl
