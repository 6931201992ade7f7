-- ===== src/Client/Port.antt =====
-- The port that the programs read from their environment.
use tiny_kv.Common.{
  ℕ, ◌^◌, ◌<◌, ◌≡◌, refl, ap, ◌∙◌, ◌≢◌, inl, inr, Option, none, some, [], ◌∷◌, arith, Option-cases,
  Bytes,
}
use tiny_kv.Client.{read_port, strtoul, skip_spaces, take_sign, signed_value}
use tiny_kv.Codec.{span_digits, is_space}
use tiny_kv.Common.Decimal.{to_string, IsDigits, to_string_lem, value}

read_port_below : (raw : Option Bytes) (n : ℕ) → read_port raw ≡ some n → n < 2 ^ 16
unfolding read_port
read_port_below none n h = cc
read_port_below (some []) n h = cc
read_port_below (some (c ∷ raw)) n h = elim (Option-cases (strtoul (c ∷ raw))) [
  | inl bad ↦ ground (arith, bad)
  | inr (m, good) ↦ ground (arith, good)
]

span_digits-all : (ds : Bytes) → IsDigits ds → span_digits ds ≡ (ds, [])
unfolding span_digits
span_digits-all [] h = refl
span_digits-all (d ∷ ds) h = ground (arith, span_digits-all ds h.1)

strtoul-digits :
    (ds : Bytes) → IsDigits ds → ds ≢ [] → value 0 ds < 2 ^ 16 → strtoul ds ≡ some (value 0 ds)
unfolding strtoul skip_spaces take_sign signed_value is_space
strtoul-digits [] h n v = absurd (n refl)
strtoul-digits (d ∷ ds) h n v = ground (arith, h.0, span_digits-all (d ∷ ds) h)

read_port-digits :
    (ds : Bytes) (n : ℕ) → ds ≢ [] → strtoul ds ≡ some n → n < 2 ^ 16 → read_port (some ds) ≡ some n
unfolding read_port
read_port-digits [] n e h v = absurd (e refl)
read_port-digits (d ∷ ds) n e h v = ground (arith, h)

-- A port that is read, whatever the text, has 16 bits, and its decimal digits are read as the same
-- port.
pub read_port-to_string :
    (raw : Option Bytes) (n : ℕ)
    → read_port raw ≡ some n
    → (n < 2 ^ 16) × (read_port (some (to_string n)) ≡ some n)
read_port-to_string raw n h =
    let below : n < 2 ^ 16 = read_port_below raw n h in
    let (v, d, e) = to_string_lem n in
    (
      below,
      read_port-digits (to_string n) n e
          (strtoul-digits (to_string n) d e (omega (arith, v)) ∙ ap some v) below,
    )
