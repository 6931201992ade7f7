-- ===== src/Wal/Torn.antt =====
-- A record that was cut short, by a failing append or a crash; and the end of the reading loop.
use tiny_kv.Common.{
  ℕ, zero, suc, ◌+◌, ◌-◌, ◌≤◌, ◌<◌, ◌≡◌, refl, ◌⊎◌, inl, inr, none, some, [], ◌∷◌, ◌++◌, arith, ltb,
  if◌then◌else◌, ltb→lt, ltb→le, Bool-cases, Bytes, length, take, length-append, length-take, List,
  ap, ◌≢◌, Option-cases, append-nil, ◌∙◌, sym,
}
use tiny_kv.Common.Words.{
  u32_mod, be32_value, le32, read_le32, read_bytes, read_bytes_short, read_bytes_sound,
}
use tiny_kv.Common.Outcome.{ok}
use tiny_kv.Types.{Entry, Error, wal_header, wal_payload, wal_flush}
use tiny_kv.Wal.{
  wal_record, stop, max_len, read_payload, read_round, AppendFault, Wal, entry, read_entries,
  get_entries, out_of_fuel, file_bytes, append, header_fails, payload_fails, flush_fails,
}
use tiny_kv.Wal.RoundTrip.{
  Fits, type_byte, written_val, wal_record_lem, written_val-le, Holds, get_entries-Holds,
}

read_bytes_cut :
    (bs s : Bytes) (n : ℕ)
    → read_bytes (length bs) (take n (bs ++ s))
      ≡ (if ltb n (length bs) then none else some (bs, take (n - length bs) s))
unfolding read_bytes
read_bytes_cut [] s n = ground arith
read_bytes_cut (b ∷ bs) s zero = ground arith
read_bytes_cut (b ∷ bs) s (suc n) = ground (arith, read_bytes_cut bs s n)

read_le32_cut :
    (v : ℕ) (s : Bytes) (n : ℕ)
    → v < u32_mod
    → read_le32 (take n (le32 v ++ s)) ≡ (if ltb n 4 then none else some (v, take (n - 4) s))
unfolding read_le32 le32
read_le32_cut v s (suc (suc (suc (suc n)))) h =
    let e : suc (suc (suc (suc n))) - 4 ≡ n = omega arith in rw (be32_value v h, e) (ground arith)
read_le32_cut v s n h = ground arith

read_payload_cut :
    (e : Entry) (n : ℕ)
    → n < length e.key + length (written_val e)
    → read_payload
        (type_byte e)
        (length e.key)
        (length (written_val e))
        (take n (e.key ++ written_val e))
      ≡ stop
unfolding read_payload
read_payload_cut e n h = ground (
  arith,
  read_bytes_cut e.key (written_val e) n,
  read_bytes_short (length (written_val e)) (take (n - length e.key) (written_val e)),
  length-take (n - length e.key) (written_val e),
)

read_round_cut :
    (type klen vlen n : ℕ) (s : Bytes)
    → klen ≤ max_len
    → vlen ≤ max_len
    → (read_payload type klen vlen (take (n - 9) s) ≡ stop) ⊎ (n < 9)
    → read_round (take n (type ∷ (le32 klen ++ (le32 vlen ++ s)))) ≡ stop
unfolding read_round
read_round_cut type klen vlen zero s hk hv h = refl
read_round_cut type klen vlen (suc n) s hk hv h =
    let e : suc n - 9 ≡ n - 4 - 4 = omega arith in
    ground (
      arith,
      e,
      read_le32_cut klen (le32 vlen ++ s) n (omega arith),
      read_le32_cut vlen s (n - 4) (omega arith),
    )

record_length :
    (e : Entry) → Fits e → length (wal_record e) ≡ 9 + (length e.key + length (written_val e))
unfolding le32
record_length e h = rw (wal_record_lem e h) (omega (arith, length-append e.key (written_val e)))

-- The first bytes of a record, when some are missing, end the replay there.
pub read_round-take :
    (e : Entry) (n : ℕ)
    → Fits e
    → n < length (wal_record e)
    → read_round (take n (wal_record e)) ≡ stop
read_round-take e n f h = rw (wal_record_lem e f) (
    read_round_cut (type_byte e) (length e.key) (length (written_val e)) n _ f.key_fits
      (written_val-le e f) cut)
  where
    cut :
        (read_payload
            (type_byte e)
            (length e.key)
            (length (written_val e))
            (take (n - 9) (e.key ++ written_val e))
          ≡ stop)
        ⊎ (n < 9)
    cut = elim (Bool-cases (ltb n 9)) [
      | inl short ↦ inr (ltb→lt n 9 short)
      | inr long ↦
          inl (read_payload_cut e (n - 9) (omega (arith, record_length e f, ltb→le n 9 long)))
    ]

-- the failures that may leave the first `n` bytes of the record in the file
abbrev pub Cuts : AppendFault → ℕ → Type 0
Cuts (header_fails m) n = m ≡ n
Cuts (payload_fails m) n = m ≡ n
Cuts (flush_fails m) n = m ≡ n
Cuts _ n = ⊥

Holds-cut :
    (w : Wal) (es : List Entry) (e : Entry) (n : ℕ)
    → Holds w es []
    → Fits e
    → n < length (wal_record e)
    → (v : Wal) → v.file ≡ some (file_bytes w.file ++ take n (wal_record e))
    → Holds v es (take n (wal_record e))
Holds-cut w es e n (c, h, t) f short v at =
    (simp (at, c, append-nil), h, read_round-take e n f short)

-- On a log of whole records, an `append` of an entry whose key and value have at most 2 ^ 30 bytes
-- each, the bound of the log's reader, that fails behind the opening of the file with a part of its
-- record in it, not all, returns an error, and a replay then returns what it returned before: the
-- torn record is not seen.
pub get_entries-append_torn :
    (a : AppendFault) (w : Wal) (es : List Entry) (e : Entry) (n : ℕ)
    → Cuts a n
    → Holds w es []
    → Fits e
    → n < length (wal_record e)
    → ((err : Error) × ((append a e w).0 ≡ ok (some err)))
      × Holds (append a e w).1 es (take n (wal_record e))
      × (get_entries (append a e w).1 ≡ get_entries w)
get_entries-append_torn a w es e n c held f short =
    let v : Wal = (append a e w).1 in
    let after : Holds v es (take n (wal_record e)) =
      Holds-cut w es e n held f short v (file_after a c) in
    (reported a c, after, get_entries-Holds v es _ after ∙ sym (get_entries-Holds w es [] held))
  where
    file_after :
        (a : AppendFault)
        → Cuts a n
        → (append a e w).1.file ≡ some (file_bytes w.file ++ take n (wal_record e))
    file_after (header_fails m) c = unfold append in rw c
    file_after (payload_fails m) c = unfold append in rw c
    file_after (flush_fails m) c = unfold append in rw c
    file_after AppendFault.no_fault c = absurd c
    file_after AppendFault.open_fails c = absurd c
    file_after AppendFault.directory_fails c = absurd c

    reported : (a : AppendFault) → Cuts a n → (err : Error) × ((append a e w).0 ≡ ok (some err))
    reported (header_fails m) c = (wal_header, unfold append in refl)
    reported (payload_fails m) c = (wal_payload, unfold append in refl)
    reported (flush_fails m) c = (wal_flush, unfold append in refl)
    reported AppendFault.no_fault c = absurd c
    reported AppendFault.open_fails c = absurd c
    reported AppendFault.directory_fails c = absurd c

read_le32-shorter :
    (s : Bytes) (v : ℕ) (rest : Bytes) → read_le32 s ≡ some (v, rest) → length rest < length s
unfolding read_le32
read_le32-shorter (a ∷ b ∷ c ∷ d ∷ s) v rest h = ground arith
read_le32-shorter s v rest h = cc

read_bytes-shorter :
    (n : ℕ) (s bs rest : Bytes) → read_bytes n s ≡ some (bs, rest) → length rest ≤ length s
read_bytes-shorter n s bs rest h =
    let (len, whole) = read_bytes_sound n s bs rest h in
    omega (arith, length-append bs rest, ap length whole)

read_payload-shorter :
    (type klen vlen : ℕ) (s : Bytes) (e : Entry) (rest : Bytes)
    → read_payload type klen vlen s ≡ entry e rest
    → length rest ≤ length s
unfolding read_payload
read_payload-shorter type klen vlen s e rest h = grind (arith, read_bytes-shorter)

-- a round that yields an entry consumes a byte at least
read_round-shorter :
    (s : Bytes) (e : Entry) (rest : Bytes) → read_round s ≡ entry e rest → length rest < length s
unfolding read_round
read_round-shorter [] e rest h = cc
read_round-shorter (type ∷ s) e rest h = elim (Option-cases (read_le32 s)) [
  | inl end ↦ ground arith
  | inr ((klen, s'), k) ↦ elim (Option-cases (read_le32 s')) [
    | inl end ↦ ground arith
    | inr ((vlen, s''), v) ↦ ground (
      arith,
      read_le32-shorter s klen s' k,
      read_le32-shorter s' vlen s'' v,
      read_payload-shorter type klen vlen s'' e rest,
    )
  ]
]

read_entries_ends :
    (fuel : ℕ) (s : Bytes) (acc : List Entry)
    → length s < fuel
    → read_entries fuel s acc ≢ out_of_fuel
unfolding read_entries
read_entries_ends zero s acc h = absurd (omega arith)
read_entries_ends (suc fuel) s acc h =
    λ e. grind (arith, read_round-shorter, read_entries_ends fuel)

-- The reading loop ends on every file, whatever bytes it holds.
pub get_entries_ends : (w : Wal) → get_entries w ≢ out_of_fuel
unfolding get_entries
get_entries_ends w = elim (Option-cases w.file) [
  | inl missing ↦ λ h. ground arith
  | inr (bs, there) ↦ λ h. ground (arith, read_entries_ends (suc (length bs)) bs [])
]
