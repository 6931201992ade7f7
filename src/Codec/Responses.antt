-- ===== src/Codec/Responses.antt =====
-- A response decoded after it was encoded.
use tiny_kv.Common.{
  ℕ, ◌<◌, ◌≡◌, refl, ◌≢◌, false, some, [], ◌∷◌, ◌++◌, arith, Bytes, length, Bool, codes, Bool-cases,
  true, if◌then◌else◌, append_assoc, All, append-nil, ◌==◌, All-append,
}
use tiny_kv.Common.Decimal.{to_string, to_string_lem, value, IsDigits, is_digit}
use tiny_kv.Codec.{
  consume_literal, span_digits, parse_length, parse_length_prefixed_field, payload_of, decoded,
  payload_bytes, finish_response, decode_fields, decode_response_line, encode_response, inl, inr,
  drop_newline,
}
use tiny_kv.Common.Words.{u64_mod, read_bytes-append}
use tiny_kv.Message.{Response}
use tiny_kv.Common.Order.{compare_bytes}

consume_literal-append : (l s : Bytes) → consume_literal l (l ++ s) ≡ some s
unfolding consume_literal
consume_literal-append [] s = refl
consume_literal-append (c ∷ l) s = ground (arith, consume_literal-append l s)

span_digits-append :
    (ds s : Bytes) (c : ℕ)
    → IsDigits ds
    → is_digit c ≡ false
    → span_digits (ds ++ c ∷ s) ≡ (ds, c ∷ s)
unfolding span_digits
span_digits-append [] s c h n = ground arith
span_digits-append (d ∷ ds) s c h n = ground (arith, span_digits-append ds s c h.1 n)

parse_length-payload :
    (field_name ds bs rest : Bytes)
    → ds ≢ []
    → value 0 ds ≡ length bs
    → length bs < u64_mod
    → parse_length field_name ds (b':' ∷ (bs ++ rest)) ≡ decoded (bs, rest)
unfolding parse_length
parse_length-payload field_name [] bs rest n v h = absurd (n refl)
parse_length-payload field_name (d ∷ ds) bs rest n v h =
    ground (arith, v, read_bytes-append bs rest)

-- One field: the payload comes back, whatever bytes it has, and the line goes on behind it.
pub parse_length_prefixed_field-payload :
    (field_name bs rest : Bytes)
    → length bs < u64_mod
    → parse_length_prefixed_field field_name
        (field_name ++ (to_string (length bs) ++ (b':' ∷ (bs ++ rest))))
      ≡ decoded (bs, rest)
unfolding parse_length_prefixed_field
parse_length_prefixed_field-payload field_name bs rest h =
    let (v, d, n) = to_string_lem (length bs) in
    ground (
      arith,
      consume_literal-append field_name (to_string (length bs) ++ (b':' ∷ (bs ++ rest))),
      span_digits-append (to_string (length bs)) (bs ++ rest) b':' d refl,
      parse_length-payload field_name (to_string (length bs)) bs rest n v h,
    )

-- an empty payload is not told apart from none
unfoldable pub delivered : Response → Response
unfolding payload_of
delivered r = record r { payload = payload_of (payload_bytes r.payload) }

-- `encodeResponse` with other bytes for the newline at its end
abbrev pub response_with : Bytes → Response → Bytes
response_with tail r =
    codes "status="
    ++ ((if r.is_ok then codes "OK" else codes "ERR")
        ++ (codes " message="
            ++ (to_string (length r.message)
                ++ (b':'
                    ∷ (r.message
                        ++ (codes " data="
                            ++ (to_string (length (payload_bytes r.payload))
                                ++ (b':' ∷ (payload_bytes r.payload ++ tail)))))))))

finish_response_lem :
    (is_ok : Bool) (message bs tail : Bytes)
    → drop_newline tail ≡ []
    → finish_response is_ok message bs tail
      ≡ decoded (record { is_ok = is_ok; message = message; payload = payload_of bs })
unfolding finish_response
finish_response_lem is_ok message bs tail h = ground (arith, h)

decode_fields_lem :
    (is_ok : Bool) (message bs tail : Bytes)
    → drop_newline tail ≡ []
    → length message < u64_mod
    → length bs < u64_mod
    → decode_fields is_ok (
        codes " message="
        ++ (to_string (length message)
            ++ (b':'
                ∷ (message
                    ++ (codes " data=" ++ (to_string (length bs) ++ (b':' ∷ (bs ++ tail))))))))
      ≡ decoded (record { is_ok = is_ok; message = message; payload = payload_of bs })
unfolding decode_fields consume_literal
decode_fields_lem is_ok message bs tail h hm hb =
    let data_field = codes "data=" ++ (to_string (length bs) ++ (b':' ∷ (bs ++ tail))) in
    ground (
      arith,
      parse_length_prefixed_field-payload (codes "message=") message (b' ' ∷ data_field) hm,
      parse_length_prefixed_field-payload (codes "data=") bs tail hb,
      finish_response_lem is_ok message bs tail h,
    )

decode_response_line-response_with :
    (r : Response) (tail : Bytes)
    → drop_newline tail ≡ []
    → length r.message < u64_mod
    → length (payload_bytes r.payload) < u64_mod
    → decode_response_line (response_with tail r) ≡ decoded (delivered r)
unfolding decode_response_line delivered compare_bytes
decode_response_line-response_with r tail h hm hb = elim (Bool-cases r.is_ok) [
  | inl yes_ok ↦ rw yes_ok (decode_fields_lem true r.message (payload_bytes r.payload) tail h hm hb)
  | inr not_ok ↦
      rw not_ok (decode_fields_lem false r.message (payload_bytes r.payload) tail h hm hb)
]

-- A response comes back as it was sent, for any bytes in its message and payload, but that a
-- payload of no bytes comes back as none.
pub decode_response_line-encode_response :
    (r : Response)
    → length r.message < u64_mod
    → length (payload_bytes r.payload) < u64_mod
    → decode_response_line (encode_response r) ≡ decoded (delivered r)
unfolding encode_response drop_newline
decode_response_line-encode_response r hm hb =
    decode_response_line-response_with r (codes "\n") refl hm hb

-- the line that `readLine` finds, without its newline
pub decode_response_line-line :
    (r : Response)
    → length r.message < u64_mod
    → length (payload_bytes r.payload) < u64_mod
    → decode_response_line (response_with [] r) ≡ decoded (delivered r)
unfolding drop_newline
decode_response_line-line r hm hb = decode_response_line-response_with r [] refl hm hb

pub encode_response-line : (r : Response) → encode_response r ≡ response_with [] r ++ codes "\n"
unfolding encode_response
encode_response-line r = elim (Bool-cases r.is_ok) [
  | inl yes_ok ↦ simp (yes_ok, append_assoc, append-nil)
  | inr not_ok ↦ simp (not_ok, append_assoc, append-nil)
]

digits-NoNewline : (ds : Bytes) → IsDigits ds → All (λ c. (c == 10) ≡ false) ds
digits-NoNewline [] h = tt
digits-NoNewline (d ∷ ds) h = (ground (arith, h.0), digits-NoNewline ds h.1)

-- A response of one line of text is encoded as one.
pub response_with-NoNewline :
    (r : Response)
    → All (λ c. (c == 10) ≡ false) r.message
    → All (λ c. (c == 10) ≡ false) (payload_bytes r.payload)
    → All (λ c. (c == 10) ≡ false) (response_with [] r)
response_with-NoNewline r hm hp = All-append One (codes "status=") _ (ground arith) (
    All-append One (if r.is_ok then codes "OK" else codes "ERR") _ status (
      All-append One (codes " message=") _ (ground arith) (
        field r.message (codes " data=" ++ last) hm (
          All-append One (codes " data=") last (ground arith)
            (field (payload_bytes r.payload) [] hp tt)))))
  where
    One : ℕ → Type 0
    One c = (c == 10) ≡ false

    last : Bytes
    last = to_string (length (payload_bytes r.payload)) ++ (b':' ∷ (payload_bytes r.payload ++ []))

    status : All One (if r.is_ok then codes "OK" else codes "ERR")
    status = elim (Bool-cases r.is_ok) [
      | inl yes_ok ↦ rw yes_ok (ground arith)
      | inr not_ok ↦ rw not_ok (ground arith)
    ]

    field :
        (bs s : Bytes)
        → All One bs
        → All One s
        → All One (to_string (length bs) ++ (b':' ∷ (bs ++ s)))
    field bs s hb hs =
        All-append One (to_string (length bs)) _
          (digits-NoNewline (to_string (length bs)) (to_string_lem (length bs)).1)
          (refl, All-append One bs s hb hs)
