-- ===== src/Codec.antt =====
-- api/codec.cpp: requests and responses as lines of bytes.
pub mod Responses
pub mod Requests
use tiny_kv.Common.{
  ℕ, zero, suc, ◌+◌, ◌-◌, ◌*◌, ◌/◌, ◌%◌, ◌^◌, ◌≤◌, ◌<◌, Ordering, compare, ◌≡◌, refl, sym, ap, ◌∙◌,
  ◌≢◌, ◌↔◌, ◌⊎◌, inl, inr, Bool, true, false, not, ◌&&◌, ◌||◌, Option, none, some, List, [], ◌∷◌,
  ◌++◌, append_assoc, append-nil, map, foldl, subst, arith, String, ltb, leb, ◌==◌, if◌then◌else◌,
  ltb→lt, lt→ltb, le→ltb, ltb→le, tests, Bool-cases, Option-cases, Bytes, codes, length, get_elem?,
  take, drop, All, length-append, length-take, length-drop, take-append, drop-append, take_all,
  All-append, All-map, get_elem?-append,
}
use tiny_kv.Common.Outcome.{Outcome, ok, throws, fault, ◌>>=◌}
use tiny_kv.Common.Order.{compare_bytes, key_lt, key_le, key_eq, KeyLt, key_eq_self}
use tiny_kv.Types.{Entry, Error, IsSorted, find}
use tiny_kv.Common.Decimal.{is_digit, value, to_string}
use tiny_kv.Common.Words.{read_bytes}
use tiny_kv.Message.{Command, Request, Response, put, get, del, exit, flush, unknown}

-- a decoder's result, or the text that it leaves in `err`
pub data Decoded {ℓ} (A : Type ℓ) : Type ℓ where
  decoded : A → Decoded A
  refused : Bytes → Decoded A

-- A position in the line is the bytes from there on.
unfoldable pub consume_literal : Bytes → Bytes → Option Bytes
consume_literal [] line = some line
consume_literal (l ∷ ls) [] = none
consume_literal (l ∷ ls) (c ∷ line) =
    let rest = consume_literal ls line in if c == l then rest else none

-- the longest run of digits at the front, and what follows it
unfoldable pub span_digits : Bytes → Bytes × Bytes
span_digits [] = ([], [])
span_digits (c ∷ s) =
    let rest = span_digits s in if is_digit c then (c ∷ rest.0, rest.1) else ([], c ∷ s)

-- `std::stoull`, on digits
unfoldable pub stoull : Bytes → Option ℕ
unfolding value
stoull s = if ltb (2 ^ 64 - 1) (value 0 s) then none else some (value 0 s)

-- the payload behind the length and the colon
unfoldable pub take_payload : Bytes → ℕ → Bytes → Decoded (Bytes × Bytes)
take_payload field_name n s = elim (read_bytes n s) [
  | none ↦ refused (codes "payload shorter than declared length for field " ++ field_name)
  | some r ↦ decoded r
]

unfoldable pub parse_length : Bytes → Bytes → Bytes → Decoded (Bytes × Bytes)
unfolding stoull take_payload
parse_length field_name [] s = refused (codes "expected length for field " ++ field_name)
parse_length field_name (d ∷ ds) [] =
    refused (codes "expected ':' after length for field " ++ field_name)
parse_length field_name (d ∷ ds) (c ∷ s) =
    if c == b':'
    then elim (stoull (d ∷ ds)) [
      | none ↦ refused (codes "invalid length for field " ++ field_name)
      | some n ↦ take_payload field_name n s
    ]
    else refused (codes "expected ':' after length for field " ++ field_name)

unfoldable pub parse_length_prefixed_field : Bytes → Bytes → Decoded (Bytes × Bytes)
unfolding consume_literal span_digits parse_length
parse_length_prefixed_field field_name line = elim (consume_literal field_name line) [
  | none ↦ refused (codes "expected field " ++ field_name)
  | some s ↦ parse_length field_name (span_digits s).0 (span_digits s).1
]

-- `std::toupper` of the C locale
unfoldable pub to_upper : ℕ → ℕ
to_upper c = if leb b'a' c && leb c b'z' then c - 32 else c

unfoldable pub parse_command : Bytes → Command
unfolding to_upper
parse_command cmd =
    let upper = map to_upper cmd in
    if key_eq upper (codes "PUT")
    then put
    else if key_eq upper (codes "GET")
    then get
    else if key_eq upper (codes "DEL")
    then del
    else if key_eq upper (codes "EXIT")
    then exit
    else if key_eq upper (codes "_FLUSH")
    then flush
    else unknown

unfoldable pub command_text : Command → Bytes
command_text put = codes "PUT"
command_text get = codes "GET"
command_text del = codes "DEL"
command_text exit = codes "EXIT"
command_text flush = codes "_FLUSH"
command_text unknown = codes "UNKNOWN"

unfoldable pub encode_args : List Bytes → Bytes
encode_args [] = codes "\n"
encode_args (arg ∷ args) = b' ' ∷ (arg ++ encode_args args)

unfoldable pub encode_request : Request → Bytes
unfolding command_text encode_args
encode_request req = command_text req.command ++ encode_args req.args

-- `std::isspace` of the C locale
unfoldable pub is_space : ℕ → Bool
is_space c = c == b' ' || leb 9 c && leb c 13

-- `iss >> token` until the stream ends: `current` is the token being read
unfoldable pub finish_token : Bytes → List Bytes → List Bytes
finish_token [] tokens = tokens
finish_token (c ∷ cs) tokens = (c ∷ cs) ∷ tokens

unfoldable pub tokens_of : Bytes → Bytes → List Bytes
unfolding finish_token is_space
tokens_of current [] = finish_token current []
tokens_of current (c ∷ s) = elim (is_space c) [
  | true ↦ finish_token current (tokens_of [] s)
  | false ↦ tokens_of (current ++ c ∷ []) s
]

unfoldable pub decode_tokens : List Bytes → Decoded Request
unfolding parse_command
decode_tokens [] = refused (codes "empty command")
decode_tokens (cmd ∷ args) = decoded (record { command = parse_command cmd; args = args })

unfoldable pub decode_line : Bytes → Decoded Request
unfolding tokens_of decode_tokens
decode_line line = decode_tokens (tokens_of [] line)

-- `resp.data.value_or("")`
abbrev pub payload_bytes : Option Bytes → Bytes
payload_bytes none = []
payload_bytes (some bs) = bs

unfoldable pub encode_response : Response → Bytes
unfolding to_string
encode_response r =
    codes "status="
    ++ ((if r.is_ok then codes "OK" else codes "ERR")
        ++ (codes " message="
            ++ (to_string (length r.message)
                ++ (b':'
                    ∷ (r.message
                        ++ (codes " data="
                            ++ (to_string (length (payload_bytes r.payload))
                                ++ (b':' ∷ (payload_bytes r.payload ++ codes "\n")))))))))

-- the status up to the first space
unfoldable pub span_status : Bytes → Bytes × Bytes
span_status [] = ([], [])
span_status (c ∷ s) =
    let rest = span_status s in if c == b' ' then ([], c ∷ s) else (c ∷ rest.0, rest.1)

unfoldable pub status_of : Bytes → Option Bool
status_of s =
    if key_eq s (codes "OK") then some true else if key_eq s (codes "ERR") then some false else none

unfoldable pub drop_newline : Bytes → Bytes
drop_newline [] = []
drop_newline (c ∷ s) = if c == 10 then s else c ∷ s

-- a payload of no bytes leaves `outRes.data` unset
unfoldable pub payload_of : Bytes → Option Bytes
payload_of [] = none
payload_of (c ∷ s) = some (c ∷ s)

unfoldable pub finish_response : Bool → Bytes → Bytes → Bytes → Decoded Response
unfolding drop_newline payload_of
finish_response is_ok message bytes rest = elim (drop_newline rest) [
  | [] ↦ decoded (record { is_ok = is_ok; message = message; payload = payload_of bytes })
  | c ∷ s ↦ refused (codes "unexpected trailing response bytes")
]

unfoldable pub decode_fields : Bool → Bytes → Decoded Response
unfolding finish_response
decode_fields is_ok line = elim (consume_literal (codes " ") line) [
  | none ↦ refused (codes "expected space after status field")
  | some s1 ↦ elim (parse_length_prefixed_field (codes "message=") s1) [
    | refused e ↦ refused e
    | decoded (message, s2) ↦ elim (consume_literal (codes " ") s2) [
      | none ↦ refused (codes "expected space after message field")
      | some s3 ↦ elim (parse_length_prefixed_field (codes "data=") s3) [
        | refused e ↦ refused e
        | decoded (bytes, s4) ↦ finish_response is_ok message bytes s4
      ]
    ]
  ]
]

unfoldable pub decode_response_line : Bytes → Decoded Response
unfolding decode_fields span_status status_of consume_literal
decode_response_line line = elim (consume_literal (codes "status=") line) [
  | none ↦ refused (codes "expected status field")
  | some s ↦ elim (status_of (span_status s).0) [
    | none ↦ refused (codes "invalid response status")
    | some is_ok ↦ decode_fields is_ok (span_status s).1
  ]
]
