-- ===== src/Client.antt =====
-- cli/repl.cpp: the terminal client, over a connection to the server; and the port of cli_main.cpp and
-- server_main.cpp.
pub mod Transcript
pub mod Laws
pub mod Port
pub mod Dialogue
use tiny_kv.Common.{
  ℕ, zero, suc, ◌+◌, ◌-◌, ◌*◌, ◌/◌, ◌%◌, ◌^◌, ◌≤◌, ◌<◌, Ordering, compare, ◌≡◌, refl, sym, ap, ◌∙◌,
  ◌≢◌, ◌↔◌, ◌⊎◌, inl, inr, Bool, true, false, not, ◌&&◌, ◌||◌, Option, none, some, List, [], ◌∷◌,
  ◌++◌, append_assoc, append-nil, map, foldl, subst, arith, String, ltb, leb, ◌==◌, if◌then◌else◌,
  ltb→lt, lt→ltb, le→ltb, ltb→le, tests, Bool-cases, Option-cases, Bytes, codes, length, get_elem?,
  take, drop, All, length-append, length-take, length-drop, take-append, drop-append, take_all,
  All-append, All-map, get_elem?-append,
}
use tiny_kv.Common.Outcome.{Outcome, ok, throws, fault, ◌>>=◌}
use tiny_kv.Common.Order.{compare_bytes, key_lt, key_le, key_eq, KeyLt, key_eq_self}
use tiny_kv.Types.{Entry, Error, IsSorted, find}
use tiny_kv.Connection.Fd
use tiny_kv.Connection.Fd.{FdConnection}
use tiny_kv.Message.{Request, Response, exit}
use tiny_kv.Codec.{
  decoded, refused, decode_line, encode_request, decode_response_line, is_space, stoull,
  span_digits,
}
use tiny_kv.Server.{is_exit}
use tiny_kv.Common.Words.{u64_mod}

-- what the client writes to `std::cout`, with the prompt apart, and to `std::cerr`
pub data Printed : Type 0 where
  prompt : Printed
  out err : Bytes → Printed

-- how `runRepl` ends: what it wrote, its result, and the connection
pub record Ended : Type 0 where
  pub printed : List Printed
  pub status : ℕ
  pub conn : FdConnection

abbrev pub then_print : List Printed → Ended → Ended
then_print p e = record e { printed = p ++ e.printed }

unfoldable pub print_error : Bytes → Printed
print_error message = err (codes "ERR: " ++ (message ++ codes "\n"))

unfoldable pub print_response : Response → Printed
print_response res =
    if res.is_ok
    then (elim res.payload [ some d ↦ out (d ++ codes "\n") | none ↦ out (codes "OK\n") ])
    else out (codes "ERR: " ++ (res.message ++ codes "\n"))

unfoldable pub disconnect : Bytes → FdConnection → Ended
unfolding print_error
disconnect message c = record { printed = print_error message ∷ []; status = 1; conn = c }

-- What the client does with the line that `readLine` returns; `rest` is the loop's next round.
unfoldable pub receive : Request → Option Bytes × FdConnection → (FdConnection → Ended) → Ended
unfolding disconnect print_response
receive req (none, c) rest = disconnect (codes "Server disconnected") c
receive req (some raw, c) rest = elim (decode_response_line raw) [
  | refused e ↦ disconnect (codes "failed to decode server response: " ++ e) c
  | decoded res ↦ then_print (print_response res ∷ []) (elim (is_exit req.command) [
    | true ↦ record { printed = []; status = 0; conn = c }
    | false ↦ rest c
  ])
]

-- the request sent, and its response
unfoldable pub ask : Request → FdConnection → (FdConnection → Ended) → Ended
unfolding receive
ask req c rest = elim (Fd.write_all (encode_request req) c).0 [
  | false ↦
      disconnect (codes "failed to send request to server") (Fd.write_all (encode_request req) c).1
  | true ↦ receive req (Fd.read_line (Fd.write_all (encode_request req) c).1) rest
]

-- The `while (true)` loop over the lines of the terminal; their end is that of `std::cin`.
unfoldable pub run_repl : List Bytes → FdConnection → Ended
unfolding ask decode_line
run_repl [] c = record { printed = prompt ∷ out (codes "\n") ∷ []; status = 0; conn = c }
run_repl ([] ∷ lines) c = then_print (prompt ∷ []) (run_repl lines c)
run_repl ((b ∷ line) ∷ lines) c = elim (decode_line (b ∷ line)) [
  | refused e ↦ then_print (prompt ∷ print_error e ∷ []) (run_repl lines c)
  | decoded req ↦ then_print (prompt ∷ []) (ask req c (run_repl lines))
]

-- `std::isspace` before a number, and a sign
unfoldable pub skip_spaces : Bytes → Bytes
skip_spaces [] = []
skip_spaces (c ∷ s) = if is_space c then skip_spaces s else c ∷ s

unfoldable pub take_sign : Bytes → Bool × Bytes
take_sign [] = (false, [])
take_sign (c ∷ s) =
    if c == b'-' then (true, s) else if c == b'+' then (false, s) else (false, c ∷ s)

-- The number that the digits spell, negated in 64 bits behind a minus sign; `none` where `strtoul`
-- sets `errno`, reads no digit or stops before the end.
unfoldable pub signed_value : Bool → Bytes × Bytes → Option ℕ
unfolding stoull
signed_value negative ([], rest) = none
signed_value negative (d ∷ ds, c ∷ rest) = none
signed_value negative (d ∷ ds, []) = elim (stoull (d ∷ ds)) [
  | none ↦ none
  | some n ↦ some (if negative then (u64_mod - n) % u64_mod else n)
]

-- `std::strtoul` with base 10, as `readPortFromEnv` checks its result
unfoldable pub strtoul : Bytes → Option ℕ
unfolding skip_spaces take_sign span_digits signed_value
strtoul s =
    let (negative, digits) = take_sign (skip_spaces s) in signed_value negative (span_digits digits)

-- `readPortFromEnv`, over the value of TINYKV_PORT, if it is set
unfoldable pub read_port : Option Bytes → Option ℕ
unfolding strtoul
read_port none = none
read_port (some []) = none
read_port (some (c ∷ raw)) = elim (strtoul (c ∷ raw)) [
  | none ↦ none
  | some n ↦ if ltb 65535 n then none else some n
]
