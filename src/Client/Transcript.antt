-- ===== src/Client/Transcript.antt =====
-- What a terminal session is to print and to send, as functions of its input and the responses.
use tiny_kv.Common.{
  ◌<◌, Bool, true, false, List, [], ◌∷◌, ◌++◌, Option, none, some, if◌then◌else◌, Bytes, codes,
  length,
}
use tiny_kv.Client.{Printed, prompt, out, err}
use tiny_kv.Connection.{NoNewline}
use tiny_kv.Message.{Request, Response}
use tiny_kv.Codec.{decoded, refused, decode_line, encode_request, encode_response, payload_bytes}
use tiny_kv.Server.{is_exit}
use tiny_kv.Common.Words.{u64_mod}

-- the requests among the lines of the terminal, up to the first that ends the session
unfoldable pub requests : List Bytes → List Request
requests [] = []
requests (l ∷ lines) =
    let rest = requests lines in
    elim (decode_line l) [
      | refused e ↦ rest
      | decoded req ↦ req ∷ (if is_exit req.command then [] else rest)
    ]

-- What stands on the terminal for a response: the value that it brings; if it brings none, OK; and of
-- a failure, its message.
unfoldable pub answer : Bool → Bytes → Option Bytes → Printed
answer true message (some value) = out (value ++ codes "\n")
answer true message none = out (codes "OK\n")
answer false message payload = out (codes "ERR: " ++ (message ++ codes "\n"))

unfoldable pub answer_to : Response → Printed
unfolding answer
answer_to r = answer r.is_ok r.message r.payload

-- what stands there for a line that is no request
unfoldable pub complaint : Bytes → Printed
complaint message = err (codes "ERR: " ++ (message ++ codes "\n"))

-- What a terminal shows of the responses alone: after the prompt, an answer for each request and a
-- complaint for each line that is none, until a request ends the session or the input ends.
unfoldable pub shown : Request → List Response → (List Response → List Printed) → List Printed
unfolding answer_to
shown req [] rest = prompt ∷ []
shown req (r ∷ responses) rest =
    prompt ∷ answer_to r ∷ (elim (is_exit req.command) [ true ↦ [] | false ↦ rest responses ])

unfoldable pub transcript : List Bytes → List Response → List Printed
unfolding shown complaint
transcript [] responses = prompt ∷ out (codes "\n") ∷ []
transcript ([] ∷ lines) responses = prompt ∷ transcript lines responses
transcript ((b ∷ line) ∷ lines) responses = elim (decode_line (b ∷ line)) [
  | refused e ↦ prompt ∷ complaint e ∷ transcript lines responses
  | decoded req ↦ shown req responses (transcript lines)
]

abbrev pub sent_bytes : List Request → Bytes
sent_bytes [] = []
sent_bytes (req ∷ reqs) = encode_request req ++ sent_bytes reqs

abbrev pub response_bytes : List Response → Bytes
response_bytes [] = []
response_bytes (r ∷ rs) = encode_response r ++ response_bytes rs

-- a response that is one line of text, of a length that fits its field
pub record OneLine (r : Response) : Type 0 where
  pub message_line : NoNewline r.message
  pub payload_line : NoNewline (payload_bytes r.payload)
  pub message_fits : length r.message < u64_mod
  pub payload_fits : length (payload_bytes r.payload) < u64_mod
