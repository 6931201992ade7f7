-- ===== src/Tests/Wire.antt =====
-- Requests, responses and chunks of a connection.
use tiny_kv.Common.{◌<◌, ◌≡◌, refl, true, some, [], ◌∷◌, arith, codes, length}
use tiny_kv.Message.{Request, Response, put}
use tiny_kv.Codec.{
  decode_line, payload_bytes, decode_response_line, encode_request, encode_response, decoded,
  is_space,
}
use tiny_kv.Common.Words.{u64_mod}
use tiny_kv.Codec.Requests.{decode_line-encode_request}
use tiny_kv.Codec.Responses.{delivered, decode_response_line-encode_response}

abbrev request : Request
request = record { command = put; args = codes "a" ∷ codes "red" ∷ [] }

decode_line-encode_request_example : decode_line (encode_request request) ≡ decoded request
decode_line-encode_request_example = decode_line-encode_request request (
  ((λ e. cc), unfold is_space in (refl, tt)),
  (((λ e. cc), unfold is_space in (refl, (refl, (refl, tt)))), tt),
)

abbrev response : Response
response = record { is_ok = true; message = codes "OK"; payload = some (codes "red\n1") }

response_sizes :
    (length response.message < u64_mod) × (length (payload_bytes response.payload) < u64_mod)
response_sizes = (omega arith, omega arith)

decode_response_line-encode_response_example :
    decode_response_line (encode_response response) ≡ decoded (delivered response)
decode_response_line-encode_response_example =
    decode_response_line-encode_response response response_sizes.0 response_sizes.1
