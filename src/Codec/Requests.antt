-- ===== src/Codec/Requests.antt =====
-- A request decoded after it was encoded.
use tiny_kv.Common.{
  ◌≡◌, refl, ap, ◌∙◌, ◌≢◌, false, List, [], ◌∷◌, ◌++◌, append_assoc, append-nil, arith, Bytes, All,
  codes, sym, Bool-cases, subst, ◌==◌, All-append,
}
use tiny_kv.Common.Order.{compare_bytes}
use tiny_kv.Codec.{
  tokens_of, finish_token, is_space, encode_args, encode_request, decode_line, decode_tokens,
  command_text, parse_command, decoded, inl, inr,
}
use tiny_kv.Message.{Command, Request, put, get, del, exit, flush, unknown}

abbrev NoSpace : Bytes → Type 0
NoSpace = All (λ c. is_space c ≡ false)

-- an argument that the decoder reads as one token
abbrev pub IsToken : Bytes → Type 0
IsToken t = (t ≢ []) × All (λ c. is_space c ≡ false) t

tokens_of-append :
    (t s current : Bytes) → NoSpace t → tokens_of current (t ++ s) ≡ tokens_of (current ++ t) s
unfolding tokens_of
tokens_of-append [] s current h = rw append-nil
tokens_of-append (c ∷ t) s current h =
    ground (arith, tokens_of-append t s (current ++ c ∷ []) h.1, append_assoc current (c ∷ []) t)

finish_token-full : (t : Bytes) (ts : List Bytes) → t ≢ [] → finish_token t ts ≡ t ∷ ts
unfolding finish_token
finish_token-full [] ts h = absurd (h refl)
finish_token-full (c ∷ t) ts h = refl

tokens_of-encode_args :
    (t : Bytes) (args : List Bytes)
    → t ≢ []
    → All IsToken args
    → tokens_of t (encode_args args) ≡ t ∷ args
unfolding encode_args
tokens_of-encode_args t [] n h = unfold tokens_of in finish_token-full t [] n
tokens_of-encode_args t (a ∷ args) n ((an, as_), h) =
    space t (a ++ encode_args args)
    ∙ ap (finish_token t)
        (tokens_of-append a (encode_args args) [] as_ ∙ tokens_of-encode_args a args an h)
    ∙ finish_token-full t (a ∷ args) n
  where
    space : (u s : Bytes) → tokens_of u (b' ' ∷ s) ≡ finish_token u (tokens_of [] s)
    space u s = unfold tokens_of in refl

command_text-IsToken : (c : Command) → IsToken (command_text c)
unfolding command_text is_space
command_text-IsToken put = ground arith
command_text-IsToken get = ground arith
command_text-IsToken del = ground arith
command_text-IsToken exit = ground arith
command_text-IsToken flush = ground arith
command_text-IsToken unknown = ground arith

parse_command-command_text : (c : Command) → parse_command (command_text c) ≡ c
unfolding parse_command command_text compare_bytes
parse_command-command_text put = refl
parse_command-command_text get = refl
parse_command-command_text del = refl
parse_command-command_text exit = refl
parse_command-command_text flush = refl
parse_command-command_text unknown = refl

-- A request whose arguments are words comes back as it was sent, whatever its command.
pub decode_line-encode_request :
    (r : Request) → All IsToken r.args → decode_line (encode_request r) ≡ decoded r
unfolding decode_line encode_request
decode_line-encode_request r h =
    let (n, words) = command_text-IsToken r.command in
    rw
      (tokens_of-append (command_text r.command) (encode_args r.args) [] words
        ∙ tokens_of-encode_args (command_text r.command) r.args n h)
      (unfold decode_tokens in rw (parse_command-command_text r.command))

abbrev pub words_line : List Bytes → Bytes
words_line [] = []
words_line (a ∷ args) = b' ' ∷ (a ++ words_line args)

-- the line of a request, without its newline
abbrev pub request_line : Request → Bytes
request_line r = command_text r.command ++ words_line r.args

tokens_of-newline : (s current : Bytes) → tokens_of current (s ++ codes "\n") ≡ tokens_of current s
unfolding tokens_of is_space
tokens_of-newline [] current = refl
tokens_of-newline (c ∷ s) current = elim (Bool-cases (is_space c)) [
  | inl space ↦ ground (arith, tokens_of-newline s [])
  | inr other ↦ ground (arith, tokens_of-newline s (current ++ c ∷ []))
]

encode_args-line : (args : List Bytes) → encode_args args ≡ words_line args ++ codes "\n"
unfolding encode_args
encode_args-line [] = refl
encode_args-line (a ∷ args) =
    ap (λ (s : Bytes). b' ' ∷ (a ++ s)) (encode_args-line args)
    ∙ ap (λ (s : Bytes). b' ' ∷ s) (sym (append_assoc a (words_line args) (codes "\n")))

pub encode_request-line : (r : Request) → encode_request r ≡ request_line r ++ codes "\n"
unfolding encode_request
encode_request-line r =
    ap (λ (s : Bytes). command_text r.command ++ s) (encode_args-line r.args)
    ∙ sym (append_assoc (command_text r.command) (words_line r.args) (codes "\n"))

-- the line that `readLine` finds, without its newline
pub decode_line-request_line :
    (r : Request) → All IsToken r.args → decode_line (request_line r) ≡ decoded r
decode_line-request_line r h =
    unfold decode_line in
    ap decode_tokens (sym (tokens_of-newline (request_line r) []))
    ∙ ap decode_line (sym (encode_request-line r))
    ∙ decode_line-encode_request r h

finish_token-IsToken :
    (t : Bytes) (ts : List Bytes) → NoSpace t → All IsToken ts → All IsToken (finish_token t ts)
unfolding finish_token
finish_token-IsToken [] ts h w = w
finish_token-IsToken (c ∷ t) ts h w = (((λ e. cc), h), w)

decoded_injective : (q r : Request) → decoded q ≡ decoded r → q ≡ r
decoded_injective q r e = cc

tokens_of-IsToken : (s current : Bytes) → NoSpace current → All IsToken (tokens_of current s)
unfolding tokens_of finish_token
tokens_of-IsToken [] [] h = tt
tokens_of-IsToken [] (c ∷ current) h = (((λ e. cc), h), tt)
tokens_of-IsToken (b ∷ s) current h = elim (Bool-cases (is_space b)) [
  | inl space ↦
      let step : tokens_of current (b ∷ s) ≡ finish_token current (tokens_of [] s) =
        ground (arith, space) in
      subst (All IsToken) (sym step)
        (finish_token-IsToken current (tokens_of [] s) h (tokens_of-IsToken s [] tt))
  | inr other ↦
      let step : tokens_of current (b ∷ s) ≡ tokens_of (current ++ b ∷ []) s =
        ground (arith, other) in
      subst (All IsToken) (sym step) (
        tokens_of-IsToken s (current ++ b ∷ [])
          (All-append (λ c. is_space c ≡ false) current (b ∷ []) h (other, tt)))
]

-- What is decoded has words for arguments.
pub decode_line-IsToken : (s : Bytes) (r : Request) → decode_line s ≡ decoded r → All IsToken r.args
unfolding decode_line
decode_line-IsToken s r h = at (tokens_of [] s) (tokens_of-IsToken s [] tt) h
  where
    at : (ts : List Bytes) → All IsToken ts → decode_tokens ts ≡ decoded r → All IsToken r.args
    at [] w e = unfold decode_tokens in absurd (ground (arith, e))
    at (t ∷ ts) (w, ws) e =
        subst (λ (q : Request). All IsToken q.args)
          (decoded_injective _ r (unfold decode_tokens in e)) ws

NoSpace-NoNewline : (t : Bytes) → NoSpace t → All (λ c. (c == 10) ≡ false) t
NoSpace-NoNewline [] h = tt
NoSpace-NoNewline (c ∷ t) h = (not_newline, NoSpace-NoNewline t h.1)
  where
    not_newline : (c == 10) ≡ false
    not_newline = elim (Bool-cases (c == 10)) [
      | inl newline ↦ unfold is_space in ground (arith, h.0, newline)
      | inr other ↦ other
    ]

words_line-NoNewline :
    (args : List Bytes) → All IsToken args → All (λ c. (c == 10) ≡ false) (words_line args)
words_line-NoNewline [] h = tt
words_line-NoNewline (a ∷ args) ((n, w), h) = (
  refl,
  All-append (λ c. (c == 10) ≡ false) a (words_line args) (NoSpace-NoNewline a w)
      (words_line-NoNewline args h),
)

pub request_line-NoNewline :
    (r : Request) → All IsToken r.args → All (λ c. (c == 10) ≡ false) (request_line r)
request_line-NoNewline r h =
    All-append (λ c. (c == 10) ≡ false) (command_text r.command) (words_line r.args)
      (NoSpace-NoNewline (command_text r.command) (command_text-IsToken r.command).1)
      (words_line-NoNewline r.args h)
