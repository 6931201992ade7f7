-- ===== src/Client/Laws.antt =====
-- A terminal session step by step: one request and its response, and the lines that ask nothing.
use tiny_kv.Common.{
  ℕ, ◌+◌, ◌≡◌, refl, sym, ap, ◌∙◌, inl, inr, Bool, true, false, Option, none, some, List, [], ◌∷◌,
  ◌++◌, append_assoc, append-nil, map, subst, arith, if◌then◌else◌, Bool-cases, Bytes, codes,
  length, All, length-append,
}
use tiny_kv.Client.{
  Printed, prompt, Ended, then_print, print_error, print_response, receive, ask, run_repl,
}
use tiny_kv.Connection.Fd
use tiny_kv.Connection.Fd.{FdConnection, IsLive, incoming}
use tiny_kv.Connection.{Accepts}
use tiny_kv.Message.{Request, Response}
use tiny_kv.Codec.{
  decoded, refused, decode_line, encode_request, encode_response, tokens_of, finish_token,
  decode_tokens,
}
use tiny_kv.Server.{is_exit}
use tiny_kv.Server.Laws.{Decoded-cases}
use tiny_kv.Codec.Responses.{
  delivered, response_with, encode_response-line, response_with-NoNewline,
  decode_response_line-line,
}
use tiny_kv.Client.Transcript.{
  OneLine, transcript, requests, response_bytes, sent_bytes, shown, answer, answer_to, complaint,
}

print_response_lem : (r : Response) → print_response r ≡ answer_to r
unfolding print_response answer_to
print_response_lem r = at r.is_ok r.payload refl refl
  where
    at :
        (b : Bool) (p : Option Bytes)
        → r.is_ok ≡ b
        → r.payload ≡ p
        → print_response r ≡ answer r.is_ok r.message r.payload
    at true (some v) e f = rw (e, f) refl
    at true none e f = rw (e, f) refl
    at false p e f = rw e refl

print_error_lem : (m : Bytes) → print_error m ≡ complaint m
unfolding print_error complaint
print_error_lem m = refl

-- One request and its response.
ask_lem :
    (req : Request) (r : Response) (c : FdConnection) (rest : Bytes) (more : ℕ)
    (k : FdConnection → Ended)
    → IsLive c
    → incoming c ≡ encode_response r ++ rest
    → OneLine r
    → Accepts c.sends (length (encode_request req) + more)
    → (c' : FdConnection) × (ask req c k
        ≡ then_print (answer_to (delivered r) ∷ []) (elim (is_exit req.command) [
          | true ↦ record { printed = []; status = 0; conn = c' }
          | false ↦ k c'
        ]))
      × IsLive c'
      × (incoming c' ≡ rest)
      × (c'.sent ≡ c.sent ++ encode_request req)
      × Accepts c'.sends more
unfolding ask receive
ask_lem req r c rest more k live e one a =
    let c1 : FdConnection = (Fd.write_all (encode_request req) c).1 in
    let (done, wrote, left) = Fd.write_all-sent (encode_request req) c more live.0 a in
    let (live1, e1) = Fd.write_all-IsLive (encode_request req) c live in
    let line : incoming c1 ≡ response_with [] r ++ 10 ∷ rest =
      e1
      ∙ e
      ∙ ap (λ (b : Bytes). b ++ rest) (encode_response-line r)
      ∙ append_assoc (response_with [] r) (codes "\n") rest in
    let (there, live2, e2, sends, sent) =
      Fd.read_line-line c1 (response_with [] r) rest live1
        (response_with-NoNewline r one.message_line one.payload_line) line in
    (
      (Fd.read_line c1).1,
      ground (
        arith,
        done,
        there,
        decode_response_line-line r one.message_fits one.payload_fits,
        print_response_lem (delivered r),
      ),
      live2,
      e2,
      sent ∙ wrote,
      rw sends left,
    )

-- A session at the terminal ends with status 0 and has shown the responses, sent the requests and left
-- the rest.
abbrev pub Talked : List Bytes → List Response → Bytes → FdConnection → Ended → Type 0
Talked lines responses rest c e =
    (e.printed ≡ transcript lines (map delivered responses))
    × (e.status ≡ 0)
    × (e.conn.sent ≡ c.sent ++ sent_bytes (requests lines))
    × (incoming e.conn ≡ rest)

requests_refused :
    (l m : Bytes) (lines : List Bytes)
    → decode_line l ≡ refused m
    → requests (l ∷ lines) ≡ requests lines
unfolding requests
requests_refused l m lines h = ground (arith, h)

requests_decoded :
    (l : Bytes) (req : Request) (lines : List Bytes)
    → decode_line l ≡ decoded req
    → requests (l ∷ lines) ≡ req ∷ (if is_exit req.command then [] else requests lines)
unfolding requests
requests_decoded l req lines h = ground (arith, h)

empty_line : (lines : List Bytes) → requests ([] ∷ lines) ≡ requests lines
unfolding requests decode_line tokens_of finish_token decode_tokens
empty_line lines = refl

-- a line that asks nothing
skipped-Talked :
    (lines : List Bytes) (rs : List Response) (rest : Bytes) (c : FdConnection)
    → Talked lines rs rest c (run_repl lines c)
    → Talked ([] ∷ lines) rs rest c (run_repl ([] ∷ lines) c)
unfolding run_repl transcript
skipped-Talked lines rs rest c (shows, status, sent, left) =
    (ap (λ (p : List Printed). prompt ∷ p) shows, status, rw (empty_line lines) sent, left)

refused-Talked :
    (b : ℕ) (line m : Bytes) (lines : List Bytes) (rs : List Response) (rest : Bytes)
    (c : FdConnection)
    → decode_line (b ∷ line) ≡ refused m
    → Talked lines rs rest c (run_repl lines c)
    → Talked ((b ∷ line) ∷ lines) rs rest c (run_repl ((b ∷ line) ∷ lines) c)
refused-Talked b line m lines rs rest c h (shows, status, sent, left) =
    subst (Talked ((b ∷ line) ∷ lines) rs rest c) (sym ran) (
      ap (λ (p : List Printed). prompt ∷ complaint m ∷ p) shows ∙ sym written,
      status,
      rw (requests_refused (b ∷ line) m lines h) sent,
      left,
    )
  where
    ran :
        run_repl ((b ∷ line) ∷ lines) c ≡ then_print (prompt ∷ complaint m ∷ []) (run_repl lines c)
    ran = unfold run_repl in ground (arith, h, print_error_lem m)

    written :
        transcript ((b ∷ line) ∷ lines) (map delivered rs)
        ≡ prompt ∷ complaint m ∷ transcript lines (map delivered rs)
    written = unfold transcript in ground (arith, h)

no_responses : (rs : List Response) → length rs ≡ 0 → response_bytes rs ≡ []
no_responses [] h = refl
no_responses (r ∷ rs) h = absurd (omega (arith, h))

-- a request and its response, and then the session's end or its next round
asked-Talked :
    (b : ℕ) (line : Bytes) (req : Request) (lines : List Bytes) (r : Response) (rs : List Response)
    (rest : Bytes) (c : FdConnection)
    → decode_line (b ∷ line) ≡ decoded req
    → IsLive c
    → incoming c ≡ encode_response r ++ (response_bytes rs ++ rest)
    → OneLine r
    → length (r ∷ rs) ≡ length (requests ((b ∷ line) ∷ lines))
    → Accepts c.sends (length (sent_bytes (requests ((b ∷ line) ∷ lines))))
    → ((c' : FdConnection)
        → IsLive c'
        → incoming c' ≡ response_bytes rs ++ rest
        → length rs ≡ length (requests lines)
        → Accepts c'.sends (length (sent_bytes (requests lines)))
        → Talked lines rs rest c' (run_repl lines c'))
    → Talked ((b ∷ line) ∷ lines) (r ∷ rs) rest c (run_repl ((b ∷ line) ∷ lines) c)
asked-Talked b line req lines r rs rest c h live e one n a next =
    elim (Bool-cases (is_exit req.command)) [
      | inl stop ↦
          let asks : requests ((b ∷ line) ∷ lines) ≡ req ∷ [] =
            requests_decoded (b ∷ line) req lines h ∙ rw stop refl in
          let (c', did, live', e', sent, left) =
            ask_lem req r c (response_bytes rs ++ rest) 0 (run_repl lines) live e one (
              a.0,
              omega (
                arith,
                a.1,
                ap length (ap sent_bytes asks),
                length-append (encode_request req) [],
              ),
            ) in
          let none_left : response_bytes rs ≡ [] =
            no_responses rs (omega (arith, n, ap length asks)) in
          let ended : Ended = record { printed = []; status = 0; conn = c' } in
          let asked : ask req c (run_repl lines) ≡ then_print (answer_to (delivered r) ∷ []) ended =
            did ∙ rw stop refl in
          subst (Talked ((b ∷ line) ∷ lines) (r ∷ rs) rest c)
            (sym (ran ∙ ap (then_print (prompt ∷ [])) asked))
            (
              sym (written ∙ unfold shown in rw stop refl),
              refl,
              sent
                  ∙ ap (λ (s : Bytes). c.sent ++ s) (sym (append-nil (encode_request req)))
                  ∙ ap (λ (reqs : List Request). c.sent ++ sent_bytes reqs) (sym asks),
              e' ∙ ap (λ (s : Bytes). s ++ rest) none_left,
            )
      | inr more ↦
          let asks : requests ((b ∷ line) ∷ lines) ≡ req ∷ requests lines =
            requests_decoded (b ∷ line) req lines h ∙ rw more refl in
          let (c', did, live', e', sent, left) =
            ask_lem req r c (response_bytes rs ++ rest) (length (sent_bytes (requests lines)))
              (run_repl lines) live e one
              (
                a.0,
                omega (
                  arith,
                  a.1,
                  ap length (ap sent_bytes asks),
                  length-append (encode_request req) (sent_bytes (requests lines)),
                ),
              ) in
          let (shows, status, sent', left') =
            next c' live' e' (omega (arith, n, ap length asks)) left in
          let asked : ask req c (run_repl lines)
              ≡ then_print (answer_to (delivered r) ∷ []) (run_repl lines c') =
            did ∙ rw more refl in
          subst (Talked ((b ∷ line) ∷ lines) (r ∷ rs) rest c)
            (sym (ran ∙ ap (then_print (prompt ∷ [])) asked))
            (
              ap (λ (p : List Printed). prompt ∷ answer_to (delivered r) ∷ p) shows
                  ∙ sym (written ∙ unfold shown in rw more refl),
              status,
              sent'
                  ∙ ap (λ (s : Bytes). s ++ sent_bytes (requests lines)) sent
                  ∙ append_assoc c.sent (encode_request req) (sent_bytes (requests lines))
                  ∙ ap (λ (reqs : List Request). c.sent ++ sent_bytes reqs) (sym asks),
              left',
            )
    ]
  where
    ran : run_repl ((b ∷ line) ∷ lines) c ≡ then_print (prompt ∷ []) (ask req c (run_repl lines))
    ran = unfold run_repl in ground (arith, h)

    written :
        transcript ((b ∷ line) ∷ lines) (map delivered (r ∷ rs))
        ≡ shown req (map delivered (r ∷ rs)) (transcript lines)
    written = unfold transcript in ground (arith, h)

-- A terminal on an open connection whose `send` takes a byte at least for each byte of the
-- requests, and that brings, in any chunks, the bytes of as many responses as there are requests
-- among the lines, as `decodeLine` reads them, each response one line of text, and any bytes behind
-- them: the client ends with status 0, has sent the requests, in order, and leaves the bytes
-- behind. For each line up to the first request that ends the session it has shown a prompt, and
-- behind it, for a request, the response's value, or OK, or its error, and for a line that is not
-- empty and no request, a complaint; where the input ends first, a prompt and a line's end.
pub run_repl-Talked :
    (lines : List Bytes) (responses : List Response) (rest : Bytes) (c : FdConnection)
    → IsLive c
    → incoming c ≡ response_bytes responses ++ rest
    → All OneLine responses
    → length responses ≡ length (requests lines)
    → Accepts c.sends (length (sent_bytes (requests lines)))
    → Talked lines responses rest c (run_repl lines c)
run_repl-Talked [] (r ∷ rs) rest c live e one n a = absurd (unfold requests in omega (arith, n))
run_repl-Talked [] [] rest c live e one n a =
    unfold run_repl transcript requests in (refl, refl, sym (append-nil c.sent), e)
run_repl-Talked ([] ∷ lines) rs rest c live e one n a = skipped-Talked lines rs rest c (
    run_repl-Talked lines rs rest c live e one (rw (← empty_line lines) n)
      (rw (← empty_line lines) a))
run_repl-Talked ((b ∷ line) ∷ lines) [] rest c live e one n a =
    elim (Decoded-cases (decode_line (b ∷ line))) [
      | inl (m, h) ↦
          let same : requests ((b ∷ line) ∷ lines) ≡ requests lines =
            requests_refused (b ∷ line) m lines h in
          refused-Talked b line m lines [] rest c h
            (run_repl-Talked lines [] rest c live e one (rw (← same) n) (rw (← same) a))
      | inr (req, h) ↦
          absurd (omega (arith, n, ap length (requests_decoded (b ∷ line) req lines h)))
    ]
run_repl-Talked ((b ∷ line) ∷ lines) (r ∷ rs) rest c live e one n a =
    elim (Decoded-cases (decode_line (b ∷ line))) [
      | inl (m, h) ↦
          let same : requests ((b ∷ line) ∷ lines) ≡ requests lines =
            requests_refused (b ∷ line) m lines h in
          refused-Talked b line m lines (r ∷ rs) rest c h
            (run_repl-Talked lines (r ∷ rs) rest c live e one (rw (← same) n) (rw (← same) a))
      | inr (req, h) ↦
          asked-Talked b line req lines r rs rest c h live
            (e ∙ append_assoc (encode_response r) (response_bytes rs) rest) one.0 n a
            (λ c' live' e' n' a'. run_repl-Talked lines rs rest c' live' e' one.1 n' a')
    ]
