-- ===== src/Client/Dialogue.antt =====
-- A terminal and a session that talk to each other over a network.
use tiny_kv.Common.{
  ℕ, suc, ◌≡◌, refl, sym, ap, ◌∙◌, ◌⊎◌, inl, inr, true, List, [], ◌∷◌, ◌++◌, append_assoc,
  append-nil, map, subst, arith, if◌then◌else◌, Bool-cases, Bytes, codes, length, All,
}
use tiny_kv.Common.Outcome.{Outcome, ok, throws, fault}
use tiny_kv.Client.{run_repl}
use tiny_kv.Client.Transcript.{requests, transcript, OneLine, sent_bytes, response_bytes}
use tiny_kv.Client.Laws.{run_repl-Talked}
use tiny_kv.Connection.{NoNewline, Accepts, concat}
use tiny_kv.Connection.Fd.{FdConnection, IsLive, incoming}
use tiny_kv.Message.{Request, Response}
use tiny_kv.Codec.{decoded, refused, decode_line, encode_response}
use tiny_kv.Codec.Requests.{
  IsToken, request_line, decode_line-IsToken, encode_request-line, request_line-NoNewline,
  decode_line-request_line,
}
use tiny_kv.Common.Exec.{Exec, continue, ◌>>=◌, pure}
use tiny_kv.Server.{run, execute, is_exit}
use tiny_kv.Server.Laws.{respond, ends_session, then_rest, nothing_more, run_line, Decoded-cases}
use tiny_kv.Server.Serve.{serve, frame, numbered, Serves, serve-Serves}
use tiny_kv.Table.{TableFormat}
use tiny_kv.Context.{Env}
use tiny_kv.MemTable.{Engine}
use tiny_kv.Codec.Responses.{delivered}

-- requests as a terminal makes them: their arguments are words, and nothing follows an EXIT
abbrev IsAsked : List Request → Type 0
IsAsked [] = Unit
IsAsked (req ∷ reqs) =
    All IsToken req.args × (is_exit req.command ≡ true → reqs ≡ []) × IsAsked reqs

requests-IsAsked : (lines : List Bytes) → IsAsked (requests lines)
unfolding requests
requests-IsAsked [] = tt
requests-IsAsked (l ∷ lines) =
    at (requests lines) (requests-IsAsked lines) (Decoded-cases (decode_line l))
  where
    at :
        (rest : List Request)
        → IsAsked rest
        → ((e : Bytes) × (decode_line l ≡ refused e))
          ⊎ ((r : Request) × (decode_line l ≡ decoded r))
        → IsAsked (elim (decode_line l) [
          | refused e ↦ rest
          | decoded req ↦ req ∷ (if is_exit req.command then [] else rest)
        ])
    at rest h (inl (e, p)) = rw p h
    at rest h (inr (req, p)) = rw p (
      decode_line-IsToken l req p,
      λ stop. rw stop refl,
      elim (Bool-cases (is_exit req.command)) [ inl stop ↦ rw stop tt | inr more ↦ rw more h ],
    )

frame-sent_bytes : (reqs : List Request) → frame (map request_line reqs) [] ≡ sent_bytes reqs
frame-sent_bytes [] = refl
frame-sent_bytes (req ∷ reqs) =
    ap (λ (s : Bytes). request_line req ++ 10 ∷ s) (frame-sent_bytes reqs)
    ∙ sym (append_assoc (request_line req) (codes "\n") (sent_bytes reqs))
    ∙ ap (λ (s : Bytes). s ++ sent_bytes reqs) (sym (encode_request-line req))

concat-response_bytes : (rs : List Response) → concat (map encode_response rs) ≡ response_bytes rs
concat-response_bytes [] = refl
concat-response_bytes (r ∷ rs) =
    ap (λ (s : Bytes). encode_response r ++ s) (concat-response_bytes rs)

request_lines-NoNewline :
    (reqs : List Request) → IsAsked reqs → All NoNewline (map request_line reqs)
request_lines-NoNewline [] h = tt
request_lines-NoNewline (req ∷ reqs) (w, last, h) =
    (request_line-NoNewline req w, request_lines-NoNewline reqs h)

module _ (F : TableFormat) where
  -- the requests executed one after the other, with no bytes between
  unfoldable pub execute_all : (ℕ → Env) → ℕ → List Request → Exec (Engine F.Reader) (List Response)
  execute_all envs i [] = pure []
  execute_all envs i (req ∷ reqs) = do
    res ← execute F (envs i) req.command req.args
    rest ← execute_all envs (suc i) reqs
    pure (res ∷ rest)

  abbrev encoded :
      Outcome (List Response) × Engine F.Reader → Outcome (List Bytes) × Engine F.Reader
  encoded r = continue r.0 (λ rs s. (ok (map encode_response rs), s)) r.1

  abbrev with_response :
      Response
      → Outcome (List Response) × Engine F.Reader
      → Outcome (List Response) × Engine F.Reader
  with_response res r = continue r.0 (λ rest s. (ok (res ∷ rest), s)) r.1

  executed :
      (req : Request) (reqs : List Request) (envs : ℕ → Env) (i : ℕ) (s : Engine F.Reader)
      → execute_all envs i (req ∷ reqs) s
        ≡ continue
            (execute F (envs i) req.command req.args s).0
            (λ res s. with_response res (execute_all envs (suc i) reqs s))
            (execute F (envs i) req.command req.args s).1
  unfolding execute_all
  executed req reqs envs i s = refl

  respond-request_line :
      (env : Env) (req : Request) (s : Engine F.Reader)
      → All IsToken req.args
      → respond F env (request_line req) s ≡ execute F env req.command req.args s
  unfolding respond
  respond-request_line env req s w = ground (arith, decode_line-request_line req w)

  ends_session-request_line :
      (req : Request) → All IsToken req.args → ends_session (request_line req) ≡ is_exit req.command
  unfolding ends_session
  ends_session-request_line req w = ground (arith, decode_line-request_line req w)

  encoded-with_response :
      (res : Response) (out : Outcome (List Bytes) × Engine F.Reader)
      (r : Outcome (List Response) × Engine F.Reader)
      → out ≡ encoded r
      → continue out.0 (λ o s. (ok (encode_response res ∷ o), s)) out.1
        ≡ encoded (with_response res r)
  encoded-with_response res out (ok rs, s) h = rw h refl
  encoded-with_response res out (throws x, s) h = rw h refl
  encoded-with_response res out (fault, s) h = rw h refl

  encoded-continue :
      (r : Outcome Response × Engine F.Reader) (rest : Exec (Engine F.Reader) (List Bytes))
      (all : Exec (Engine F.Reader) (List Response))
      → ((s : Engine F.Reader) → rest s ≡ encoded (all s))
      → continue r.0 (λ res. then_rest F res rest) r.1
        ≡ encoded (continue r.0 (λ res s. with_response res (all s)) r.1)
  encoded-continue (ok res, s) rest all h = encoded-with_response res (rest s) (all s) (h s)
  encoded-continue (throws x, s) rest all h = refl
  encoded-continue (fault, s) rest all h = refl

  -- behind a request, the session goes on as the requests do
  after_request :
      (req : Request) (reqs : List Request) (envs : ℕ → Env) (i : ℕ) (s : Engine F.Reader)
      → All IsToken req.args
      → (is_exit req.command ≡ true → reqs ≡ [])
      → run F (numbered envs i (map request_line reqs)) s ≡ encoded (execute_all envs i reqs s)
      → (if ends_session (request_line req)
            then nothing_more F
            else run F (numbered envs i (map request_line reqs)))
          s
        ≡ encoded (execute_all envs i reqs s)
  after_request req reqs envs i s w last h = elim (Bool-cases (is_exit req.command)) [
    | inl stop ↦
        rw (ends_session-request_line req w ∙ stop) (rw (last stop) (unfold execute_all in refl))
    | inr more ↦ rw (ends_session-request_line req w ∙ more) h
  ]

  -- A session on the lines of such requests does what the requests do.
  run-execute_all :
      (reqs : List Request) (envs : ℕ → Env) (i : ℕ) (s : Engine F.Reader)
      → IsAsked reqs
      → run F (numbered envs i (map request_line reqs)) s ≡ encoded (execute_all envs i reqs s)
  run-execute_all [] envs i s h = unfold run execute_all in refl
  run-execute_all (req ∷ reqs) envs i s (w, last, h) =
      run_line F (envs i) (request_line req) (numbered envs (suc i) (map request_line reqs)) s
      ∙ ap
          (λ (r : Outcome Response × Engine F.Reader).
            continue r.0
              (λ res. then_rest F res (
                if ends_session (request_line req)
                then nothing_more F
                else run F (numbered envs (suc i) (map request_line reqs))))
              r.1)
          (respond-request_line (envs i) req s w)
      ∙ encoded-continue (execute F (envs i) req.command req.args s) _
          (execute_all envs (suc i) reqs)
          (λ s'.
            after_request req reqs envs (suc i) s' w last (run-execute_all reqs envs (suc i) s' h))
      ∙ ap encoded (sym (executed req reqs envs i s))

  -- a response for each request
  abbrev Sized : ℕ → Outcome (List Response) × Engine F.Reader → Type 0
  Sized n (ok rs, s) = length rs ≡ n
  Sized n (throws x, s) = Unit
  Sized n (fault, s) = Unit

  with_response-Sized :
      (n : ℕ) (res : Response) (r : Outcome (List Response) × Engine F.Reader)
      → Sized n r
      → Sized (suc n) (with_response res r)
  with_response-Sized n res (ok rs, s) h = ap suc h
  with_response-Sized n res (throws x, s) h = tt
  with_response-Sized n res (fault, s) h = tt

  continue-Sized :
      (n : ℕ) (r : Outcome Response × Engine F.Reader)
      (f : Response → Exec (Engine F.Reader) (List Response))
      → ((res : Response) (s : Engine F.Reader) → Sized n (f res s))
      → Sized n (continue r.0 f r.1)
  continue-Sized n (ok res, s) f h = h res s
  continue-Sized n (throws x, s) f h = tt
  continue-Sized n (fault, s) f h = tt

  execute_all-Sized :
      (reqs : List Request) (envs : ℕ → Env) (i : ℕ) (s : Engine F.Reader)
      → Sized (length reqs) (execute_all envs i reqs s)
  execute_all-Sized [] envs i s = unfold execute_all in refl
  execute_all-Sized (req ∷ reqs) envs i s =
      subst (Sized (suc (length reqs))) (sym (executed req reqs envs i s)) (
        continue-Sized (suc (length reqs)) (execute F (envs i) req.command req.args s) _ (λ res s'.
          with_response-Sized (length reqs) res (execute_all envs (suc i) reqs s')
            (execute_all-Sized reqs envs (suc i) s')))

  length-execute_all :
      (reqs : List Request) (envs : ℕ → Env) (i : ℕ) (s t : Engine F.Reader) (rs : List Response)
      → execute_all envs i reqs s ≡ (ok rs, t)
      → length rs ≡ length reqs
  length-execute_all reqs envs i s t rs h =
      subst (Sized (length reqs)) h (execute_all-Sized reqs envs i s)

  -- An exchange between a terminal and a session closes. Let the requests among the terminal's
  -- lines, as `decodeLine` reads them, executed one after the other on an engine, end with no
  -- exception and with responses that are each one line of text. Let the client's open connection
  -- bring the bytes of these responses, and the session's those of the requests, each in any
  -- chunks, and each `send` take a byte at least. Then what the client sends is what the session
  -- was brought, what the session sends is what the client was brought, the terminal shows the
  -- transcript of these responses and ends with status 0, and the session ends in order and leaves
  -- the engine as the requests do.
  pub run_repl-serve :
      (input : List Bytes) (envs : ℕ → Env) (s t : Engine F.Reader) (responses : List Response)
      (client server : FdConnection)
      → execute_all envs 0 (requests input) s ≡ (ok responses, t)
      → All OneLine responses
      → IsLive client
      → IsLive server
      → Accepts client.sends (length (sent_bytes (requests input)))
      → Accepts server.sends (length (response_bytes responses))
      → client.sent ≡ []
      → server.sent ≡ []
      → incoming client ≡ response_bytes responses
      → incoming server ≡ sent_bytes (requests input)
      → ((run_repl input client).printed ≡ transcript input (map delivered responses))
        × ((run_repl input client).status ≡ 0)
        × ((run_repl input client).conn.sent ≡ incoming server)
        × ((serve F (suc (length (incoming server))) envs 0 (s, server)).0 ≡ ok tt)
        × ((serve F (suc (length (incoming server))) envs 0 (s, server)).1.0 ≡ t)
        × ((serve F (suc (length (incoming server))) envs 0 (s, server)).1.1.sent ≡ incoming client)
  run_repl-serve input envs s t rs client server done one cl sl ca sa cs ss ci si =
      let (shows, status, sent, left) =
        run_repl-Talked input rs [] client cl (ci ∙ sym (append-nil (response_bytes rs))) one
          (length-execute_all (requests input) envs 0 s t rs done) ca in
      let (ended, same, shut, wrote) = served in
      (
        shows,
        status,
        sent ∙ ap (λ (b : Bytes). b ++ sent_bytes (requests input)) cs ∙ sym si,
        ended,
        same,
        wrote (sa.0, omega (arith, sa.1, ap length (concat-response_bytes rs)))
            ∙ ap (λ (b : Bytes). b ++ concat (map encode_response rs)) ss
            ∙ concat-response_bytes rs
            ∙ sym ci,
      )
    where
      asked : IsAsked (requests input)
      asked = requests-IsAsked input

      ran :
          run F (numbered envs 0 (map request_line (requests input))) s
          ≡ (ok (map encode_response rs), t)
      ran = run-execute_all (requests input) envs 0 s asked ∙ ap encoded done

      served :
          Serves F server
            (ok (map encode_response rs), t)
            (serve F (suc (length (incoming server))) envs 0 (s, server))
      served =
          subst
            (λ r. Serves F server r (serve F (suc (length (incoming server))) envs 0 (s, server)))
            ran
            (serve-Serves F (map request_line (requests input)) [] envs s server sl
              (request_lines-NoNewline (requests input) asked) tt
              (si ∙ sym (frame-sent_bytes (requests input))))
