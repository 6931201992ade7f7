-- ===== src/Server/Serve.antt =====
-- net/session.cpp on a connection: `Session::run` reading lines from an FdConnection and writing to it.
use tiny_kv.Common.{
  ℕ, zero, suc, ◌≤◌, ◌<◌, ◌≡◌, refl, sym, ap, ◌∙◌, inl, inr, true, false, none, some, List, [], ◌∷◌,
  ◌++◌, append_assoc, append-nil, subst, arith, if◌then◌else◌, Bool-cases, Bytes, length, All,
  length-append,
}
use tiny_kv.Common.Outcome.{Outcome, ok, throws, fault}
use tiny_kv.Server.{run, execute, refusal, is_exit}
use tiny_kv.Server.Laws.{respond, ends_session, then_rest, nothing_more, run_line, Decoded-cases}
use tiny_kv.Connection.Fd
use tiny_kv.Connection.Fd.{FdConnection, IsLive, incoming}
use tiny_kv.Connection.{NoNewline, Accepts, concat}
use tiny_kv.Common.Exec.{Exec, continue}
use tiny_kv.Codec.{decoded, refused, decode_line, encode_response}
use tiny_kv.Context.{Env}
use tiny_kv.Message.{Response}
use tiny_kv.Table.{TableFormat}
use tiny_kv.MemTable.{Engine}

-- lines as a client sends them, and bytes behind the last newline
abbrev pub frame : List Bytes → Bytes → Bytes
frame [] tail = tail
frame (l ∷ ls) tail = l ++ 10 ∷ frame ls tail

-- each line with the surroundings of its round
abbrev pub numbered : (ℕ → Env) → ℕ → List Bytes → List (Env × Bytes)
numbered envs i [] = []
numbered envs i (l ∷ ls) = (envs i, l) ∷ numbered envs (suc i) ls

-- `conn_.writeAll(protocol::encodeResponse(res))`, whose result is dropped
unfoldable pub write_response : Response → FdConnection → FdConnection
write_response res c = (Fd.write_all (encode_response res) c).1

module _ (F : TableFormat) where
  -- the engine and the connection of one session
  abbrev pub Served : Type 0
  Served = Engine F.Reader × FdConnection

  -- What follows a response; an exception leaves `run`, and closes nothing.
  unfoldable pub after_execute :
      Outcome Response × Engine F.Reader
      → FdConnection
      → (Served → Outcome (Unit {0}) × Served)
      → Outcome (Unit {0}) × Served
  unfolding write_response
  after_execute (ok res, s) c rest = rest (s, write_response res c)
  after_execute (throws x, s) c rest = (throws x, (s, c))
  after_execute (fault, s) c rest = (fault, (s, c))

  unfoldable pub close_session : Served → Outcome (Unit {0}) × Served
  close_session (s, c) = (ok tt, (s, Fd.close c))

  -- The `while (true)` loop from round `i` on. Each round but the last takes a newline off what
  -- arrives, so one round more than that has bytes is enough.
  unfoldable pub serve : ℕ → (ℕ → Env) → ℕ → Served → Outcome (Unit {0}) × Served
  unfolding after_execute close_session write_response decode_line execute
  serve zero envs i (s, c) = (fault, (s, c))
  serve (suc fuel) envs i (s, c) =
      let (line, c1) = Fd.read_line c in
      elim line [
        | none ↦ close_session (s, c1)
        | some l ↦ elim (decode_line l) [
          | refused e ↦ serve fuel envs (suc i) (s, write_response (refusal e) c1)
          | decoded req ↦
              after_execute (execute F (envs i) req.command req.args s) c1
                (elim (is_exit req.command) [
                  | true ↦ close_session
                  | false ↦ serve fuel envs (suc i)
                ])
        ]
      ]

  -- How a session on a connection answers for one on the lines: it ends as that does and leaves the
  -- same engine. If no exception ends it, the connection is closed, and where `send` takes a byte at
  -- least each time, what was sent are the responses.
  abbrev pub Serves :
      FdConnection → Outcome (List Bytes) × Engine F.Reader → Outcome (Unit {0}) × Served → Type 0
  Serves c (ok out, s) (o, (s', c')) =
      (o ≡ ok tt)
      × (s' ≡ s)
      × (c'.is_open ≡ false)
      × (Accepts c.sends (length (concat out)) → c'.sent ≡ c.sent ++ concat out)
  Serves c (throws x, s) (o, (s', c')) = (o ≡ throws x) × (s' ≡ s)
  Serves c (fault, s) (o, (s', c')) = (o ≡ fault) × (s' ≡ s)

  -- one round of the loop
  serve_line :
      (fuel : ℕ) (envs : ℕ → Env) (i : ℕ) (s : Engine F.Reader) (c : FdConnection) (line : Bytes)
      → (Fd.read_line c).0 ≡ some line
      → serve (suc fuel) envs i (s, c)
        ≡ after_execute
            (respond F (envs i) line s)
            (Fd.read_line c).1
            (if ends_session line then close_session else serve fuel envs (suc i))
  unfolding serve respond ends_session after_execute
  serve_line fuel envs i s c line there = elim (Decoded-cases (decode_line line)) [
    | inl (e, h) ↦ ground (arith, there, h)
    | inr (req, h) ↦ elim (Bool-cases (is_exit req.command)) [
      | inl stop ↦ ground (arith, there, h, stop)
      | inr more ↦ ground (arith, there, h, more)
    ]
  ]

  serve_end :
      (fuel : ℕ) (envs : ℕ → Env) (i : ℕ) (s : Engine F.Reader) (c : FdConnection)
      → (Fd.read_line c).0 ≡ none
      → Serves c (ok [], s) (serve (suc fuel) envs i (s, c))
  serve_end fuel envs i s c gone = subst (Serves c (ok [], s)) (sym last) (
      unfold close_session Fd.close in
      (refl, refl, refl, λ a. Fd.read_line-sent c ∙ sym (append-nil c.sent)))
    where
      last : serve (suc fuel) envs i (s, c) ≡ close_session (s, (Fd.read_line c).1)
      last = unfold serve in ground (arith, gone)

  -- a response, and behind it what the rest of the session writes
  then_rest-Serves :
      (c : FdConnection) (res : Response) (r : Outcome (List Bytes) × Engine F.Reader)
      (q : Outcome (Unit {0}) × Served)
      → c.is_open ≡ true
      → Serves (write_response res c) r q
      → Serves c (continue r.0 (λ out s'. (ok (encode_response res ∷ out), s')) r.1) q
  unfolding write_response
  then_rest-Serves c res (ok out, s) (o, (s', c')) live (e, same, shut, sent) = (
    e,
    same,
    shut,
    λ a.
        let (done, wrote, left) =
          Fd.write_all-sent (encode_response res) c (length (concat out)) live
            (a.0, omega (arith, a.1, length-append (encode_response res) (concat out))) in
        sent left
        ∙ ap (λ (b : Bytes). b ++ concat out) wrote
        ∙ append_assoc c.sent (encode_response res) (concat out),
  )
  then_rest-Serves c res (throws x, s) (o, (s', c')) live h = h
  then_rest-Serves c res (fault, s) (o, (s', c')) live h = h

  after_execute-Serves :
      (c : FdConnection) (r : Outcome Response × Engine F.Reader)
      (rest : Exec (Engine F.Reader) (List Bytes)) (k : Served → Outcome (Unit {0}) × Served)
      → c.is_open ≡ true
      → ((res : Response) (s : Engine F.Reader)
          → Serves (write_response res c) (rest s) (k (s, write_response res c)))
      → Serves c (continue r.0 (λ res. then_rest F res rest) r.1) (after_execute r c k)
  unfolding after_execute
  after_execute-Serves c (ok res, s) rest k live h =
      then_rest-Serves c res (rest s) (k (s, write_response res c)) live (h res s)
  after_execute-Serves c (throws x, s) rest k live h = (refl, refl)
  after_execute-Serves c (fault, s) rest k live h = (refl, refl)

  -- only what was sent and what `send` accepts matters
  Serves-same :
      (c c1 : FdConnection) (r : Outcome (List Bytes) × Engine F.Reader)
      (q : Outcome (Unit {0}) × Served)
      → c1.sends ≡ c.sends
      → c1.sent ≡ c.sent
      → Serves c1 r q
      → Serves c r q
  Serves-same c c1 (ok out, s) q sends sent (e, same, shut, h) =
      (e, same, shut, λ a. h (rw sends a) ∙ ap (λ (b : Bytes). b ++ concat out) sent)
  Serves-same c c1 (throws x, s) q sends sent h = h
  Serves-same c c1 (fault, s) q sends sent h = h

  serve_round :
      (l : Bytes) (lines : List Bytes) (tail : Bytes) (fuel : ℕ) (envs : ℕ → Env) (i : ℕ)
      (s : Engine F.Reader) (c : FdConnection)
      → IsLive c
      → NoNewline l
      → incoming c ≡ l ++ 10 ∷ frame lines tail
      → ((c : FdConnection) (s : Engine F.Reader)
          → IsLive c
          → incoming c ≡ frame lines tail
          → Serves c (run F (numbered envs (suc i) lines) s) (serve fuel envs (suc i) (s, c)))
      → Serves c (run F (numbered envs i (l ∷ lines)) s) (serve (suc fuel) envs i (s, c))
  serve_round l lines tail fuel envs i s c live h e rounds =
      let (there, live', e', sends, sent) = Fd.read_line-line c l (frame lines tail) live h e in
      subst (λ r. Serves c r (serve (suc fuel) envs i (s, c)))
        (sym (run_line F (envs i) l (numbered envs (suc i) lines) s))
        (subst
          (Serves c (
            continue (respond F (envs i) l s).0 (λ res. then_rest F res rest)
              (respond F (envs i) l s).1))
          (sym (serve_line fuel envs i s c l there))
          (Serves-same c (Fd.read_line c).1 _ _ sends sent (
            after_execute-Serves (Fd.read_line c).1 (respond F (envs i) l s) rest k live'.0
              (goes_on (Fd.read_line c).1 live' e'))))
    where
      rest : Exec (Engine F.Reader) (List Bytes)
      rest = if ends_session l then nothing_more F else run F (numbered envs (suc i) lines)

      k : Served → Outcome (Unit {0}) × Served
      k = if ends_session l then close_session else serve fuel envs (suc i)

      goes_on :
          (c : FdConnection)
          → IsLive c
          → incoming c ≡ frame lines tail
          → (res : Response) (s : Engine F.Reader)
          → Serves (write_response res c) (rest s) (k (s, write_response res c))
      goes_on c live e res s = elim (Bool-cases (ends_session l)) [
        | inl stop ↦ rw stop (
            unfold close_session Fd.close in
            (refl, refl, refl, λ a. sym (append-nil (write_response res c).sent)))
        | inr more ↦
            let (live', e') = Fd.write_all-IsLive (encode_response res) c live in
            rw more (unfold write_response in rounds (write_response res c) s live' (e' ∙ e))
      ]

  serve_rounds :
      (lines : List Bytes) (tail : Bytes) (fuel : ℕ) (envs : ℕ → Env) (i : ℕ) (s : Engine F.Reader)
      (c : FdConnection)
      → IsLive c
      → All NoNewline lines
      → NoNewline tail
      → incoming c ≡ frame lines tail
      → length lines < fuel
      → Serves c (run F (numbered envs i lines) s) (serve fuel envs i (s, c))
  serve_rounds lines tail zero envs i s c live h n e f = absurd (omega arith)
  serve_rounds [] tail (suc fuel) envs i s c live h n e f =
      unfold run in serve_end fuel envs i s c (Fd.read_line_end c live (rw e n))
  serve_rounds (l ∷ lines) tail (suc fuel) envs i s c live h n e f =
      serve_round l lines tail fuel envs i s c live h.0 e
        λ c s live e. serve_rounds lines tail fuel envs (suc i) s c live h.1 n e (omega arith)

  length-frame : (lines : List Bytes) (tail : Bytes) → length lines ≤ length (frame lines tail)
  length-frame [] tail = omega arith
  length-frame (l ∷ lines) tail =
      omega (arith, length-append l (10 ∷ frame lines tail), length-frame lines tail)

  pub serve-Serves :
      (lines : List Bytes) (tail : Bytes) (envs : ℕ → Env) (s : Engine F.Reader) (c : FdConnection)
      → IsLive c
      → All NoNewline lines
      → NoNewline tail
      → incoming c ≡ frame lines tail
      → Serves c (run F (numbered envs 0 lines) s) (serve (suc (length (incoming c))) envs 0 (s, c))
  serve-Serves lines tail envs s c live h n e =
      serve_rounds lines tail (suc (length (incoming c))) envs 0 s c live h n e
        (omega (arith, ap length e, length-frame lines tail))

  -- the same where `send` does not fail
  abbrev pub Answers :
      FdConnection → Outcome (List Bytes) × Engine F.Reader → Outcome (Unit {0}) × Served → Type 0
  Answers c (ok out, s) (o, (s', c')) =
      (o ≡ ok tt) × (s' ≡ s) × (c'.is_open ≡ false) × (c'.sent ≡ c.sent ++ concat out)
  Answers c (throws x, s) (o, (s', c')) = (o ≡ throws x) × (s' ≡ s)
  Answers c (fault, s) (o, (s', c')) = (o ≡ fault) × (s' ≡ s)

  Serves-Answers :
      (c : FdConnection) (r : Outcome (List Bytes) × Engine F.Reader)
      (q : Outcome (Unit {0}) × Served)
      → ((out : List Bytes) → r.0 ≡ ok out → Accepts c.sends (length (concat out)))
      → Serves c r q
      → Answers c r q
  Serves-Answers c (ok out, s) q a (e, same, shut, sent) = (e, same, shut, sent (a out refl))
  Serves-Answers c (throws x, s) q a h = h
  Serves-Answers c (fault, s) q a h = h

  -- A session on an open connection on which lines arrive, cut into any chunks, and bytes behind the
  -- last newline, and whose `send` takes a byte at least for each byte of the responses: it ends, after
  -- no more rounds than bytes arrive and one, as a session on those lines does, and leaves the same
  -- engine. If no exception ends it, the connection is closed, and what it sent are the responses, in
  -- order.
  pub serve-run :
      (lines : List Bytes) (tail : Bytes) (envs : ℕ → Env) (s : Engine F.Reader) (c : FdConnection)
      → IsLive c
      → All NoNewline lines
      → NoNewline tail
      → incoming c ≡ frame lines tail
      → ((out : List Bytes)
          → (run F (numbered envs 0 lines) s).0 ≡ ok out
          → Accepts c.sends (length (concat out)))
      → Answers c
          (run F (numbered envs 0 lines) s)
          (serve (suc (length (incoming c))) envs 0 (s, c))
  serve-run lines tail envs s c live h n e a =
      Serves-Answers c (run F (numbered envs 0 lines) s) _ a
        (serve-Serves lines tail envs s c live h n e)
