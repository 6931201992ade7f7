-- ===== src/Server/Laws.antt =====
-- The loop of a session: how many responses it writes, and where it stops.
use tiny_kv.Common.{
  suc, ◌≡◌, refl, sym, ap, ◌∙◌, ◌⊎◌, inl, inr, Bool, false, List, [], ◌∷◌, subst, arith,
  if◌then◌else◌, Bool-cases, Bytes, length,
}
use tiny_kv.Common.Outcome.{Outcome, ok, throws, fault}
use tiny_kv.Server.{run, execute, refusal, is_exit}
use tiny_kv.Common.Exec.{Exec, continue}
use tiny_kv.Message.{Response}
use tiny_kv.Codec.{Decoded, decoded, refused, decode_line, encode_response}
use tiny_kv.MemTable.{Engine}
use tiny_kv.Table.{TableFormat}
use tiny_kv.Context.{Env}

-- whether a line is a request to end the session
unfoldable pub ends_session : Bytes → Bool
ends_session line = elim (decode_line line) [
  | refused e ↦ false
  | decoded req ↦ is_exit req.command
]

-- the lines up to the first request to end the session, that one included
unfoldable pub until_exit : List (Env × Bytes) → List (Env × Bytes)
until_exit [] = []
until_exit ((env, line) ∷ lines) =
    let rest = until_exit lines in (env, line) ∷ (if ends_session line then [] else rest)

pub Decoded-cases {ℓ} :
    {A : Type ℓ} (d : Decoded A) → ((e : Bytes) × (d ≡ refused e)) ⊎ ((a : A) × (d ≡ decoded a))
Decoded-cases (refused e) = inl (e, refl)
Decoded-cases (decoded a) = inr (a, refl)

module _ (F : TableFormat) where
  -- one response, and then what the rest of the session writes
  abbrev pub then_rest :
      Response → Exec (Engine F.Reader) (List Bytes) → Exec (Engine F.Reader) (List Bytes)
  then_rest res rest s =
      continue (rest s).0 (λ out s'. (ok (encode_response res ∷ out), s')) (rest s).1

  abbrev pub nothing_more : Exec (Engine F.Reader) (List Bytes)
  nothing_more s = (ok [], s)

  -- the response to a line, and what it leaves
  unfoldable pub respond : Env → Bytes → Exec (Engine F.Reader) Response
  respond env line = elim (decode_line line) [
    | refused e ↦ λ s. (ok (refusal e), s)
    | decoded req ↦ execute F env req.command req.args
  ]

  continue_same :
      {A B : Type 0} (r : Outcome A × Engine F.Reader) (f g : A → Exec (Engine F.Reader) B)
      → ((a : A) (s : Engine F.Reader) → f a s ≡ g a s)
      → continue r.0 f r.1 ≡ continue r.0 g r.1
  continue_same (ok a, s) f g h = h a s
  continue_same (throws x, s) f g h = refl
  continue_same (fault, s) f g h = refl

  -- one round of the loop
  pub run_line :
      (env : Env) (line : Bytes) (lines : List (Env × Bytes)) (s : Engine F.Reader)
      → run F ((env, line) ∷ lines) s
        ≡ continue
            (respond env line s).0
            (λ res. then_rest res (if ends_session line then nothing_more else run F lines))
            (respond env line s).1
  unfolding run respond ends_session
  run_line env line lines s = elim (Decoded-cases (decode_line line)) [
    | inl (e, h) ↦ ground (arith, h)
    | inr (req, h) ↦ elim (Bool-cases (is_exit req.command)) [
      | inl stop ↦ ground (arith, h, stop)
      | inr more ↦ ground (arith, h, more)
    ]
  ]

  -- Nothing that a client sends behind a request to end the session is read: neither the responses
  -- nor the engine depend on it.
  pub run-until_exit :
      (lines : List (Env × Bytes)) (s : Engine F.Reader)
      → run F lines s ≡ run F (until_exit lines) s
  unfolding until_exit
  run-until_exit [] s = refl
  run-until_exit ((env, line) ∷ lines) s = elim (Bool-cases (ends_session line)) [
    | inl stop ↦
        run_line env line lines s
        ∙ continue_same (respond env line s) _ _ (λ res t. ground (arith, stop))
        ∙ sym (run_line env line [] s)
        ∙ ground (arith, stop)
    | inr more ↦
        run_line env line lines s
        ∙ continue_same (respond env line s) _ _
            (λ res t. ground (arith, more, run-until_exit lines t))
        ∙ sym (run_line env line (until_exit lines) s)
        ∙ ground (arith, more)
  ]

  -- a session that ends in order has one response for each line
  abbrev Answered : List (Env × Bytes) → Outcome (List Bytes) × Engine F.Reader → Type 0
  Answered lines (ok out, s) = length out ≡ length lines
  Answered lines (throws x, s) = Unit
  Answered lines (fault, s) = Unit

  then_rest-Answered :
      (env : Env) (line : Bytes) (lines : List (Env × Bytes)) (res : Response)
      (r : Outcome (List Bytes) × Engine F.Reader)
      → Answered lines r
      → Answered
          ((env, line) ∷ lines)
          (continue r.0 (λ out s'. (ok (encode_response res ∷ out), s')) r.1)
  then_rest-Answered env line lines res (ok out, s) h = ap suc h
  then_rest-Answered env line lines res (throws x, s) h = tt
  then_rest-Answered env line lines res (fault, s) h = tt

  continue-Answered :
      (lines : List (Env × Bytes)) (r : Outcome Response × Engine F.Reader)
      (f : Response → Exec (Engine F.Reader) (List Bytes))
      → ((res : Response) (s : Engine F.Reader) → Answered lines (f res s))
      → Answered lines (continue r.0 f r.1)
  continue-Answered lines (ok res, s) f h = h res s
  continue-Answered lines (throws x, s) f h = tt
  continue-Answered lines (fault, s) f h = tt

  run-Answered :
      (lines : List (Env × Bytes)) (s : Engine F.Reader)
      → Answered (until_exit lines) (run F (until_exit lines) s)
  unfolding until_exit
  run-Answered [] s = unfold run in refl
  run-Answered ((env, line) ∷ lines) s = elim (Bool-cases (ends_session line)) [
    | inl stop ↦ rw stop (
        subst (Answered ((env, line) ∷ [])) (sym (run_line env line [] s))
          (continue-Answered ((env, line) ∷ []) (respond env line s) _ λ res t. rw stop refl))
    | inr more ↦ rw more (
        subst (Answered ((env, line) ∷ until_exit lines))
          (sym (run_line env line (until_exit lines) s))
          (continue-Answered ((env, line) ∷ until_exit lines) (respond env line s) _ λ res t.
            rw more (
              then_rest-Answered env line (until_exit lines) res (run F (until_exit lines) t)
                (run-Answered lines t))))
  ]

  Answered-ok :
      (lines : List (Env × Bytes)) (r : Outcome (List Bytes) × Engine F.Reader) (out : List Bytes)
      → Answered lines r
      → r.0 ≡ ok out
      → length out ≡ length lines
  Answered-ok lines (ok o, s) out h e = ground (arith, h, e)
  Answered-ok lines (throws x, s) out h e = cc
  Answered-ok lines (fault, s) out h e = cc

  -- A session that no exception ends writes one response for each line up to the first request to
  -- end it, that one included, whether the line is a command, an unknown one or none at all.
  pub length-run :
      (lines : List (Env × Bytes)) (s : Engine F.Reader) (out : List Bytes)
      → (run F lines s).0 ≡ ok out
      → length out ≡ length (until_exit lines)
  length-run lines s out h =
      Answered-ok (until_exit lines) (run F (until_exit lines) s) out (run-Answered lines s) (
        ap (λ (r : Outcome (List Bytes) × Engine F.Reader). r.0) (sym (run-until_exit lines s)) ∙ h)
