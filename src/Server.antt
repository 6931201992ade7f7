-- ===== src/Server.antt =====
-- api/command_handler.cpp and net/session.cpp: from a decoded request to a response, and the loop
-- that serves one connection.
pub mod Laws
pub mod Serve
use tiny_kv.Common.{Bool, true, false, none, List, [], ◌∷◌, if◌then◌else◌, Bytes, codes}
use tiny_kv.Db
use tiny_kv.Common.Exec.{Exec, ◌>>=◌, pure}
use tiny_kv.Message.{Command, Response, put, get, del, exit, flush, unknown}
use tiny_kv.Codec.{decoded, refused, decode_line, encode_response}
use tiny_kv.MemTable.{Engine}
use tiny_kv.Table.{TableFormat}
use tiny_kv.Context.{Env}

unfoldable pub refusal : Bytes → Response
refusal message = record { is_ok = false; message = message; payload = none }

abbrev pub is_exit : Command → Bool
is_exit exit = true
is_exit _ = false

module _ (F : TableFormat) where
  unfoldable pub execute : Env → Command → List Bytes → Exec (Engine F.Reader) Response
  unfolding refusal
  execute env get [] = pure (refusal (codes "Usage: GET <key>"))
  execute env get (k ∷ args) = λ s. (Db.get F s k, s)
  execute env put [] = pure (refusal (codes "Usage: PUT <key> <value>"))
  execute env put (k ∷ []) = pure (refusal (codes "Usage: PUT <key> <value>"))
  execute env put (k ∷ v ∷ args) = Db.put F env k v
  execute env del [] = pure (refusal (codes "Usage: DEL <key>"))
  execute env del (k ∷ args) = Db.del F env k
  execute env flush args = Db.force_flush F env
  execute env exit args = pure (record { is_ok = true; message = codes "Bye"; payload = none })
  execute env unknown args = pure (refusal (codes "Unknown command"))

  -- The loop of `run` over the lines that `readLine` returns, each with its call's surroundings; the
  -- end of the list is `nullopt`. The result is what was written to the connection, a line at a time;
  -- what `writeAll` returns is not looked at. An exception leaves the loop.
  unfoldable pub run : List (Env × Bytes) → Exec (Engine F.Reader) (List Bytes)
  unfolding execute decode_line
  run [] = pure []
  run ((env, line) ∷ lines) = elim (decode_line line) [
    | refused e ↦ do rest ← run lines; pure (encode_response (refusal e) ∷ rest)
    | decoded req ↦ do
      res ← execute env req.command req.args
      if is_exit req.command
          then pure (encode_response res ∷ [])
          else (do rest ← run lines; pure (encode_response res ∷ rest))
  ]
