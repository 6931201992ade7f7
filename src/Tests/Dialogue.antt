-- ===== src/Tests/Dialogue.antt =====
-- A log behind a session, and terminals and sessions that talk.
use tiny_kv.Tests.{disk}
use tiny_kv.Tests.Engine.{env, env-FreshDirs, engine}
use tiny_kv.Tests.Sessions.{ops, after_put, session}
use tiny_kv.Common.{
  ℕ, ◌≤◌, ◌≡◌, refl, true, none, List, [], ◌∷◌, map, arith, Bytes, codes, length, All, ◌∙◌, sym,
  append-nil, false, ◌++◌, subst, ◌<◌, ◌^◌, some,
}
use tiny_kv.Common.Outcome.{ok, Outcome}
use tiny_kv.Common.Order.{compare_bytes}
use tiny_kv.Types.{Entry, find}
use tiny_kv.Table.Verdict.{verdict}
use tiny_kv.Wal.{get_entries, replayed}
use tiny_kv.MemTable
use tiny_kv.MemTable.Replay.{set_all}
use tiny_kv.Db
use tiny_kv.Db.{default_config, create_db}
use tiny_kv.Db.Session.{run_op}
use tiny_kv.Db.Durability.{FitsOp, get_entries_session, get-replay_wal}
use tiny_kv.BlockBased.{block_based}
use tiny_kv.BlockBased.Laws.{block_based_laws}
use tiny_kv.InMemory.{in_memory}
use tiny_kv.SkipList
use tiny_kv.Context.{Env}
use tiny_kv.Message.{Response}
use tiny_kv.Codec.{decode_line, encode_response, is_space}
use tiny_kv.Codec.Responses.{delivered}
use tiny_kv.Server
use tiny_kv.Server.Serve.{serve, numbered, serve-run, Answers}
use tiny_kv.Connection.Fd.{FdConnection, incoming}
use tiny_kv.Connection.{Accepts, concat}
use tiny_kv.Client.{run_repl, read_port}
use tiny_kv.Client.Transcript.{requests, transcript, OneLine, sent_bytes, response_bytes}
use tiny_kv.Client.Laws.{Talked, run_repl-Talked}
use tiny_kv.Client.Dialogue.{execute_all, run_repl-serve}
use tiny_kv.Common.Decimal.{to_string}
use tiny_kv.Client.Port.{read_port-to_string}

ops_fit : All FitsOp ops
ops_fit = ((omega arith, omega arith), tt)

get_entries_session_example :
    (es : List Entry) × (get_entries after_put.wal ≡ replayed es)
    × (length es ≤ length ops)
    × ((j : Bytes)
        → verdict (find j (set_all es [])) ≡ verdict (find j after_put.skip_list.entries))
get_entries_session_example =
    get_entries_session block_based block_based_laws default_config disk ops after_put ops_fit
      session

no_levels : after_put.storage.levels ≡ []
unfolding run_op Db.put MemTable.put create_db MemTable.flush_if_full SkipList.get_length
    MemTable.log_and_set tiny_kv.Wal.append
no_levels = refl

get-replay_wal_example :
    Db.get block_based
      (MemTable.replay_wal block_based env
        (create_db block_based default_config after_put.wal.file disk)).1
      (codes "a")
    ≡ Db.get block_based after_put (codes "a")
get-replay_wal_example =
    get-replay_wal block_based block_based_laws default_config disk disk ops after_put env ops_fit
      session no_levels (omega arith) (omega arith) env-FreshDirs (codes "a")

abbrev forty : List ℕ
forty =
    1 ∷ 1 ∷ 1 ∷ 1 ∷ 1 ∷ 1 ∷ 1 ∷ 1 ∷ 1 ∷ 1 ∷ 1 ∷ 1 ∷ 1 ∷ 1 ∷ 1 ∷ 1 ∷ 1 ∷ 1 ∷ 1 ∷ 1 ∷ 1 ∷ 1 ∷ 1 ∷ 1
    ∷ 1 ∷ 1 ∷ 1 ∷ 1 ∷ 1 ∷ 1 ∷ 1 ∷ 1 ∷ 1 ∷ 1 ∷ 1 ∷ 1 ∷ 1 ∷ 1 ∷ 1 ∷ 1 ∷ []

abbrev bye : Response
bye = record { is_ok = true; message = codes "Bye"; payload = none }

abbrev replies : List Bytes
replies =
    encode_response (record { is_ok = false; message = codes "Unknown command"; payload = none })
    ∷ encode_response bye
    ∷ []

abbrev envs : ℕ → Env
envs i = env

abbrev server_lines : List Bytes
server_lines = codes "NOP" ∷ codes "EXIT" ∷ []

abbrev server : FdConnection
server = record {
  is_open = true;
  buffer = codes "N";
  chunks = codes "OP\nEX" ∷ codes "IT\nGE" ∷ [];
  sends = forty ++ forty;
  sent = [];
}

served : (Server.run in_memory (numbered envs 0 server_lines) engine).0 ≡ ok replies
unfolding Server.run compare_bytes decode_line Server.execute
served = refl

replies_size : length (concat replies) ≤ 80
unfolding encode_response
replies_size = omega arith

sends_enough :
    (out : List Bytes)
    → (Server.run in_memory (numbered envs 0 server_lines) engine).0 ≡ ok out
    → Accepts server.sends (length (concat out))
sends_enough out h =
    let same : replies ≡ out = ok_injective replies out (sym served ∙ h) in
    (omega arith, subst (λ (o : List Bytes). length (concat o) ≤ 80) same replies_size)
  where
    ok_injective : (a b : List Bytes) → ◌≡◌ {A = Outcome (List Bytes)} (ok a) (ok b) → a ≡ b
    ok_injective a b e = cc

serve-run_example :
    Answers in_memory server
      (Server.run in_memory (numbered envs 0 server_lines) engine)
      (serve in_memory 12 envs 0 (engine, server))
serve-run_example =
    serve-run in_memory server_lines (codes "GE") envs engine server
      (refl, ((λ e. cc), ((λ e. cc), tt)))
      ((refl, (refl, (refl, tt))), ((refl, (refl, (refl, (refl, tt)))), tt)) (refl, (refl, tt)) refl
      sends_enough

abbrev input : List Bytes
input = [] ∷ codes "exit" ∷ codes "get a" ∷ []

bye-OneLine : OneLine bye
bye-OneLine = record {
  message_line = (refl, (refl, (refl, tt)));
  payload_line = tt;
  message_fits = omega arith;
  payload_fits = omega arith;
}

-- what the client sends, and what the server does
input_bytes : sent_bytes (requests input) ≡ codes "EXIT\n"
unfolding requests compare_bytes decode_line tiny_kv.Codec.encode_request
input_bytes = refl

asked_once : length (requests input) ≡ 1
unfolding requests compare_bytes decode_line
asked_once = refl

executed : execute_all in_memory envs 0 (requests input) engine ≡ (ok (bye ∷ []), engine)
unfolding execute_all requests compare_bytes decode_line Server.execute
executed = refl

abbrev client : FdConnection
client = record {
  is_open = true;
  buffer = [];
  chunks = codes "status=OK mess" ∷ codes "age=3:Bye data=0:\n" ∷ [];
  sends = forty;
  sent = [];
}

abbrev listener : FdConnection
listener = record {
  is_open = true;
  buffer = [];
  chunks = codes "EX" ∷ codes "IT\n" ∷ [];
  sends = forty;
  sent = [];
}

client_hears : incoming client ≡ response_bytes (bye ∷ [])
unfolding encode_response
client_hears = refl

run_repl-Talked_example : Talked input (bye ∷ []) [] client (run_repl input client)
run_repl-Talked_example =
    run_repl-Talked input (bye ∷ []) [] client (refl, ((λ e. cc), ((λ e. cc), tt)))
      (client_hears ∙ sym (append-nil (response_bytes (bye ∷ [])))) (bye-OneLine, tt)
      (rw asked_once refl) (rw input_bytes (omega arith))

listener_hears : incoming listener ≡ sent_bytes (requests input)
unfolding requests compare_bytes decode_line tiny_kv.Codec.encode_request
listener_hears = refl

reply_size : length (response_bytes (bye ∷ [])) ≤ 40
unfolding encode_response
reply_size = omega arith

run_repl-serve_example :
    ((run_repl input client).printed ≡ transcript input (map delivered (bye ∷ [])))
    × ((run_repl input client).status ≡ 0)
    × ((run_repl input client).conn.sent ≡ incoming listener)
    × ((serve in_memory 6 envs 0 (engine, listener)).0 ≡ ok tt)
    × ((serve in_memory 6 envs 0 (engine, listener)).1.0 ≡ engine)
    × ((serve in_memory 6 envs 0 (engine, listener)).1.1.sent ≡ incoming client)
run_repl-serve_example =
    run_repl-serve in_memory input envs engine engine (bye ∷ []) client listener executed
      (bye-OneLine, tt) (refl, ((λ e. cc), ((λ e. cc), tt))) (refl, ((λ e. cc), ((λ e. cc), tt)))
      (rw input_bytes (omega arith)) (omega arith, reply_size) refl refl client_hears listener_hears

port_read : read_port (some (codes " +6379")) ≡ some 6379
unfolding read_port is_space
port_read = refl

read_port-to_string_example : (6379 < 2 ^ 16) × (read_port (some (to_string 6379)) ≡ some 6379)
read_port-to_string_example = read_port-to_string (some (codes " +6379")) 6379 port_read
