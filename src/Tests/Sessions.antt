-- ===== src/Tests/Sessions.antt =====
-- Sessions of a client, and a log to replay.
use tiny_kv.Tests.{disk, apple, fruit}
use tiny_kv.Tests.Engine.{env, env-FreshDirs, engine}
use tiny_kv.Tests.Files.{log, log-Holds, cherry-Fits}
use tiny_kv.Common.{
  ◌+◌, ◌<◌, ◌≡◌, refl, ap, true, false, none, List, [], ◌∷◌, arith, Bytes, codes, length, some, sym,
  append-nil,
}
use tiny_kv.Common.Outcome.{Outcome, ok}
use tiny_kv.Common.Order.{compare_bytes}
use tiny_kv.Db
use tiny_kv.Server
use tiny_kv.SkipList
use tiny_kv.Db.{default_config, ok_response, create_db}
use tiny_kv.Db.Session.{Op, Runs, run_op, apply_all, get_session}
use tiny_kv.MemTable
use tiny_kv.MemTable.{Engine}
use tiny_kv.BlockBased.Reader.{BlockReader}
use tiny_kv.SsTable.{SsTable}
use tiny_kv.Context.{Env, Context}
use tiny_kv.BlockBased.{block_based}
use tiny_kv.Storage.Write.{CanPlace}
use tiny_kv.MemTable.Flush.{IsStored, CanFlush}
use tiny_kv.SkipList.Laws.{length-insert_bounds}
use tiny_kv.Common.Words.{int_limit}
use tiny_kv.MemTable.Replay.{Replayed, replay_wal-Replayed}
use tiny_kv.InMemory.{in_memory}
use tiny_kv.Codec.{encode_response}
use tiny_kv.Server.Laws.{until_exit, length-run}
use tiny_kv.BlockBased.Laws.{block_based_laws}
use tiny_kv.Db.Reads.{reply}
use tiny_kv.InMemory.Laws.{in_memory_laws}
use tiny_kv.Message.{Response}
use tiny_kv.Wal.{read_round}
use tiny_kv.Level.Write.{Unused, table_path}
use tiny_kv.Types.{Entry}
use tiny_kv.MemTable.Recover.{Recovered, replay_wal-Recovered}
use tiny_kv.Wal.RoundTrip.{log_bytes, Holds, logged}
use tiny_kv.Level.{Level}
use tiny_kv.MemTable.Recover.Loop.{CanFlushAll, with_next, with_room, length-with_room}

abbrev pub fresh : Engine BlockReader
fresh = create_db block_based default_config none disk

abbrev pub ops : List Op
ops = Op.put (codes "a") (codes "red") ∷ []

abbrev pub after_put : Engine BlockReader
after_put = (run_op block_based env (Op.put (codes "a") (codes "red")) fresh).1

put_ok : (run_op block_based env (Op.put (codes "a") (codes "red")) fresh).0 ≡ ok ok_response
unfolding run_op Db.put MemTable.put create_db MemTable.flush_if_full SkipList.get_length
    MemTable.log_and_set tiny_kv.Wal.append
put_ok = refl

still_open : after_put.read_only ≡ false
unfolding run_op Db.put MemTable.put create_db MemTable.flush_if_full SkipList.get_length
    MemTable.log_and_set tiny_kv.Wal.append
still_open = refl

fresh_place : CanFlush block_based block_based_laws env fresh
unfolding create_db SkipList.empty
fresh_place = (env-FreshDirs, omega arith)

pub session : Runs block_based block_based_laws fresh ops after_put
session =
    Runs.call env fresh_place (ap (λ (o : Outcome Response). (o, after_put)) put_ok) still_open
      Runs.done

get_session_example :
    Db.get block_based after_put (codes "a") ≡ ok (reply (apply_all ops (λ _. none) (codes "a")))
get_session_example =
    get_session block_based block_based_laws default_config none disk ops after_put session
      (codes "a")

-- an engine that has just been started on a log of one record
abbrev restarted : Engine SsTable
restarted = record engine { skip_list = record { entries = [] }; wal = log }

restarted-IsStored : IsStored in_memory in_memory_laws restarted []
restarted-IsStored = record { sorted = tt; stored = refl; small = omega arith }

replay_wal-Replayed_example :
    Replayed in_memory in_memory_laws (apple ∷ []) [] (MemTable.replay_wal in_memory env restarted)
replay_wal-Replayed_example =
    replay_wal-Replayed in_memory in_memory_laws env restarted (apple ∷ []) [] restarted-IsStored
      refl log-Holds (omega arith) (omega arith) env-FreshDirs

-- a memtable for one entry, started on a log of three
abbrev crowded : Engine SsTable
crowded = record restarted { size = 1; wal = record log { file = some (log_bytes fruit) } }

crowded-IsStored : IsStored in_memory in_memory_laws crowded []
crowded-IsStored = record { sorted = tt; stored = refl; small = omega arith }

crowded-Holds : Holds crowded.wal fruit []
unfolding read_round
crowded-Holds = (
  sym (append-nil (log_bytes fruit)),
  (
    record { key_fits = omega arith; val_fits = omega arith },
    (record { key_fits = omega arith; val_fits = omega arith }, (cherry-Fits, tt)),
  ),
  refl,
)

-- no table of the in-memory format depends on its file
all-Unused : (path : Bytes) (rs : List SsTable) → Unused in_memory in_memory_laws path rs
all-Unused path [] = tt
all-Unused path (r ∷ rs) = (tt, all-Unused path rs)

all-CanPlace :
    (c : Context) (ls : List (Level SsTable)) → CanPlace in_memory in_memory_laws env c ls
all-CanPlace c [] = env-FreshDirs
all-CanPlace c (l ∷ ls) = all-Unused (table_path in_memory in_memory_laws env c l) l.readers

all-CanFlushAll :
    (es : List Entry) (s : Engine SsTable)
    → length s.skip_list.entries + length es < int_limit
    → CanFlushAll in_memory in_memory_laws env es s
all-CanFlushAll [] s h = (all-CanPlace s.context s.storage.levels, omega arith)
all-CanFlushAll (e ∷ es) s h =
    let u : Engine SsTable = with_room in_memory in_memory_laws env s in
    (
      (all-CanPlace s.context s.storage.levels, omega arith),
      all-CanFlushAll es (with_next in_memory in_memory_laws (logged e) u) (
          omega (
            arith,
            length-insert_bounds (logged e) u.skip_list.entries,
            length-with_room in_memory in_memory_laws env s,
          )),
    )

replay_wal-Recovered_example :
    Recovered in_memory in_memory_laws fruit crowded [] (MemTable.replay_wal in_memory env crowded)
replay_wal-Recovered_example =
    replay_wal-Recovered in_memory in_memory_laws env crowded fruit [] crowded-IsStored
      crowded-Holds (all-CanFlushAll fruit (record crowded { read_only = true }) (omega arith))

abbrev lines : List (Env × Bytes)
lines = (env, codes "NOP") ∷ (env, codes "EXIT") ∷ (env, codes "GET a") ∷ []

abbrev written : List Bytes
written =
    encode_response (record { is_ok = false; message = codes "Unknown command"; payload = none })
    ∷ encode_response (record { is_ok = true; message = codes "Bye"; payload = none })
    ∷ []

session_ends : (Server.run in_memory lines engine).0 ≡ ok written
unfolding Server.run compare_bytes
session_ends = refl

length-run_example : length written ≡ length (until_exit lines)
length-run_example = length-run in_memory lines engine written session_ends
