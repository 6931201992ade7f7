-- ===== src/Table/Verdict.antt =====
-- What a lookup says of a key: nothing, that it was deleted, or its value.
use tiny_kv.Common.{Option, none, some, List, [], ◌∷◌, if◌then◌else◌, Bytes}
use tiny_kv.Types.{Entry, find}

abbrev pub Verdict : Type 0
Verdict = Option (Option Bytes)

unfoldable pub verdict : Option Entry → Verdict
verdict none = none
verdict (some e) = some (if e.tombstone then none else some e.val)

-- the first source that says something decides
unfoldable pub or_else : Verdict → Verdict → Verdict
or_else none w = w
or_else (some v) w = some v

-- The verdict of tables, newest first.
unfoldable pub newest : Bytes → List (List Entry) → Verdict
newest k [] = none
newest k (es ∷ tables) = or_else (verdict (find k es)) (newest k tables)

-- what a client sees: a deleted key is as good as absent
unfoldable pub answer : Verdict → Option Bytes
answer none = none
answer (some v) = v
