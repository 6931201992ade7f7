-- ===== src/Tests.antt =====
-- Concrete inputs at which the theorems of the library hold: an engine over an empty disk, tables
-- and log files with a few entries.
mod Restart
mod Engine
mod Files
mod Wire
mod Blocks
mod Sessions
mod Dialogue
use tiny_kv.Common.{ℕ, true, false, none, some, List, [], ◌∷◌, codes}
use tiny_kv.Types.{Entry}
use tiny_kv.Disk.{Disk}

abbrev pub disk : Disk
disk = record { files = λ p. none; can_create = λ p. true; room = λ p. 1000 }

abbrev pub apple : Entry
apple = record { key = codes "a"; val = codes "red"; tombstone = false }

abbrev pub banana : Entry
banana = record { key = codes "b"; val = []; tombstone = true }

abbrev pub cherry : Entry
cherry = record { key = codes "c"; val = codes "dark"; tombstone = false }

abbrev pub fruit : List Entry
fruit = apple ∷ banana ∷ cherry ∷ []
