-- ===== src/Disk.antt =====
-- The file system, as far as the table formats use it: whole files by path. The kernel, the disk
-- and the permissions are not part of the program, so how they answer is data of the model.
use tiny_kv.Common.{ℕ, ◌≡◌, refl, Bool, Option, some, if◌then◌else◌, Bytes}
use tiny_kv.Common.Order.{key_eq}

pub record Disk : Type 0 where
  pub files : Bytes → Option Bytes
  -- whether a file can be opened for writing at a path
  pub can_create : Bytes → Bool
  -- how many bytes a file at a path can hold before the device refuses more
  pub room : Bytes → ℕ

unfoldable pub store : Disk → Bytes → Bytes → Disk
store d path bytes = record d { files = λ p. if key_eq path p then some bytes else d.files p }

pub files-store :
    (d : Disk) (path bytes p : Bytes)
    → (store d path bytes).files p ≡ (if key_eq path p then some bytes else d.files p)
unfolding store
files-store d path bytes p = refl
