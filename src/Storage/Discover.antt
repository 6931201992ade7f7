-- ===== src/Storage/Discover.antt =====
-- The scan of the base directory in `initLevels`, on the directories that an earlier `initLevels`
-- made.
use tiny_kv.Common.{
  ℕ, ◌≤◌, ◌<◌, ◌^◌, ◌≡◌, refl, ◌≢◌, true, false, some, List, [], ◌∷◌, ◌++◌, append_assoc,
  append-nil, map, arith, Bytes, codes, All,
}
use tiny_kv.Common.Outcome.{ok}
use tiny_kv.Common.Decimal.{to_string, to_string_lem, IsDigits}
use tiny_kv.Context.{DirEntry}
use tiny_kv.Storage.{after_prefix, all_digits, match_level, stoi, scan_levels}

-- the directory of level `n`
abbrev pub level_dir : ℕ → DirEntry
level_dir n = record {
  name = codes "level-" ++ to_string n;
  is_directory = true;
  is_regular = false;
}

all_digits_lem : (s : Bytes) → IsDigits s → all_digits s ≡ true
unfolding all_digits
all_digits_lem [] h = refl
all_digits_lem (c ∷ s) h = ground (arith, h.0, all_digits_lem s h.1)

after_prefix_lem : (p s : Bytes) → after_prefix p (p ++ s) ≡ some s
unfolding after_prefix
after_prefix_lem [] s = refl
after_prefix_lem (c ∷ p) s = ground (arith, after_prefix_lem p s)

match_level_digits : (s : Bytes) → IsDigits s → s ≢ [] → match_level (codes "level-" ++ s) ≡ some s
unfolding match_level
match_level_digits [] h full = absurd (full refl)
match_level_digits (c ∷ s) h full =
    ground (arith, after_prefix_lem (codes "level-") (c ∷ s), all_digits_lem (c ∷ s) h)

match_level_lem : (n : ℕ) → match_level (codes "level-" ++ to_string n) ≡ some (to_string n)
match_level_lem n =
    let (back, digits, full) = to_string_lem n in match_level_digits (to_string n) digits full

stoi-to_string : (n : ℕ) → n < 2 ^ 31 → stoi (to_string n) ≡ ok n
unfolding stoi
stoi-to_string n h = ground (arith, to_string_lem n)

-- On the directories of levels up to the highest the scan succeeds, and finds just these levels.
pub scan_levels-level_dir :
    (max : ℕ) (ns found : List ℕ)
    → max < 2 ^ 31
    → All (λ n. n ≤ max) ns
    → scan_levels max (map level_dir ns) found ≡ ok (found ++ ns)
unfolding scan_levels
scan_levels-level_dir max [] found small h = ground (arith, append-nil found)
scan_levels-level_dir max (n ∷ ns) found small h = ground (
  arith,
  match_level_lem n,
  stoi-to_string n (omega (arith, h.0)),
  scan_levels-level_dir max ns (found ++ n ∷ []) small h.1,
  append_assoc found (n ∷ []) ns,
  h.0,
)
