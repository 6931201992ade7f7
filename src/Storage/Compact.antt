-- ===== src/Storage/Compact.antt =====
-- `compact`, whose rounds leave both levels as they are.
use tiny_kv.Common.{
  ℕ, zero, suc, ◌≡◌, refl, ◌||◌, none, List, [], ◌∷◌, ◌++◌, append_assoc, arith, if◌then◌else◌, ltb,
  ◌==◌, length,
}
use tiny_kv.Common.Outcome.{ok, fault}
use tiny_kv.Table.{TableFormat}
use tiny_kv.Level.{Level}
use tiny_kv.Storage.{Storage, compact_loop, compact}

module _ (F : TableFormat) where
  compact_loop_lem :
      (rounds : ℕ) (done ls : List (Level F.Reader))
      → compact_loop F rounds done ls
        ≡ (if rounds == 0 || ltb rounds (length ls) then ok (done ++ ls) else fault)
  unfolding compact_loop
  compact_loop_lem zero done ls = refl
  compact_loop_lem (suc rounds) done [] = ground arith
  compact_loop_lem (suc rounds) done (a ∷ []) = ground arith
  compact_loop_lem (suc rounds) done (a ∷ b ∷ ls) = ground (
    arith,
    compact_loop_lem rounds (done ++ a ∷ []) (b ∷ ls),
    append_assoc done (a ∷ []) (b ∷ ls),
  )

  pub compact_lem :
      (s : Storage F.Reader)
      → compact F s ≡ (
          if length s.levels == 0 || ltb s.max_level (length s.levels)
          then (ok none, s)
          else (fault, s))
  unfolding compact
  compact_lem s = ground (arith, compact_loop_lem s.max_level [] s.levels)
