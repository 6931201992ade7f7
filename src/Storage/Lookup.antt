-- ===== src/Storage/Lookup.antt =====
-- What `get` answers over the levels, and what a deletion at one level hides from the next.
use tiny_kv.Common.{
  ◌≡◌, refl, inl, inr, Option, none, some, List, [], ◌∷◌, arith, if◌then◌else◌, Option-cases, Bytes,
}
use tiny_kv.Common.Outcome.{ok}
use tiny_kv.Types.{Entry}
use tiny_kv.Table.{TableFormat, TableLaws}
use tiny_kv.Table.Verdict.{Verdict, or_else, newest, verdict}
use tiny_kv.Disk.{Disk}
use tiny_kv.Level.Lookup.{alive, HoldsAll, get_key-newest}
use tiny_kv.Storage.{get_loop, get, Storage}
use tiny_kv.Level.{Level}

module _ (F : TableFormat) (laws : TableLaws F) where
  abbrev pub HoldsLevels : Disk → List (Level F.Reader) → List (List (List Entry)) → Type 0
  HoldsLevels d [] [] = Unit
  HoldsLevels d (l ∷ ls) (tables ∷ rest) =
      HoldsAll F laws d l.readers tables × HoldsLevels d ls rest
  HoldsLevels d _ _ = ⊥

-- the first level that has a live entry
unfoldable pub first_alive : Bytes → List (List (List Entry)) → Verdict
first_alive k [] = none
first_alive k (tables ∷ rest) = or_else (alive (newest k tables)) (first_alive k rest)

module _ (F : TableFormat) (laws : TableLaws F) where
  get_loop-first_alive :
      (d : Disk) (k : Bytes) (ls : List (Level F.Reader)) (tables : List (List (List Entry)))
      → HoldsLevels F laws d ls tables
      → (o : Option Entry) × (get_loop F d k ls ≡ ok o) × (verdict o ≡ first_alive k tables)
  unfolding get_loop first_alive or_else verdict alive
  get_loop-first_alive d k [] [] h = (none, refl, refl)
  get_loop-first_alive d k [] (t ∷ tables) h = absurd h
  get_loop-first_alive d k (l ∷ ls) [] h = absurd h
  get_loop-first_alive d k (l ∷ ls) (t ∷ tables) h =
      let (o, g, v) = get_key-newest F laws d l k t h.0 in
      let (o', rest, v') = get_loop-first_alive d k ls tables h.1 in
      elim (Option-cases o) [
        | inl nothing ↦ (o', ground (arith, g, nothing, rest), ground (arith, nothing, v, v'))
        | inr (e, found) ↦ (
          if e.tombstone then none else some e,
          ground (arith, g, found),
          ground (arith, found, v),
        )
      ]

  -- The answer over all levels, where the readers of each answer for known entries: the first
  -- level with a live entry of the key decides.
  pub get-first_alive :
      (d : Disk) (s : Storage F.Reader) (k : Bytes) (tables : List (List (List Entry)))
      → HoldsLevels F laws d s.levels tables
      → (o : Option Entry) × (get F d s k ≡ ok o) × (verdict o ≡ first_alive k tables)
  unfolding get
  get-first_alive d s k tables h = get_loop-first_alive d k s.levels tables h

  -- A key that level 0 deleted and level 1 still has is answered with the old value: the deletion
  -- does not reach past its own level.
  pub get_resurrects :
      (d : Disk) (s : Storage F.Reader) (k v : Bytes) (t0 t1 : List (List Entry))
      (rest : List (List (List Entry)))
      → HoldsLevels F laws d s.levels (t0 ∷ t1 ∷ rest)
      → newest k t0 ≡ some none
      → newest k t1 ≡ some (some v)
      → (o : Option Entry) × (get F d s k ≡ ok o) × (verdict o ≡ some (some v))
  unfolding first_alive alive or_else
  get_resurrects d s k v t0 t1 rest h gone old =
      let (o, g, e) = get-first_alive d s k (t0 ∷ t1 ∷ rest) h in
      (o, g, ground (arith, e, gone, old))
