-- ===== src/Level/Lookup.antt =====
-- What `getKey` answers: the newest table that says something of the key decides.
use tiny_kv.Common.{
  ◌≡◌, refl, inl, inr, Option, none, some, List, [], ◌∷◌, arith, if◌then◌else◌, Bool-cases,
  Option-cases, Bytes,
}
use tiny_kv.Common.Outcome.{ok}
use tiny_kv.Types.{Entry}
use tiny_kv.Table.Verdict.{Verdict, newest, verdict, or_else}
use tiny_kv.Table.{TableFormat, TableLaws}
use tiny_kv.Disk.{Disk}
use tiny_kv.Level.{get_key_loop, get_key, Level}

-- a level hides a deletion: it answers as if the key were absent
unfoldable pub alive : Verdict → Verdict
alive none = none
alive (some none) = none
alive (some (some v)) = some (some v)

module _ (F : TableFormat) (laws : TableLaws F) where
  -- each reader answers for the entries at its place
  abbrev pub HoldsAll : Disk → List F.Reader → List (List Entry) → Type 0
  HoldsAll d [] [] = Unit
  HoldsAll d (r ∷ rs) (es ∷ tables) = laws.Holds d r es × HoldsAll d rs tables
  HoldsAll d _ _ = ⊥

  get_key_loop-newest :
      (d : Disk) (k : Bytes) (rs : List F.Reader) (tables : List (List Entry))
      → HoldsAll d rs tables
      → (o : Option Entry) × (get_key_loop F d k rs ≡ ok o) × (verdict o ≡ alive (newest k tables))
  unfolding get_key_loop newest alive verdict or_else
  get_key_loop-newest d k [] [] h = (none, refl, refl)
  get_key_loop-newest d k [] (es ∷ tables) h = absurd h
  get_key_loop-newest d k (r ∷ rs) [] h = absurd h
  get_key_loop-newest d k (r ∷ rs) (es ∷ tables) h =
      let (inside, w, out) = laws.within_range-Holds d r es k h.0 in
      let (o, g, v) = laws.get-Holds d r es k h.0 in
      let (o', rest, v') = get_key_loop-newest d k rs tables h.1 in
      elim (Bool-cases inside) [
        | inr outside ↦ (o', ground (arith, w, outside, rest), ground (arith, out outside, v'))
        | inl within ↦ elim (Option-cases o) [
          | inl nothing ↦
              (o', ground (arith, w, within, g, nothing, rest), ground (arith, nothing, v, v'))
          | inr (e, found) ↦ (
            if e.tombstone then none else some e,
            ground (arith, w, within, g, found),
            ground (arith, found, v),
          )
        ]
      ]

  -- The answer of a level whose tables hold the given entries: the first table, newest first, that
  -- has the key decides, and a tombstone there makes the key absent.
  pub get_key-newest :
      (d : Disk) (l : Level F.Reader) (k : Bytes) (tables : List (List Entry))
      → HoldsAll d l.readers tables
      → (o : Option Entry) × (get_key F d l k ≡ ok o) × (verdict o ≡ alive (newest k tables))
  unfolding get_key
  get_key-newest d l k tables h = get_key_loop-newest d k l.readers tables h
