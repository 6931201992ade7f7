-- ===== src/BlockBased/Blocks.antt =====
-- The data blocks that the loop of `writeTable` leaves: which entries each holds, and where.
use tiny_kv.Common.{
  ℕ, ◌≤◌, ◌<◌, ◌≡◌, refl, sym, ap, ◌∙◌, ◌≢◌, List, [], ◌∷◌, ◌++◌, append_assoc, append-nil, Bytes,
  length, All,
}
use tiny_kv.Types.{Entry}
use tiny_kv.BlockBased.Structs.{IndexEntry}
use tiny_kv.BlockBased.Encode.{EntryFits, block_bytes}
use tiny_kv.BlockBased.Writer.{Builder}
use tiny_kv.SsTable.Range.{last}
use tiny_kv.Common.Words.{be32, u32_mod}
use tiny_kv.BlockBased.Filter.Bits.{FilterOf}

-- the key of the last entry, empty if there is none
abbrev pub last_key_of : List Entry → Bytes
last_key_of [] = []
last_key_of (e ∷ es) = (last e es).key

abbrev pub flatten : List (List Entry) → List Entry
flatten [] = []
flatten (es ∷ blocks) = es ++ flatten blocks

-- In this file the index entry leads to the block of these entries.
pub record IsBlock (file : Bytes) (i : IndexEntry) (es : List Entry) : Type 0 where
  pub before : Bytes
  pub after : Bytes
  pub placed : file ≡ before ++ ((be32 (length es) ++ block_bytes es) ++ after)
  pub offset_lem : i.block.offset ≡ length before
  pub size_lem : i.block.size ≡ length (be32 (length es) ++ block_bytes es)
  pub last_lem : i.last_key ≡ last_key_of es
  pub full : es ≢ []
  pub fits : All EntryFits es
  pub counted : length es < u32_mod

abbrev pub Indexed : Bytes → List IndexEntry → List (List Entry) → Type 0
Indexed file [] [] = Unit {0}
Indexed file (i ∷ is) (es ∷ blocks) = IsBlock file i es × Indexed file is blocks
Indexed file _ _ = ⊥

IsBlock-append :
    (file more : Bytes) (i : IndexEntry) (es : List Entry)
    → IsBlock file i es
    → IsBlock (file ++ more) i es
IsBlock-append file more i es h = record {
  before = h.before;
  after = h.after ++ more;
  placed =
      ap (λ (t : Bytes). t ++ more) h.placed
      ∙ append_assoc h.before ((be32 (length es) ++ block_bytes es) ++ h.after) more
      ∙ ap (λ (t : Bytes). h.before ++ t)
          (append_assoc (be32 (length es) ++ block_bytes es) h.after more);
  offset_lem = h.offset_lem;
  size_lem = h.size_lem;
  last_lem = h.last_lem;
  full = h.full;
  fits = h.fits;
  counted = h.counted;
}

-- What is written later leaves the blocks where they are.
pub Indexed-append :
    (file more : Bytes) (is : List IndexEntry) (blocks : List (List Entry))
    → Indexed file is blocks
    → Indexed (file ++ more) is blocks
Indexed-append file more [] [] h = tt
Indexed-append file more [] (es ∷ blocks) h = absurd h
Indexed-append file more (i ∷ is) [] h = absurd h
Indexed-append file more (i ∷ is) (es ∷ blocks) h =
    (IsBlock-append file more i es h.0, Indexed-append file more is blocks h.1)

pub Indexed-snoc :
    (file : Bytes) (is : List IndexEntry) (i : IndexEntry) (blocks : List (List Entry))
    (es : List Entry)
    → Indexed file is blocks
    → IsBlock file i es
    → Indexed file (is ++ i ∷ []) (blocks ++ es ∷ [])
Indexed-snoc file [] i [] es h b = (b, tt)
Indexed-snoc file [] i (fs ∷ blocks) es h b = absurd h
Indexed-snoc file (j ∷ is) i [] es h b = absurd h
Indexed-snoc file (j ∷ is) i (fs ∷ blocks) es h b = (h.0, Indexed-snoc file is i blocks es h.1 b)

pub flatten-snoc :
    (blocks : List (List Entry)) (es : List Entry)
    → flatten (blocks ++ es ∷ []) ≡ flatten blocks ++ es
flatten-snoc [] es = append-nil es
flatten-snoc (fs ∷ blocks) es =
    ap (λ (t : List Entry). fs ++ t) (flatten-snoc blocks es)
    ∙ sym (append_assoc fs (flatten blocks) es)

last-snoc : (f : Entry) (fs : List Entry) (e : Entry) → last f (fs ++ e ∷ []) ≡ e
unfolding last
last-snoc f [] e = refl
last-snoc f (g ∷ fs) e = last-snoc g fs e

pub last_key_of-snoc : (es : List Entry) (e : Entry) → last_key_of (es ++ e ∷ []) ≡ e.key
last_key_of-snoc [] e = unfold last in refl
last_key_of-snoc (f ∷ fs) e = ap (λ (g : Entry). g.key) (last-snoc f fs e)

-- The bound on the entries of a block: `DATA_BLOCK_MAX_SIZE / 9`, as each has nine bytes at least.
abbrev pub max_block_entries : ℕ
max_block_entries = 455

-- The builder after the entries `done`: those of the finished blocks, then the current block's.
pub record Built (b : Builder) (done : List Entry) : Type 0 where
  pub blocks : List (List Entry)
  pub cur : List Entry
  pub indexed : Indexed b.output b.index blocks
  pub whole : flatten blocks ++ cur ≡ done
  pub block_lem : b.data_block ≡ block_bytes cur
  pub count_lem : b.entries_in_block ≡ length cur
  pub small : length cur ≤ max_block_entries
  pub fits : All EntryFits cur
  pub last_lem : b.last_key_in_block ≡ last_key_of cur
  pub max_lem : b.max_key ≡ last_key_of done
  pub filter_lem : FilterOf b.filter_bitset done
