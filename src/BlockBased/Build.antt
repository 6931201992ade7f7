-- ===== src/BlockBased/Build.antt =====
-- The blocks that `writeTable` has written and the one it fills, and what a flush does to them.
use tiny_kv.Common.{
  ◌≡◌, refl, sym, ap, ◌∙◌, ◌≢◌, inl, inr, true, false, List, [], ◌∷◌, ◌++◌, append-nil, subst,
  arith, ◌==◌, Bool-cases, Bytes, length,
}
use tiny_kv.Types.{Entry}
use tiny_kv.BlockBased.Structs.{IndexEntry}
use tiny_kv.BlockBased.Writer.{Builder, flush_data_block}
use tiny_kv.Common.Words.{be32}
use tiny_kv.BlockBased.Blocks.{Built, IsBlock, Indexed-snoc, Indexed-append, flatten-snoc}
use tiny_kv.BlockBased.Encode.{block_bytes}

length_nil {ℓ} : {A : Type ℓ} (xs : List A) → length xs ≡ 0 → xs ≡ []
length_nil [] h = refl
length_nil (x ∷ xs) h = absurd (omega (arith, h))

flush_nothing : (b : Builder) → (b.entries_in_block == 0) ≡ true → flush_data_block b ≡ b
unfolding flush_data_block
flush_nothing b e = ground (arith, e)

-- the index entry of the current block
abbrev next_index : Builder → IndexEntry
next_index b = record {
  last_key = b.last_key_in_block;
  block = record {
    offset = length b.output;
    size = length (be32 b.entries_in_block ++ b.data_block);
  };
}

abbrev flushed : Builder → Builder
flushed b = record b {
  output = b.output ++ (be32 b.entries_in_block ++ b.data_block);
  index = b.index ++ next_index b ∷ [];
  data_block = [];
  entries_in_block = 0;
  last_key_in_block = [];
}

flush_something : (b : Builder) → (b.entries_in_block == 0) ≡ false → flush_data_block b ≡ flushed b
unfolding flush_data_block
flush_something b e = ground (arith, e)

new-IsBlock :
    (b : Builder) (done : List Entry) (h : Built b done)
    → h.cur ≢ []
    → IsBlock (flushed b).output (next_index b) h.cur
new-IsBlock b done h full = record {
  before = b.output;
  after = [];
  placed =
      ap (λ (t : Bytes). b.output ++ t)
        (rw h.count_lem
          (rw h.block_lem (sym (append-nil (be32 (length h.cur) ++ block_bytes h.cur)))));
  offset_lem = refl;
  size_lem = rw h.count_lem (rw h.block_lem refl);
  last_lem = h.last_lem;
  full = full;
  fits = h.fits;
  counted = omega (arith, h.small);
}

flushed-Built :
    (b : Builder) (done : List Entry) (h : Built b done)
    → h.cur ≢ []
    → (k : Built (flushed b) done) × (k.cur ≡ [])
flushed-Built b done h full = (
  record {
    blocks = h.blocks ++ h.cur ∷ [];
    cur = [];
    indexed =
        Indexed-snoc (flushed b).output b.index (next_index b) h.blocks h.cur
          (Indexed-append b.output _ b.index h.blocks h.indexed) (new-IsBlock b done h full);
    whole = append-nil _ ∙ flatten-snoc h.blocks h.cur ∙ h.whole;
    block_lem = refl;
    count_lem = refl;
    small = omega arith;
    fits = tt;
    last_lem = refl;
    max_lem = h.max_lem;
    filter_lem = h.filter_lem;
  },
  refl,
)

-- `flushDataBlock` leaves no current block.
pub flush_data_block-Built :
    (b : Builder) (done : List Entry)
    → Built b done
    → (k : Built (flush_data_block b) done) × (k.cur ≡ [])
flush_data_block-Built b done h = elim (Bool-cases (b.entries_in_block == 0)) [
  | inl nothing ↦
      subst (λ (c : Builder). (k : Built c done) × (k.cur ≡ [])) (sym (flush_nothing b nothing))
        (h, length_nil h.cur (ground (arith, nothing, h.count_lem)))
  | inr something ↦
      subst (λ (c : Builder). (k : Built c done) × (k.cur ≡ [])) (sym (flush_something b something))
        (flushed-Built b done h λ e. ground (arith, something, h.count_lem, ap length e))
]
