-- ===== src/BlockBased/Encode.antt =====
-- What one string, entry, handle or block is written as, and that it is read back.
use tiny_kv.Common.{
  ℕ, ◌*◌, ◌≤◌, ◌<◌, ◌≡◌, refl, sym, ap, ◌∙◌, ◌⊎◌, inl, inr, List, [], ◌∷◌, ◌++◌, append_assoc,
  arith, ltb, if◌then◌else◌, ltb→lt, ltb→le, Bool-cases, Bytes, length, All, length-append,
}
use tiny_kv.Common.Outcome.{ok, throws, string_too_large}
use tiny_kv.Types.{Entry}
use tiny_kv.BlockBased.Structs.{BlockHandle, IndexEntry}
use tiny_kv.BlockBased.Reader.{
  read_string, read_entry, read_uint32, read_uint64, read_block_handle, read_index_entries,
  read_exactly,
}
use tiny_kv.BlockBased.Writer.{append_string, append_entry}
use tiny_kv.Common.Words.{
  u32_mod, be32, be64, u64_mod, read_be32-be32, read_be64-be64, read_bytes-append, length-be32,
}

abbrev pub Fits : Bytes → Type 0
Fits s = length s < u32_mod

abbrev pub string_bytes : Bytes → Bytes
string_bytes s = be32 (length s) ++ s

-- the value that a table keeps of an entry
abbrev pub kept : Entry → Bytes
kept e = if e.tombstone then [] else e.val

abbrev pub flag : Entry → ℕ
flag e = if e.tombstone then 1 else 0

-- the entry that a table gives back
abbrev pub stored : Entry → Entry
stored e = record e { val = kept e }

abbrev pub entry_bytes : Entry → Bytes
entry_bytes e = string_bytes e.key ++ (string_bytes (kept e) ++ flag e ∷ [])

abbrev pub block_bytes : List Entry → Bytes
block_bytes [] = []
block_bytes (e ∷ es) = entry_bytes e ++ block_bytes es

pub record EntryFits (e : Entry) : Type 0 where
  pub key_fits : Fits e.key
  pub val_fits : Fits (kept e)

-- a length does not fit its 32 bits
abbrev pub EntryTooLong : Entry → Type 0
EntryTooLong e = (u32_mod ≤ length e.key) ⊎ (u32_mod ≤ length (kept e))

-- an entry is too long to be written
abbrev pub TooLong : List Entry → Type 0
TooLong [] = ⊥
TooLong (e ∷ es) = EntryTooLong e ⊎ TooLong es

pub TooLong-at :
    (xs : List Entry) (e : Entry) (ys : List Entry) → EntryTooLong e → TooLong (xs ++ e ∷ ys)
TooLong-at [] e ys h = inl h
TooLong-at (x ∷ xs) e ys h = inr (TooLong-at xs e ys h)

pub TooLong-append : (xs ys : List Entry) → TooLong xs → TooLong (xs ++ ys)
TooLong-append [] ys h = absurd h
TooLong-append (x ∷ xs) ys (inl h) = inl h
TooLong-append (x ∷ xs) ys (inr h) = inr (TooLong-append xs ys h)

abbrev pub handle_bytes : BlockHandle → Bytes
handle_bytes h = be64 h.offset ++ be64 h.size

abbrev pub index_bytes : List IndexEntry → Bytes
index_bytes [] = []
index_bytes (i ∷ is) = (string_bytes i.last_key ++ handle_bytes i.block) ++ index_bytes is

pub record HandleFits (h : BlockHandle) : Type 0 where
  pub offset_fits : h.offset < u64_mod
  pub size_fits : h.size < u64_mod

pub record IndexFits (i : IndexEntry) : Type 0 where
  pub key_fits : Fits i.last_key
  pub block_fits : HandleFits i.block

pub read_uint32-be32 :
    (v : ℕ) (rest : Bytes) → v < u32_mod → read_uint32 (be32 v ++ rest) ≡ ok (v, rest)
unfolding read_uint32
read_uint32-be32 v rest h = ground (arith, read_be32-be32 v rest h)

pub read_uint64-be64 :
    (v : ℕ) (rest : Bytes) → v < u64_mod → read_uint64 (be64 v ++ rest) ≡ ok (v, rest)
unfolding read_uint64
read_uint64-be64 v rest h = ground (arith, read_be64-be64 v rest h)

pub read_string-string_bytes :
    (s rest : Bytes) → Fits s → read_string (string_bytes s ++ rest) ≡ ok (s, rest)
unfolding read_string read_exactly
read_string-string_bytes s rest h = ground (
  arith,
  append_assoc (be32 (length s)) s rest,
  read_uint32-be32 (length s) (s ++ rest) h,
  read_bytes-append s rest,
)

-- One entry is read back with the value that a table keeps of it, whatever follows it.
pub read_entry-entry_bytes :
    (e : Entry) (rest : Bytes)
    → EntryFits e
    → read_entry (entry_bytes e ++ rest) ≡ ok (stored e, rest)
unfolding read_entry
read_entry-entry_bytes e rest h = ground (
  arith,
  append_assoc (string_bytes e.key) (string_bytes (kept e) ++ flag e ∷ []) rest,
  append_assoc (string_bytes (kept e)) (flag e ∷ []) rest,
  read_string-string_bytes e.key (string_bytes (kept e) ++ flag e ∷ rest) h.key_fits,
  read_string-string_bytes (kept e) (flag e ∷ rest) h.val_fits,
)

pub read_block_handle-handle_bytes :
    (h : BlockHandle) (rest : Bytes)
    → HandleFits h
    → read_block_handle (handle_bytes h ++ rest) ≡ ok (h, rest)
unfolding read_block_handle
read_block_handle-handle_bytes h rest f = ground (
  arith,
  append_assoc (be64 h.offset) (be64 h.size) rest,
  read_uint64-be64 h.offset (be64 h.size ++ rest) f.offset_fits,
  read_uint64-be64 h.size rest f.size_fits,
)

pub read_index_entries-index_bytes :
    (is : List IndexEntry) (rest : Bytes)
    → All IndexFits is
    → read_index_entries (length is) (index_bytes is ++ rest) ≡ ok (is, rest)
unfolding read_index_entries
read_index_entries-index_bytes [] rest h = refl
read_index_entries-index_bytes (i ∷ is) rest h =
    let more : Bytes = index_bytes is ++ rest in
    ground (
      arith,
      append_assoc (string_bytes i.last_key ++ handle_bytes i.block) (index_bytes is) rest,
      append_assoc (string_bytes i.last_key) (handle_bytes i.block) more,
      read_string-string_bytes i.last_key (handle_bytes i.block ++ more) h.0.key_fits,
      read_block_handle-handle_bytes i.block more h.0.block_fits,
      read_index_entries-index_bytes is rest h.1,
    )

-- A string that is not refused is one whose length has 32 bits.
append_string_lem :
    (s : Bytes)
    → ((append_string s ≡ ok (string_bytes s)) × Fits s)
      ⊎ ((append_string s ≡ throws string_too_large) × (u32_mod ≤ length s))
unfolding append_string
append_string_lem s = elim (Bool-cases (ltb (length s) u32_mod)) [
  | inl small ↦ inl (ground arith, ltb→lt (length s) u32_mod small)
  | inr big ↦ inr (ground arith, ltb→le (length s) u32_mod big)
]

-- `appendEntry` appends the entry's bytes, or throws when its key or value is too long.
pub append_entry_lem :
    (e : Entry)
    → ((append_entry e ≡ ok (entry_bytes e)) × EntryFits e)
      ⊎ ((append_entry e ≡ throws string_too_large) × EntryTooLong e)
unfolding append_entry
append_entry_lem e = elim (append_string_lem e.key) [
  | inr (big, long) ↦ inr (ground arith, inl long)
  | inl (k, key_fits) ↦ elim (append_string_lem (kept e)) [
    | inr (big, long) ↦ inr (ground arith, inr long)
    | inl (v, val_fits) ↦ inl (ground arith, record { key_fits = key_fits; val_fits = val_fits })
  ]
]

pub length-entry_bytes : (e : Entry) → 9 ≤ length (entry_bytes e)
length-entry_bytes e = omega (
  arith,
  length-append (string_bytes e.key) (string_bytes (kept e) ++ flag e ∷ []),
  length-append (be32 (length e.key)) e.key,
  length-append (string_bytes (kept e)) (flag e ∷ []),
  length-append (be32 (length (kept e))) (kept e),
  length-be32 (length e.key),
  length-be32 (length (kept e)),
)

pub block_bytes-append :
    (xs ys : List Entry) → block_bytes (xs ++ ys) ≡ block_bytes xs ++ block_bytes ys
block_bytes-append [] ys = refl
block_bytes-append (x ∷ xs) ys =
    ap (λ (t : Bytes). entry_bytes x ++ t) (block_bytes-append xs ys)
    ∙ sym (append_assoc (entry_bytes x) (block_bytes xs) (block_bytes ys))

pub length-block_bytes : (es : List Entry) → 9 * length es ≤ length (block_bytes es)
length-block_bytes [] = omega arith
length-block_bytes (e ∷ es) = omega (
  arith,
  length-append (entry_bytes e) (block_bytes es),
  length-entry_bytes e,
  length-block_bytes es,
)
