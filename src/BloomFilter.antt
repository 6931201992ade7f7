-- ===== src/BloomFilter.antt =====
-- core/bloom_filter/bloom_filter_impl.cpp. What `std::hash<std::string>` computes is left open: it is
-- an argument.
use tiny_kv.Common.{
  ℕ, zero, suc, ◌+◌, ◌%◌, ◌<◌, ◌≡◌, refl, sym, ap, ◌∙◌, ◌⊎◌, inl, inr, Bool, true, false, ◌&&◌,
  none, some, List, [], ◌∷◌, ◌++◌, subst, arith, ltb, ◌==◌, if◌then◌else◌, Bool-cases, Option-cases,
  Bytes, length, get_elem?,
}
use tiny_kv.Common.Outcome.{Outcome, ok, fault}
use tiny_kv.Common.Decimal.{to_string}

pub record BloomFilter : Type 0 where
  pub bit_array : List Bool
  pub num_hashes : ℕ

unfoldable pub clear_bits : ℕ → List Bool
clear_bits zero = []
clear_bits (suc n) = false ∷ clear_bits n

unfoldable pub new_filter : ℕ → ℕ → BloomFilter
unfolding clear_bits
new_filter size num_hashes = record { bit_array = clear_bits size; num_hashes = num_hashes }

-- `m_bit_array[i] = true`
unfoldable pub set_at : List Bool → ℕ → List Bool
set_at [] i = []
set_at (b ∷ bits) zero = true ∷ bits
set_at (b ∷ bits) (suc i) = b ∷ set_at bits i

module _ (hash : Bytes → ℕ) where
  -- `hash_val % m_bit_array.size()` in round `i`
  abbrev pub bit_position : List Bool → Bytes → ℕ → ℕ
  bit_position bits item i = hash (item ++ to_string i) % length bits

  -- the loop of `insert`, from round `i` on
  unfoldable pub insert_loop : ℕ → ℕ → Bytes → List Bool → List Bool
  unfolding set_at
  insert_loop zero i item bits = bits
  insert_loop (suc n) i item bits =
      insert_loop n (i + 1) item (set_at bits (bit_position bits item i))

  -- A filter of no bits divides by zero, in any round.
  unfoldable pub insert : BloomFilter → Bytes → Outcome BloomFilter
  unfolding insert_loop
  insert f item =
      if (length f.bit_array == 0) && ltb 0 f.num_hashes
      then fault
      else ok (record f { bit_array = insert_loop f.num_hashes 0 item f.bit_array })

  -- the loop of `contains`, from round `i` on
  unfoldable pub contains_loop : ℕ → ℕ → Bytes → List Bool → Outcome Bool
  contains_loop zero i item bits = ok true
  contains_loop (suc n) i item bits = elim (get_elem? bits (bit_position bits item i)) [
    | none ↦ fault
    | some false ↦ ok false
    | some true ↦ contains_loop n (i + 1) item bits
  ]

  unfoldable pub contains : BloomFilter → Bytes → Outcome Bool
  unfolding contains_loop
  contains f item =
      if (length f.bit_array == 0) && ltb 0 f.num_hashes
      then fault
      else contains_loop f.num_hashes 0 item f.bit_array

length-set_at : (bits : List Bool) (i : ℕ) → length (set_at bits i) ≡ length bits
unfolding set_at
length-set_at [] i = refl
length-set_at (b ∷ bits) zero = refl
length-set_at (b ∷ bits) (suc i) = ap suc (length-set_at bits i)

get_elem?-set_at :
    (bits : List Bool) (i : ℕ) → i < length bits → get_elem? (set_at bits i) i ≡ some true
unfolding set_at
get_elem?-set_at [] i h = absurd (omega arith)
get_elem?-set_at (b ∷ bits) zero h = refl
get_elem?-set_at (b ∷ bits) (suc i) h = get_elem?-set_at bits i (omega arith)

-- a bit that is set stays set
set_at_keeps :
    (bits : List Bool) (i j : ℕ)
    → get_elem? bits j ≡ some true
    → get_elem? (set_at bits i) j ≡ some true
unfolding set_at
set_at_keeps [] i j h = h
set_at_keeps (b ∷ bits) zero zero h = refl
set_at_keeps (b ∷ bits) zero (suc j) h = h
set_at_keeps (b ∷ bits) (suc i) zero h = h
set_at_keeps (b ∷ bits) (suc i) (suc j) h = set_at_keeps bits i j h

module _ (hash : Bytes → ℕ) where
  length-insert_loop :
      (n i : ℕ) (item : Bytes) (bits : List Bool)
      → length (insert_loop hash n i item bits) ≡ length bits
  unfolding insert_loop
  length-insert_loop zero i item bits = refl
  length-insert_loop (suc n) i item bits =
      length-insert_loop n (i + 1) item (set_at bits (bit_position hash bits item i))
      ∙ length-set_at bits (bit_position hash bits item i)

  insert_loop_keeps :
      (n i : ℕ) (item : Bytes) (bits : List Bool) (j : ℕ)
      → get_elem? bits j ≡ some true
      → get_elem? (insert_loop hash n i item bits) j ≡ some true
  unfolding insert_loop
  insert_loop_keeps zero i item bits j h = h
  insert_loop_keeps (suc n) i item bits j h =
      insert_loop_keeps n (i + 1) item (set_at bits (bit_position hash bits item i)) j
        (set_at_keeps bits (bit_position hash bits item i) j h)

  -- the item's bits, from round `i` on, are set
  IsIn : ℕ → ℕ → Bytes → List Bool → Type 0
  IsIn zero i item bits = Unit
  IsIn (suc n) i item bits =
      (get_elem? bits (bit_position hash bits item i) ≡ some true) × IsIn n (i + 1) item bits

  contains_loop-IsIn :
      (n i : ℕ) (item : Bytes) (bits : List Bool)
      → IsIn n i item bits
      → contains_loop hash n i item bits ≡ ok true
  unfolding contains_loop IsIn
  contains_loop-IsIn zero i item bits h = refl
  contains_loop-IsIn (suc n) i item bits h =
      ground (arith, h.0, contains_loop-IsIn n (i + 1) item bits h.1)

  IsIn-contains_loop :
      (n i : ℕ) (item : Bytes) (bits : List Bool)
      → contains_loop hash n i item bits ≡ ok true
      → IsIn n i item bits
  unfolding contains_loop IsIn
  IsIn-contains_loop zero i item bits h = tt
  IsIn-contains_loop (suc n) i item bits h =
      elim (Option-cases (get_elem? bits (bit_position hash bits item i))) [
        | inl missing ↦ absurd (ground (arith, h, missing))
        | inr (b, there) ↦ elim (Bool-cases b) [
          | inl set ↦ (
            ground (arith, there, set),
            IsIn-contains_loop n (i + 1) item bits (ground (arith, h, there, set)),
          )
          | inr unset ↦ absurd (ground (arith, h, there, unset))
        ]
      ]

  IsIn-kept :
      (n i : ℕ) (item : Bytes) (bits bits' : List Bool)
      → length bits' ≡ length bits
      → ((j : ℕ) → get_elem? bits j ≡ some true → get_elem? bits' j ≡ some true)
      → IsIn n i item bits
      → IsIn n i item bits'
  unfolding IsIn
  IsIn-kept zero i item bits bits' l keep h = tt
  IsIn-kept (suc n) i item bits bits' l keep h = (
    ap (λ (m : ℕ). get_elem? bits' (hash (item ++ to_string i) % m)) l ∙ keep _ h.0,
    IsIn-kept n (i + 1) item bits bits' l keep h.1,
  )

  insert_loop-IsIn :
      (n i : ℕ) (item : Bytes) (bits : List Bool)
      → 0 < length bits
      → IsIn n i item (insert_loop hash n i item bits)
  unfolding IsIn insert_loop
  insert_loop-IsIn zero i item bits pos = tt
  insert_loop-IsIn (suc n) i item bits pos =
      let p : ℕ = bit_position hash bits item i in
      let next : List Bool = set_at bits p in
      (
        ap
              (λ (m : ℕ).
                get_elem? (insert_loop hash n (i + 1) item next) (hash (item ++ to_string i) % m))
              (length-insert_loop n (i + 1) item next ∙ length-set_at bits p)
            ∙ insert_loop_keeps n (i + 1) item next p (get_elem?-set_at bits p (grind arith)),
        insert_loop-IsIn n (i + 1) item next (omega (arith, length-set_at bits p)),
      )

  abbrev is_void : BloomFilter → Bool
  is_void f = (length f.bit_array == 0) && ltb 0 f.num_hashes

  abbrev inserted : BloomFilter → Bytes → BloomFilter
  inserted f item = record f { bit_array = insert_loop hash f.num_hashes 0 item f.bit_array }

  insert_lem :
      (f f' : BloomFilter) (item : Bytes)
      → insert hash f item ≡ ok f'
      → (is_void f ≡ false) × (f' ≡ inserted f item)
  unfolding insert
  insert_lem f f' item h = elim (Bool-cases (is_void f)) [
    | inl void ↦ absurd (ground (arith, h, void))
    | inr usable ↦ (usable, ground (arith, h, usable))
  ]

  contains_lem :
      (f : BloomFilter) (x : Bytes)
      → is_void f ≡ false
      → contains hash f x ≡ contains_loop hash f.num_hashes 0 x f.bit_array
  unfolding contains
  contains_lem f x h = ground (arith, h)

  all_set :
      (n : ℕ) (item : Bytes) (bits : List Bool)
      → ((length bits == 0) && ltb 0 n) ≡ false
      → IsIn n 0 item (insert_loop hash n 0 item bits)
  all_set zero item bits h = unfold IsIn in tt
  all_set (suc n) item bits h = insert_loop-IsIn (suc n) 0 item bits (ground (arith, h))

  inserted-contains :
      (f : BloomFilter) (item x : Bytes)
      → is_void f ≡ false
      → (x ≡ item) ⊎ (contains hash f x ≡ ok true)
      → IsIn f.num_hashes 0 x (inserted f item).bit_array
  inserted-contains f item x usable (inl same) =
      subst (λ (y : Bytes). IsIn f.num_hashes 0 y (inserted f item).bit_array) (sym same)
        (all_set f.num_hashes item f.bit_array usable)
  inserted-contains f item x usable (inr before) =
      IsIn-kept f.num_hashes 0 x f.bit_array (inserted f item).bit_array
        (length-insert_loop f.num_hashes 0 item f.bit_array)
        (insert_loop_keeps f.num_hashes 0 item f.bit_array)
        (IsIn-contains_loop f.num_hashes 0 x f.bit_array (sym (contains_lem f x usable) ∙ before))

  -- No item that was inserted is denied: after an `insert`, `contains` is true of its item, and of
  -- every item of which it was true.
  pub contains-insert :
      (f f' : BloomFilter) (item x : Bytes)
      → insert hash f item ≡ ok f'
      → (x ≡ item) ⊎ (contains hash f x ≡ ok true)
      → contains hash f' x ≡ ok true
  contains-insert f f' item x ins h =
      let (usable, made) = insert_lem f f' item ins in
      ap (λ (g : BloomFilter). contains hash g x) made
      ∙ contains_lem (inserted f item) x (
          ap (λ (m : ℕ). (m == 0) && ltb 0 f.num_hashes)
            (length-insert_loop f.num_hashes 0 item f.bit_array)
          ∙ usable)
      ∙ contains_loop-IsIn f.num_hashes 0 x (inserted f item).bit_array
          (inserted-contains f item x usable h)
