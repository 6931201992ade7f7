-- ===== src/Common/Outcome.antt =====
-- How a C++ call ends: with a value, with an exception, or outside the language's rules (a read
-- past the end of a vector).

-- The exceptions that the sources throw, one for each `throw` or failing library call.
pub data Exception : Type 0 where
  empty_table create_failed read_failed empty_file : Exception
  bad_key_length bad_key bad_val_length bad_val bad_tombstone : Exception
  bad_optional out_of_range no_directory : Exception
  short_read size_mismatch missing_block no_footer string_too_large past_block : Exception
  write_failed too_many_entries seek_failed filesystem_error : Exception

pub data Outcome {ℓ} (A : Type ℓ) : Type ℓ where
  ok : A → Outcome A
  throws : Exception → Outcome A
  fault : Outcome A

infixl 5 ◌>>=◌
abbrev pub ◌>>=◌ {ℓ κ} : {A : Type ℓ} {B : Type κ} → Outcome A → (A → Outcome B) → Outcome B
ok a >>= f = f a
throws e >>= f = throws e
fault >>= f = fault
