-- ===== src/Connection.antt =====
-- net/fd_connection.cpp: lines out of a byte stream that arrives in chunks.
pub mod Fd
use tiny_kv.Common.{
  ℕ, zero, suc, ◌≡◌, refl, sym, ap, ◌∙◌, ◌≢◌, inl, inr, Bool, true, false, Option, none, some, List,
  [], ◌∷◌, ◌++◌, append_assoc, append-nil, arith, ◌==◌, if◌then◌else◌, Bool-cases, Option-cases,
  Bytes, take, drop, All, ◌<◌, length, subst, ◌≤◌, ◌+◌, length-drop,
}

-- `buffer_.find('\n')`, with the two sides of the newline
unfoldable pub split_line : Bytes → Option (Bytes × Bytes)
split_line [] = none
split_line (c ∷ s) =
    let rest = split_line s in
    if c == 10 then some ([], s) else elim rest [ none ↦ none | some r ↦ some (c ∷ r.0, r.1) ]

-- What `readLine` leaves: the line or `nullopt`, the buffer, and what `recv` has still to return.
pub record Received : Type 0 where
  pub line : Option Bytes
  pub buffer : Bytes
  pub chunks : List Bytes

-- the `while (true)` loop. `recv` returns the chunks in turn; a chunk of no bytes, or none left, is
-- the end of the stream or an error.
unfoldable pub read_line : List Bytes → Bytes → Received
unfolding split_line
read_line [] buffer = elim (split_line buffer) [
  | some r ↦ record { line = some r.0; buffer = r.1; chunks = [] }
  | none ↦ record { line = none; buffer = buffer; chunks = [] }
]
read_line ([] ∷ chunks) buffer = elim (split_line buffer) [
  | some r ↦ record { line = some r.0; buffer = r.1; chunks = [] ∷ chunks }
  | none ↦ record { line = none; buffer = buffer; chunks = chunks }
]
read_line ((c ∷ chunk) ∷ chunks) buffer = elim (split_line buffer) [
  | some r ↦ record { line = some r.0; buffer = r.1; chunks = (c ∷ chunk) ∷ chunks }
  | none ↦ read_line chunks (buffer ++ c ∷ chunk)
]

-- What `writeAll` leaves: whether it returns true, what `send` will accept later, and the bytes sent.
pub record Sent : Type 0 where
  pub complete : Bool
  pub sends : List ℕ
  pub sent : Bytes

-- `writeAll`: `::send` accepts the given numbers of bytes in turn, none of them if it fails
unfoldable pub write_all : List ℕ → Bytes → Bytes → Sent
write_all sends [] sent = record { complete = true; sends = sends; sent = sent }
write_all [] (b ∷ bytes) sent = record { complete = false; sends = []; sent = sent }
write_all (zero ∷ sends) (b ∷ bytes) sent = record { complete = false; sends = sends; sent = sent }
write_all (suc n ∷ sends) (b ∷ bytes) sent =
    write_all sends (drop n bytes) (sent ++ b ∷ take n bytes)

abbrev pub concat : List Bytes → Bytes
concat [] = []
concat (c ∷ cs) = c ++ concat cs

abbrev pub NoNewline : Bytes → Type 0
NoNewline = All (λ c. (c == 10) ≡ false)

split_line-line :
    (line rest : Bytes) → NoNewline line → split_line (line ++ 10 ∷ rest) ≡ some (line, rest)
unfolding split_line
split_line-line [] rest h = refl
split_line-line (c ∷ line) rest h = ground (arith, split_line-line line rest h.1)

split_line_sound :
    (s : Bytes) (r : Bytes × Bytes) → split_line s ≡ some r → (s ≡ r.0 ++ 10 ∷ r.1) × NoNewline r.0
unfolding split_line
split_line_sound [] r h = cc
split_line_sound (c ∷ s) r h = elim (Bool-cases (c == 10)) [
  | inl newline ↦ ground arith
  | inr other ↦ elim (Option-cases (split_line s)) [
    | inl nothing ↦ ground arith
    | inr (q, found) ↦ ground (arith, split_line_sound s q found)
  ]
]

-- two ways to cut the same bytes at their first newline
line_unique :
    (a b x y : Bytes) → NoNewline a → NoNewline b → a ++ 10 ∷ x ≡ b ++ 10 ∷ y → (a ≡ b) × (x ≡ y)
line_unique [] [] x y h k e = ground arith
line_unique [] (b ∷ bs) x y h k e = ground arith
line_unique (a ∷ as_) [] x y h k e = ground arith
line_unique (a ∷ as_) (b ∷ bs) x y h k e = ground (arith, line_unique as_ bs x y h.1 k.1)

-- The line that has arrived, or will, whatever the chunks: `readLine` returns the bytes up to the
-- first newline, and what it keeps, with what is still to come, is what follows that newline.
pub read_line-line :
    (chunks : List Bytes) (buffer line rest : Bytes)
    → All (λ c. c ≢ []) chunks
    → NoNewline line
    → buffer ++ concat chunks ≡ line ++ 10 ∷ rest
    → ((read_line chunks buffer).line ≡ some line)
      × ((read_line chunks buffer).buffer ++ concat (read_line chunks buffer).chunks ≡ rest)
unfolding read_line
read_line-line [] buffer line rest full h e =
    ground (arith, append-nil buffer, split_line-line line rest h, append-nil rest)
read_line-line ([] ∷ chunks) buffer line rest full h e = absurd (full.0 refl)
read_line-line ((c ∷ chunk) ∷ chunks) buffer line rest full h e =
    elim (Option-cases (split_line buffer)) [
      | inr (r, found) ↦
          let (whole, no_newline) = split_line_sound buffer r found in
          let (same_line, same_rest) =
            line_unique r.0 line (r.1 ++ concat ((c ∷ chunk) ∷ chunks)) rest no_newline h (
              sym (append_assoc r.0 (10 ∷ r.1) (concat ((c ∷ chunk) ∷ chunks)))
              ∙ ap (λ (b : Bytes). b ++ concat ((c ∷ chunk) ∷ chunks)) (sym whole)
              ∙ e) in
          ground (arith, found, same_line, same_rest)
      | inl nothing ↦
          let (l, b) =
            read_line-line chunks (buffer ++ c ∷ chunk) line rest full.1 h
              (append_assoc buffer (c ∷ chunk) (concat chunks) ∙ e) in
          ground (arith, nothing, l, b)
    ]

take-append-drop : (n : ℕ) (xs : Bytes) → take n xs ++ drop n xs ≡ xs
take-append-drop zero xs = refl
take-append-drop (suc n) [] = refl
take-append-drop (suc n) (x ∷ xs) = ap (λ (t : Bytes). x ∷ t) (take-append-drop n xs)

-- Whatever `send` accepts at a time, `writeAll` that returns true has sent every byte, in order.
pub write_all_sound :
    (sends : List ℕ) (bytes sent : Bytes)
    → (write_all sends bytes sent).complete ≡ true
    → (write_all sends bytes sent).sent ≡ sent ++ bytes
unfolding write_all
write_all_sound sends [] sent h = sym (append-nil sent)
write_all_sound [] (b ∷ bytes) sent h = cc
write_all_sound (zero ∷ sends) (b ∷ bytes) sent h = cc
write_all_sound (suc n ∷ sends) (b ∷ bytes) sent h =
    write_all_sound sends (drop n bytes) (sent ++ b ∷ take n bytes) h
    ∙ append_assoc sent (b ∷ take n bytes) (drop n bytes)
    ∙ ap (λ (t : Bytes). sent ++ b ∷ t) (take-append-drop n bytes)

-- `send` takes a byte at least, each of the `n` times that it may be called
abbrev pub Accepts : List ℕ → ℕ → Type 0
Accepts sends n = All (λ k. 0 < k) sends × (n ≤ length sends)

-- Where `send` takes a byte at least each time, `writeAll` returns true, after no more calls than
-- there are bytes.
pub write_all_complete :
    (sends : List ℕ) (bytes sent : Bytes) (more : ℕ)
    → Accepts sends (length bytes + more)
    → ((write_all sends bytes sent).complete ≡ true)
      × Accepts (write_all sends bytes sent).sends more
unfolding write_all
write_all_complete sends [] sent more h = (refl, (h.0, omega (arith, h.1)))
write_all_complete [] (b ∷ bytes) sent more h = absurd (omega (arith, h.1))
write_all_complete (zero ∷ sends) (b ∷ bytes) sent more h = absurd (omega (arith, h.0.0))
write_all_complete (suc n ∷ sends) (b ∷ bytes) sent more h =
    write_all_complete sends (drop n bytes) (sent ++ b ∷ take n bytes) more
      (h.0.1, omega (arith, h.1, length-drop n bytes))

-- what `readLine` leaves to receive has no empty chunk either
pub read_line-chunks :
    (chunks : List Bytes) (buffer : Bytes)
    → All (λ c. c ≢ []) chunks
    → All (λ c. c ≢ []) (read_line chunks buffer).chunks
unfolding read_line
read_line-chunks [] buffer full = ground arith
read_line-chunks ([] ∷ chunks) buffer full = absurd (full.0 refl)
read_line-chunks ((c ∷ chunk) ∷ chunks) buffer full =
    ground (arith, read_line-chunks chunks (buffer ++ c ∷ chunk) full.1)

split_line-none : (s : Bytes) → NoNewline s → split_line s ≡ none
unfolding split_line
split_line-none [] h = refl
split_line-none (c ∷ s) h = ground (arith, split_line-none s h.1)

NoNewline-prefix : (a b : Bytes) → NoNewline (a ++ b) → NoNewline a
NoNewline-prefix [] b h = tt
NoNewline-prefix (x ∷ a) b h = (h.0, NoNewline-prefix a b h.1)

-- Bytes with no newline among them are no line: `readLine` returns nothing once the stream ends.
pub read_line_end :
    (chunks : List Bytes) (buffer : Bytes)
    → All (λ c. c ≢ []) chunks
    → NoNewline (buffer ++ concat chunks)
    → (read_line chunks buffer).line ≡ none
unfolding read_line
read_line_end [] buffer full h =
    ground (arith, split_line-none buffer (NoNewline-prefix buffer [] h))
read_line_end ([] ∷ chunks) buffer full h = absurd (full.0 refl)
read_line_end ((c ∷ chunk) ∷ chunks) buffer full h = ground (
  arith,
  split_line-none buffer (NoNewline-prefix buffer (concat ((c ∷ chunk) ∷ chunks)) h),
  read_line_end chunks (buffer ++ c ∷ chunk) full.1
      (subst NoNewline (sym (append_assoc buffer (c ∷ chunk) (concat chunks))) h),
)
