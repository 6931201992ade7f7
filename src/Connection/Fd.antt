-- ===== src/Connection/Fd.antt =====
-- The class FdConnection of net/fd_connection.h, as one object for both directions.
use tiny_kv.Common.{
  ℕ, ◌+◌, ◌≡◌, ◌≢◌, Bool, true, false, Option, none, some, List, [], ◌∷◌, ◌++◌, arith, Bytes,
  length, All,
}
use tiny_kv.Connection
use tiny_kv.Connection.{
  concat, NoNewline, Accepts, read_line-chunks, write_all_complete, write_all_sound,
}

-- `buffer_`, with what `recv` has still to return and `send` still to accept, and what was sent;
-- `is_open` says that `fd_` is not -1.
pub record FdConnection : Type 0 where
  pub is_open : Bool
  pub buffer : Bytes
  pub chunks : List Bytes
  pub sends : List ℕ
  pub sent : Bytes

-- on a closed descriptor `recv` fails
unfoldable pub read_line : FdConnection → Option Bytes × FdConnection
read_line c = elim c.is_open [
  | true ↦
      let r = Connection.read_line c.chunks c.buffer in
      (r.line, record c { buffer = r.buffer; chunks = r.chunks })
  | false ↦ let r = Connection.read_line [] c.buffer in (r.line, record c { buffer = r.buffer })
]

-- and so does `send`
unfoldable pub write_all : Bytes → FdConnection → Bool × FdConnection
write_all bytes c = elim c.is_open [
  | true ↦
      let w = Connection.write_all c.sends bytes c.sent in
      (w.complete, record c { sends = w.sends; sent = w.sent })
  | false ↦ ((Connection.write_all [] bytes c.sent).complete, c)
]

unfoldable pub close : FdConnection → FdConnection
close c = record c { is_open = false }

-- the connection is open and no chunk ends the stream before its end
abbrev pub IsLive : FdConnection → Type 0
IsLive c = (c.is_open ≡ true) × All (λ b. b ≢ []) c.chunks

-- what has arrived or will, and no line has taken yet
abbrev pub incoming : FdConnection → Bytes
incoming c = c.buffer ++ concat c.chunks

-- One line, whatever the chunks.
pub read_line-line :
    (c : FdConnection) (line rest : Bytes)
    → IsLive c
    → NoNewline line
    → incoming c ≡ line ++ 10 ∷ rest
    → ((read_line c).0 ≡ some line)
      × IsLive (read_line c).1
      × (incoming (read_line c).1 ≡ rest)
      × ((read_line c).1.sends ≡ c.sends)
      × ((read_line c).1.sent ≡ c.sent)
unfolding read_line
read_line-line c line rest (o, full) h e =
    let (l, b) = Connection.read_line-line c.chunks c.buffer line rest full h e in
    ground (arith, o, l, b, read_line-chunks c.chunks c.buffer full)

pub read_line-sent : (c : FdConnection) → (read_line c).1.sent ≡ c.sent
unfolding read_line
read_line-sent c = ground arith

pub read_line_end : (c : FdConnection) → IsLive c → NoNewline (incoming c) → (read_line c).0 ≡ none
unfolding read_line
read_line_end c (o, full) h = ground (arith, o, Connection.read_line_end c.chunks c.buffer full h)

-- Writing leaves what is to come, and sends every byte where `send` takes one at least each time.
pub write_all-IsLive :
    (bytes : Bytes) (c : FdConnection)
    → IsLive c
    → IsLive (write_all bytes c).1 × (incoming (write_all bytes c).1 ≡ incoming c)
unfolding write_all
write_all-IsLive bytes c (o, full) = ground (arith, o, full)

pub write_all-sent :
    (bytes : Bytes) (c : FdConnection) (more : ℕ)
    → c.is_open ≡ true
    → Accepts c.sends (length bytes + more)
    → ((write_all bytes c).0 ≡ true)
      × ((write_all bytes c).1.sent ≡ c.sent ++ bytes)
      × Accepts (write_all bytes c).1.sends more
unfolding write_all
write_all-sent bytes c more o a =
    let (done, left) = write_all_complete c.sends bytes c.sent more a in
    rw o (done, write_all_sound c.sends bytes c.sent done, left)
