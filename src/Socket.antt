-- ===== src/Socket.antt =====
-- The bytes of a connection, as foris_controller/buses/unix_socket.py and
-- foris_controller/client_socket.py read them. A connection is what the peer sends before it closes,
-- in the pieces in which it arrives; a byte is a number. The order of the bytes of a length is that
-- of a little-endian host.
pub mod Read
pub mod Server
pub mod Client
mod Tests
use foris_controller.Prelude.{
  ℕ, zero, suc, ◌+◌, ◌-◌, ◌*◌, ◌/◌, ◌%◌, ◌^◌, Bool, true, false, Option, none, some, List, [], ◌∷◌,
  ◌++◌, ltb, length, take, drop, if◌then◌else◌,
}
use foris_controller.Exceptions.{Raised, value_error, Result, ok, err}

abbrev pub Bytes : Type 0
Bytes = List ℕ

abbrev pub Conn : Type 0
Conn = List Bytes

-- All that is still to come.
unfoldable pub coming : Conn → Bytes
coming [] = []
coming (piece ∷ c) = piece ++ coming c

-- What is left of a piece stays the next one.
abbrev pub keep : Bytes → Conn → Conn
keep [] c = c
keep (b ∷ piece) c = (b ∷ piece) ∷ c

-- request.recv(n): at most n bytes of the next piece, nothing once the peer has closed.
unfoldable pub recv : ℕ → Conn → Bytes × Conn
recv zero c = ([], c)
recv (suc n) [] = ([], [])
recv (suc n) ([] ∷ c) = recv (suc n) c
recv (suc n) ((b ∷ piece) ∷ c) = (take (suc n) (b ∷ piece), keep (drop (suc n) (b ∷ piece)) c)

abbrev pub packed : ℕ → Bytes
packed n = n % 256 ∷ n / 256 % 256 ∷ n / 65536 % 256 ∷ n / 16777216 % 256 ∷ []

-- struct.pack("I", n)
unfoldable pub pack : ℕ → Result Bytes
pack n = if ltb n (2 ^ 32) then ok (packed n) else err (value_error "argument out of range")

-- struct.unpack("I", data)[0]
unfoldable pub unpack : Bytes → Result ℕ
unpack (a ∷ b ∷ c ∷ d ∷ []) = ok (a + 256 * b + 65536 * c + 16777216 * d)
unpack _ = err (value_error "unpack requires a buffer of 4 bytes")

-- The loop of buses/unix_socket.py after the first `recv`: `none` is that the rounds are used up.
unfoldable pub fill_server : ℕ → ℕ → Bytes → Conn → Option (Bytes × Conn)
fill_server zero n received c = if ltb (length received) n then none else some (received, c)
fill_server (suc rounds) n received c = elim (ltb (length received) n) [
  | false ↦ some (received, c)
  | true ↦
      let (more, c') = recv (n - length received) c in fill_server rounds n (received ++ more) c'
]

-- The same loop of client_socket.py: no bytes raise.
unfoldable pub fill_client : ℕ → ℕ → Bytes → Conn → Option (Result (Bytes × Conn))
fill_client zero n received c = if ltb (length received) n then none else some (ok (received, c))
fill_client (suc rounds) n received c = elim (ltb (length received) n) [
  | false ↦ some (ok (received, c))
  | true ↦
      let (more, c') = recv (n - length received) c in
      elim (length more) [
        | zero ↦ some (err (value_error "Failed to fully obtained the input message."))
        | suc k ↦ fill_client rounds n (received ++ more) c'
      ]
]
