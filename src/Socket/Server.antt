-- ===== src/Socket/Server.antt =====
-- UnixSocketHandler.handle of foris_controller/buses/unix_socket.py. The JSON of the messages and the
-- router's answer stand behind one function: a text that is no JSON, an exception, or the bytes of
-- the reply; it may depend on the state behind the router, and change it. What is sent is the result.
pub mod Pieces
pub mod Frames
use foris_controller.Prelude.{
  ℕ, zero, suc, ◌^◌, Bool, true, false, Option, none, some, List, [], ◌∷◌, ◌++◌, length,
  if◌then◌else◌,
}
use foris_controller.Exceptions.{Raised, Result, ok, err}
use foris_controller.Socket.{Bytes, Conn, recv, pack, unpack, fill_server}

pub data Answer : Type 0 where
  not_json : Answer
  raised : Answer
  replied : Bytes → Answer

abbrev pub then_sent {ℓ} : {S : Type ℓ} → Bytes → Option (Bytes × S) → Option (Bytes × S)
then_sent bs none = none
then_sent bs (some (sent, s)) = some (bs ++ sent, s)

-- struct.pack of the length raises when it takes more than four bytes, and that ends the loop.
abbrev pub frame : Bytes → Result Bytes
frame bs = elim (pack (length bs)) [ err e ↦ err e | ok h ↦ ok (h ++ bs) ]

-- What an answer makes of the rest of the handler's loop, `go`.
abbrev pub with_answer :
    {S : Type 0} → Answer × S → Conn → (Conn → S → Option (Bytes × S)) → Option (Bytes × S)
with_answer (not_json, s) rest go = go rest s
with_answer (raised, s) rest go = some ([], s)
with_answer (replied bs, s) rest go = elim (frame bs) [
  | err e ↦ some ([], s)
  | ok sent ↦ then_sent sent (go rest s)
]

module _ {S : Type 0} (answer : Bytes → S → Answer × S) where
  -- One message of the announced length; its loop has a round for each byte.
  unfoldable pub one_message : ℕ → Conn → S → (Conn → S → Option (Bytes × S)) → Option (Bytes × S)
  one_message n c s go =
      let (first, c') = recv n c in
      elim (fill_server n n first c') [
        | none ↦ none
        | some (message, rest) ↦ with_answer (answer message s) rest go
      ]

  -- while True, with so many rounds; an exception breaks the loop.
  unfoldable pub handle : ℕ → Conn → S → Option (Bytes × S)
  handle zero c s = none
  handle (suc rounds) c s =
      let (length_data, c') = recv 4 c in
      elim length_data [
        | [] ↦ some ([], s)
        | b ∷ bs ↦ elim (unpack (b ∷ bs)) [
          | err e ↦ some ([], s)
          | ok n ↦ one_message n c' s (handle rounds)
        ]
      ]
