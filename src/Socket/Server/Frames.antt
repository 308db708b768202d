-- ===== src/Socket/Server/Frames.antt =====
-- Messages that a peer of the bus sends, in the pieces in which they arrive: each one is a length and
-- so many bytes. The four bytes of a length come in one piece; a piece may hold the end of a message
-- and the beginning of the next one, or several messages.
use foris_controller.Prelude.{
  ℕ, zero, suc, ◌^◌, ◌<◌, ◌≡◌, refl, ap, ◌∙◌, Bool, true, false, Option, some, List, [], ◌∷◌, ◌++◌,
  map, ltb, length, All, arith,
}
use foris_controller.Exceptions.{ok, err}
use foris_controller.Socket.{Bytes, Conn, coming, keep, recv, packed, pack, unpack, fill_server}
use foris_controller.Socket.Server.Pieces.{
  IsPiece, glue, IsOpen, glue-IsOpen, recv_length, read_sent,
}
use foris_controller.Socket.Server.{
  Answer, not_json, raised, replied, with_answer, one_message, handle,
}

-- The bytes of a message that stand in one piece with its length, the pieces that follow, and whether
-- the next message begins in the last one of its pieces.
abbrev pub Sent : Type 0
Sent = Bytes × Conn × Bool

abbrev pub message_of : Sent → Bytes
message_of (first, more, joined) = first ++ coming more

unfoldable pub deliver : List Sent → Conn
deliver [] = []
deliver ((first, more, joined) ∷ ms) =
    glue joined ((packed (length (first ++ coming more)) ++ first) ∷ more) (deliver ms)

-- The length fits in four bytes, and no piece is empty.
abbrev pub IsSendable : Sent → Type 0
IsSendable (first, more, joined) = (length (first ++ coming more) < 2 ^ 32) × All IsPiece more

abbrev pub and_sent {ℓ} : {S : Type ℓ} → Bytes → Bytes × S → Bytes × S
and_sent bs (sent, s) = (bs ++ sent, s)

module _ {S : Type 0} (answer : Bytes → S → Answer × S) where
  -- What the handler is to send for a list of messages, and the state after them.
  unfoldable pub answers : List Bytes → S → Bytes × S
  answers [] s = ([], s)
  answers (message ∷ ms) s =
      let (a, s') = answer message s in
      elim a [
        | not_json ↦ answers ms s'
        | raised ↦ ([], s')
        | replied bs ↦ elim (ltb (length bs) (2 ^ 32)) [
          | true ↦ and_sent (packed (length bs) ++ bs) (answers ms s')
          | false ↦ ([], s')
        ]
      ]

-- The length is read back as it was written.
pub unpack-pack : (n : ℕ) → n < 2 ^ 32 → unpack (packed n) ≡ ok n
unfolding unpack
unpack-pack n h = ap ok (omega arith)

deliver-IsOpen : (ms : List Sent) → IsOpen (deliver ms)
unfolding deliver
deliver-IsOpen [] = tt
deliver-IsOpen ((first, more, joined) ∷ ms) = glue-IsOpen joined _ more (deliver ms) (omega arith)

module _ {S : Type 0} (answer : Bytes → S → Answer × S) where
  one_message-with_answer :
      (n : ℕ) (c : Conn) (s : S) (go : Conn → S → Option (Bytes × S)) (message : Bytes)
      (rest : Conn)
      → fill_server n n (recv n c).0 (recv n c).1 ≡ some (message, rest)
      → one_message answer n c s go ≡ with_answer (answer message s) rest go
  unfolding one_message
  one_message-with_answer n c s go message rest e = cc

  handle-length :
      (rounds n : ℕ) (c rest : Conn) (s : S)
      → n < 2 ^ 32
      → recv 4 c ≡ (packed n, rest)
      → handle answer (suc rounds) c s ≡ one_message answer n rest s (handle answer rounds)
  unfolding handle
  handle-length rounds n c rest s small e =
      ap
        (λ x. elim x.0 [
          | [] ↦ some ([], s)
          | b ∷ bs ↦ elim (unpack (b ∷ bs)) [
            | err z ↦ some ([], s)
            | ok k ↦ one_message answer k x.1 s (handle answer rounds)
          ]
        ])
        e
      ∙ ap
          (λ r. elim r [
            | err z ↦ some ([], s)
            | ok k ↦ one_message answer k rest s (handle answer rounds)
          ])
          (unpack-pack n small)

  handle-message :
      (rounds : ℕ) (first : Bytes) (more : Conn) (joined : Bool) (ms : List Sent) (s : S)
      → IsSendable (first, more, joined)
      → handle answer (suc rounds) (deliver ((first, more, joined) ∷ ms)) s
        ≡ with_answer (answer (first ++ coming more) s) (deliver ms) (handle answer rounds)
  unfolding deliver
  handle-message rounds first more joined ms s h =
      let n : ℕ = length (first ++ coming more) in
      let o = deliver-IsOpen ms in
      handle-length rounds n _ _ s h.0 (recv_length n first more joined (deliver ms) o)
      ∙ one_message-with_answer n (glue joined (keep first more) (deliver ms)) s
          (handle answer rounds) (first ++ coming more) (deliver ms)
          (read_sent first more joined (deliver ms) n h.1 o refl)

  with_answer-answers :
      (message : Bytes) (ms : List Bytes) (rest : Conn) (s : S) (go : Conn → S → Option (Bytes × S))
      → ((s' : S) → go rest s' ≡ some (answers answer ms s'))
      → with_answer (answer message s) rest go ≡ some (answers answer (message ∷ ms) s)
  unfolding answers pack
  with_answer-answers message ms rest s go e = by_answer (answer message s)
    where
      by_answer :
          (r : Answer × S)
          → with_answer r rest go
            ≡ some (elim r.0 [
              | not_json ↦ answers answer ms r.1
              | raised ↦ ([], r.1)
              | replied bs ↦ elim (ltb (length bs) (2 ^ 32)) [
                | true ↦ and_sent (packed (length bs) ++ bs) (answers answer ms r.1)
                | false ↦ ([], r.1)
              ]
            ])
      by_answer (not_json, s') = e s'
      by_answer (raised, s') = refl
      by_answer (replied bs, s') = ground (arith, e s')

  -- Whatever the pieces are in which the messages arrive, with pieces that hold the end of a message
  -- and the beginning of the next one among them, the handler sends what it is to answer to the
  -- messages, and leaves the state that is behind them: in any number of rounds above their number, if
  -- their lengths fit in four bytes, no piece of a message is empty, and the four bytes of each length
  -- come in one piece.
  pub handle-deliver :
      (rounds : ℕ) (ms : List Sent) (s : S)
      → All IsSendable ms
      → length ms < rounds
      → handle answer rounds (deliver ms) s ≡ some (answers answer (map message_of ms) s)
  handle-deliver zero ms s h r = absurd (omega arith)
  handle-deliver (suc rounds) [] s h r =
      unfold handle in unfold deliver in unfold answers in unfold recv in refl
  handle-deliver (suc rounds) ((first, more, joined) ∷ ms) s h r =
      handle-message rounds first more joined ms s h.0
      ∙ with_answer-answers (first ++ coming more) (map message_of ms) (deliver ms) s
          (handle answer rounds) (λ s'. handle-deliver rounds ms s' h.1 (omega arith))
