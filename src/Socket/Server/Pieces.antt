-- ===== src/Socket/Server/Pieces.antt =====
-- The loop of foris_controller/buses/unix_socket.py that receives a message, on a connection where the
-- next message begins in the last piece of this one or in a new piece.
use mathlib.Core.List.{append_assoc, append-nil}
use foris_controller.Prelude.{
  ℕ, zero, suc, ◌+◌, ◌-◌, ◌≤◌, ◌<◌, ◌≡◌, refl, sym, ap, ◌∙◌, subst, Bool, true, false, some, [],
  ◌∷◌, ◌++◌, ltb, length, length-append, take, drop, All, arith, take_all, drop_all,
}
use foris_controller.Socket.{Bytes, Conn, coming, keep, recv, packed, fill_server}
use foris_controller.Socket.Read.{coming-keep}

-- The pieces of a message before what follows on it, which begins in the last of them or in a new one.
unfoldable pub glue : Bool → Conn → Conn → Conn
glue joined [] c = c
glue joined (piece ∷ p ∷ pieces) c = piece ∷ glue joined (p ∷ pieces) c
glue false (piece ∷ []) c = piece ∷ c
glue true (piece ∷ []) [] = piece ∷ []
glue true (piece ∷ []) (p ∷ c) = (piece ++ p) ∷ c

abbrev pub IsPiece : Bytes → Type 0
IsPiece piece = 0 < length piece

fill_server-full :
    (rounds n : ℕ) (received : Bytes) (c : Conn)
    → ltb (length received) n ≡ false
    → fill_server rounds n received c ≡ some (received, c)
unfolding fill_server
fill_server-full zero n received c t = ground arith
fill_server-full (suc rounds) n received c t = ground arith

fill_server-round :
    (rounds n : ℕ) (received : Bytes) (c : Conn)
    → length received < n
    → fill_server (suc rounds) n received c ≡ (
        let (more, c') = recv (n - length received) c in fill_server rounds n (received ++ more) c')
unfolding fill_server
fill_server-round rounds n received c lt =
    let below : ltb (length received) n ≡ true = ground arith in ground (arith, below)

-- A round that receives the whole of the next piece.
recv_piece :
    (k : ℕ) (piece : Bytes) (c : Conn)
    → IsPiece piece
    → length piece ≤ k
    → recv k (piece ∷ c) ≡ (piece, c)
unfolding recv take drop
recv_piece k [] c p h = absurd (omega arith)
recv_piece zero (b ∷ piece) c p h = absurd (omega arith)
recv_piece (suc k) (b ∷ piece) c p h =
    let taken = take_all k piece (omega arith) in let dropped = drop_all k piece (omega arith) in cc

-- What follows on a message is nothing, or begins with a piece that has bytes.
abbrev pub IsOpen : Conn → Type 0
IsOpen [] = Unit
IsOpen (piece ∷ c) = IsPiece piece

take_front : (piece p : Bytes) → take (length piece) (piece ++ p) ≡ piece
unfolding take
take_front [] p = refl
take_front (b ∷ piece) p = ap (λ bs. b ∷ bs) (take_front piece p)

drop_front : (piece p : Bytes) → drop (length piece) (piece ++ p) ≡ p
unfolding drop
drop_front [] p = refl
drop_front (b ∷ piece) p = drop_front piece p

keep-IsPiece : (p : Bytes) (c : Conn) → IsPiece p → keep p c ≡ p ∷ c
keep-IsPiece [] c h = absurd (omega arith)
keep-IsPiece (b ∷ p) c h = refl

-- A round that receives the rest of the message and leaves what stands behind it in the same piece.
recv_joined :
    (piece p : Bytes) (c : Conn)
    → IsPiece piece
    → IsPiece p
    → recv (length piece) ((piece ++ p) ∷ c) ≡ (piece, p ∷ c)
unfolding recv take drop
recv_joined [] p c h k = absurd (omega arith)
recv_joined (b ∷ piece) p c h k =
    let taken = take_front piece p in
    let dropped = drop_front piece p in let kept = keep-IsPiece p c k in cc

recv_last :
    (joined : Bool) (piece : Bytes) (c : Conn)
    → IsPiece piece
    → IsOpen c
    → recv (length piece) (glue joined (piece ∷ []) c) ≡ (piece, c)
unfolding glue
recv_last false piece c h o = recv_piece (length piece) piece c h (omega arith)
recv_last true piece [] h o = recv_piece (length piece) piece [] h (omega arith)
recv_last true piece (p ∷ c) h o = recv_joined piece p c h o

-- The loop reads as many pieces as the message has.
fill_pieces :
    (rounds n : ℕ) (received : Bytes) (joined : Bool) (pieces c : Conn)
    → All IsPiece pieces
    → IsOpen c
    → length (coming pieces) ≤ rounds
    → n ≡ length received + length (coming pieces)
    → fill_server rounds n received (glue joined pieces c) ≡ some (received ++ coming pieces, c)
unfolding coming glue
fill_pieces rounds n received joined [] c h o r e =
    fill_server-full rounds n received c (ground arith)
    ∙ ap (λ bs. some (bs, c)) (sym (append-nil received))
fill_pieces zero n received joined (piece ∷ pieces) c h o r e =
    absurd (omega (arith, length-append piece (coming pieces), h.0))
fill_pieces (suc rounds) n received joined (piece ∷ []) c h o r e =
    let lengths = length-append piece [] in
    let total = length-append received piece in
    let whole : n - length received ≡ length piece = omega (arith, lengths, e) in
    fill_server-round rounds n received (glue joined (piece ∷ []) c)
      (omega (arith, lengths, e, h.0))
    ∙ ap
        (λ k.
          let r = recv k (glue joined (piece ∷ []) c) in fill_server rounds n (received ++ r.0) r.1)
        whole
    ∙ ap (λ x. fill_server rounds n (received ++ x.0) x.1) (recv_last joined piece c h.0 o)
    ∙ fill_pieces rounds n (received ++ piece) joined [] c tt o (omega arith)
        (omega (arith, lengths, e, total))
    ∙ ap (λ bs. some (bs, c)) (append_assoc received piece [])
fill_pieces (suc rounds) n received joined (piece ∷ p ∷ pieces) c h o r e =
    let rest = coming (p ∷ pieces) in
    let lengths = length-append piece rest in
    let total = length-append received piece in
    let e' : n ≡ length received + (length piece + length rest) = omega (arith, lengths, e) in
    fill_server-round rounds n received (piece ∷ glue joined (p ∷ pieces) c)
      (omega (arith, e', h.0))
    ∙ ap (λ x. fill_server rounds n (received ++ x.0) x.1)
        (recv_piece (n - length received) piece (glue joined (p ∷ pieces) c) h.0
          (omega (arith, e')))
    ∙ fill_pieces rounds n (received ++ piece) joined (p ∷ pieces) c h.1 o
        (omega (arith, lengths, r, h.0)) (omega (arith, e', total))
    ∙ ap (λ bs. some (bs, c)) (append_assoc received piece rest)

-- The first `recv` is a round of the loop.
first_round :
    (n : ℕ) (c : Conn) → fill_server n n (recv n c).0 (recv n c).1 ≡ fill_server (suc n) n [] c
unfolding recv
first_round zero c = fill_server-full 0 0 [] c refl ∙ sym (fill_server-full 1 0 [] c refl)
first_round (suc k) c =
    let none_yet : suc k ≡ suc k - 0 = omega arith in
    ap (λ j. fill_server (suc k) (suc k) (recv j c).0 (recv j c).1) none_yet
    ∙ sym (fill_server-round (suc k) (suc k) [] c (omega arith))

keep-All : (first : Bytes) (more : Conn) → All IsPiece more → All IsPiece (keep first more)
keep-All [] more h = h
keep-All (b ∷ first) more h = (omega arith, h)

keep-append : (first : Bytes) (more c : Conn) → keep first (more ++ c) ≡ keep first more ++ c
keep-append [] more c = refl
keep-append (b ∷ first) more c = refl

-- The length is received, and the message is what comes next.
pub recv_length :
    (n : ℕ) (first : Bytes) (more : Conn) (joined : Bool) (c : Conn)
    → IsOpen c
    → recv 4 (glue joined ((packed n ++ first) ∷ more) c)
      ≡ (packed n, glue joined (keep first more) c)
unfolding recv take drop glue
recv_length n [] (p ∷ more) joined c o = refl
recv_length n (b ∷ first) (p ∷ more) joined c o = refl
recv_length n [] [] false c o = refl
recv_length n (b ∷ first) [] false c o = refl
recv_length n [] [] true [] o = refl
recv_length n (b ∷ first) [] true [] o = refl
recv_length n [] [] true (p ∷ c) o = ap (λ x. (packed n, x)) (keep-IsPiece p c o)
recv_length n (b ∷ first) [] true (p ∷ c) o = refl

pub glue-IsOpen :
    (joined : Bool) (piece : Bytes) (more c : Conn)
    → IsPiece piece
    → IsOpen (glue joined (piece ∷ more) c)
unfolding glue
glue-IsOpen joined piece (p ∷ more) c h = h
glue-IsOpen false piece [] c h = h
glue-IsOpen true piece [] [] h = h
glue-IsOpen true piece [] (p ∷ c) h = omega (arith, length-append piece p, h)

pub read_sent :
    (first : Bytes) (more : Conn) (joined : Bool) (c : Conn) (n : ℕ)
    → All IsPiece more
    → IsOpen c
    → n ≡ length (first ++ coming more)
    → let from = glue joined (keep first more) c in
      fill_server n n (recv n from).0 (recv n from).1 ≡ some (first ++ coming more, c)
read_sent first more joined c n h o e =
    let all = coming-keep first more in
    first_round n (glue joined (keep first more) c)
    ∙ fill_pieces (suc n) n [] joined (keep first more) c (keep-All first more h) o
        (subst (λ bs. length bs ≤ suc n) (sym all) (omega (arith, e)))
        (omega (arith, e, ap length all))
    ∙ ap (λ bs. some (bs, c)) all
