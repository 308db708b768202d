-- ===== src/Socket/Client/Ends.antt =====
-- The turns of the loop of the client socket.
use foris_controller.Prelude.{
  ℕ, zero, suc, ◌<◌, ◌≡◌, refl, sym, ap, subst, Option, none, some, [], ◌∷◌, ◌++◌, length,
  length-append, length-drop, inl, inr, arith,
}
use foris_controller.Exceptions.{Result, ok, err}
use foris_controller.Json.{Value}
use foris_controller.Socket.{Bytes, Conn, coming, recv, unpack}
use foris_controller.Socket.Read.{Exact, recv-Received, fill_client-ReadsOrRaises}
use foris_controller.Socket.Client.{
  Peers, Turn, broken, next, check_msg, respond, with_sent, with_check, with_parsed, with_message,
  read_message, with_length, with_header, turn, handle_client,
}

-- A turn that breaks the loop, or leaves fewer than `k` bytes to come.
Ending : {S : Type 0} → ℕ → Option (Turn S) → Type 0
Ending k none = ⊥
Ending k (some (broken s)) = Unit
Ending k (some (next bs rest s)) = length (coming rest) < k

-- What is left after a read.
fewer :
    (n : ℕ) (c : Conn) (message : Bytes) (rest : Conn)
    → Exact n ((recv n c).0 ++ coming (recv n c).1) message rest
    → (k : ℕ) → length (coming c) < k
    → length (coming rest) < k
fewer n c message rest exact k h =
    let left = ap length exact.1 in
    let same = ap length (recv-Received n c).splits in
    omega (arith, left, same, length-drop n ((recv n c).0 ++ coming (recv n c).1))

some_read :
    (c : Conn) (b : ℕ) (bs : Bytes)
    → (recv 4 c).0 ≡ b ∷ bs
    → length (coming (recv 4 c).1) < length (coming c)
some_read c b bs e =
    let same = ap length (recv-Received 4 c).splits in
    let header : length (recv 4 c).0 ≡ suc (length bs) = ap length e in
    omega (arith, same, header, length-append (recv 4 c).0 (coming (recv 4 c).1))

module _ {S : Type 0} (peers : Peers S) where
  with_sent-Ending :
      (r : Result Bytes × S) (rest : Conn) (k : ℕ)
      → length (coming rest) < k
      → Ending k (some (with_sent peers r rest))
  unfolding Ending
  with_sent-Ending (ok bs, s) rest k h = h
  with_sent-Ending (err e, s) rest k h = tt

  with_check-Ending :
      (r : Result Bytes) (parsed : Value) (rest : Conn) (s : S) (k : ℕ)
      → length (coming rest) < k
      → Ending k (some (with_check peers r parsed rest s))
  unfolding Ending
  with_check-Ending (ok bs) parsed rest s k h = with_sent-Ending (respond peers parsed s) rest k h
  with_check-Ending (err e) parsed rest s k h = tt

  with_parsed-Ending :
      (o : Option Value) (rest : Conn) (s : S) (k : ℕ)
      → length (coming rest) < k
      → Ending k (some (with_parsed peers o rest s))
  unfolding Ending
  with_parsed-Ending none rest s k h = tt
  with_parsed-Ending (some parsed) rest s k h =
      with_check-Ending (check_msg peers parsed) parsed rest s k h

  read_message-Ending :
      (n : ℕ) (c : Conn) (s : S) (k : ℕ)
      → length (coming c) < k
      → Ending k (read_message peers n c s)
  unfolding read_message Ending
  read_message-Ending n c s k h =
      let first = recv-Received n c in
      elim (fill_client-ReadsOrRaises n n (recv n c).0 (recv n c).1 first.at_most (omega arith)) [
        | inl (long, (message, rest, exact, e)) ↦
            subst (λ r. Ending k (with_message peers r s)) (sym e)
              (with_parsed-Ending (peers.loads message) rest s k (fewer n c message rest exact k h))
        | inr (short, e) ↦ subst (λ r. Ending k (with_message peers r s)) (sym e) tt
      ]

  with_length-Ending :
      (r : Result ℕ) (c : Conn) (s : S) (k : ℕ)
      → length (coming c) < k
      → Ending k (with_length peers r c s)
  unfolding Ending
  with_length-Ending (err e) c s k h = tt
  with_length-Ending (ok n) c s k h = read_message-Ending n c s k h

  turn-Ending : (c : Conn) (s : S) → Ending (length (coming c)) (turn peers c s)
  unfolding turn Ending
  turn-Ending c s = by_header (recv 4 c).0 refl
    where
      by_header :
          (h : Bytes)
          → (recv 4 c).0 ≡ h
          → Ending (length (coming c)) (with_header peers h (recv 4 c).1 s)
      by_header [] e = tt
      by_header (b ∷ bs) e =
          with_length-Ending (unpack (b ∷ bs)) (recv 4 c).1 s (length (coming c))
            (some_read c b bs e)

  abbrev Ends : ℕ → Conn → S → Type 0
  Ends turns c s = (out : Bytes × S) × (handle_client peers turns c s ≡ some out)

  handle_client-turn :
      (turns : ℕ) (c : Conn) (s : S) (t : Option (Turn S))
      → turn peers c s ≡ t
      → ((rest : Conn) (s' : S) → length (coming rest) < length (coming c) → Ends turns rest s')
      → Ends (suc turns) c s
  unfolding handle_client Ending
  handle_client-turn turns c s none e later =
      absurd (subst (Ending (length (coming c))) e (turn-Ending c s))
  handle_client-turn turns c s (some (broken s')) e later = (([], s'), cc)
  handle_client-turn turns c s (some (next bs rest s')) e later =
      let less = subst (Ending (length (coming c))) e (turn-Ending c s) in
      let (out, ended) = later rest s' less in ((bs ++ out.0, out.1), cc)

  -- The client's handler ends, if it is given more turns than there are bytes to come.
  pub handle_client-ends :
      (turns : ℕ) (c : Conn) (s : S)
      → length (coming c) < turns
      → (out : Bytes × S) × (handle_client peers turns c s ≡ some out)
  handle_client-ends zero c s h = absurd (omega arith)
  handle_client-ends (suc turns) c s h =
      handle_client-turn turns c s (turn peers c s) refl
        (λ rest s' less. handle_client-ends turns rest s' (omega (arith, h, less)))
