-- ===== src/Socket/Read.antt =====
-- The loops that read the bytes of one message.
use mathlib.Core.List.{append_assoc, append-nil}
use foris_controller.Prelude.{
  ℕ, zero, suc, ◌+◌, ◌-◌, ◌≤◌, ◌<◌, ◌≡◌, ◌≢◌, refl, sym, ap, ◌∙◌, subst, true, false, Option, none,
  some, [], ◌∷◌, ◌++◌, ltb, length, length-append, take, drop, take-append, drop-append, ◌⊎◌, arith,
  Bool-cases, inl, inr,
}
use foris_controller.Exceptions.{value_error, Result, ok, err}
use foris_controller.Socket.{Bytes, Conn, coming, keep, recv, fill_server, fill_client}

take-drop : (n : ℕ) (xs : Bytes) → take n xs ++ drop n xs ≡ xs
unfolding take drop
take-drop zero xs = refl
take-drop (suc n) [] = refl
take-drop (suc n) (x ∷ xs) = ap (λ ys. x ∷ ys) (take-drop n xs)

length-take-le : (n : ℕ) (xs : Bytes) → length (take n xs) ≤ n
unfolding take
length-take-le zero xs = omega arith
length-take-le (suc n) [] = omega arith
length-take-le (suc n) (x ∷ xs) = omega (arith, length-take-le n xs)

pub coming-keep : (piece : Bytes) (c : Conn) → coming (keep piece c) ≡ piece ++ coming c
unfolding coming
coming-keep [] c = refl
coming-keep (b ∷ piece) c = refl

-- recv gives the first bytes that are still to come, at most n of them, and none only for n = 0 or
-- when nothing comes any more.
pub record Received (n : ℕ) (c : Conn) (more : Bytes) (c' : Conn) : Type 0 where
  pub splits : coming c ≡ more ++ coming c'
  pub at_most : length more ≤ n
  pub progress : length more ≡ 0 → 0 < n → coming c ≡ []

pub recv-Received : (n : ℕ) (c : Conn) → Received n c (recv n c).0 (recv n c).1
unfolding recv coming
recv-Received zero c = record {
  splits = refl;
  at_most = omega arith;
  progress = λ e p. absurd (omega arith);
}
recv-Received (suc n) [] = record { splits = refl; at_most = omega arith; progress = λ e p. refl }
recv-Received (suc n) ([] ∷ c) =
    let r = recv-Received (suc n) c in
    record { splits = r.splits; at_most = r.at_most; progress = r.progress }
recv-Received (suc n) ((b ∷ piece) ∷ c) = record {
  splits =
      ap (λ bs. bs ++ coming c) (sym (take-drop (suc n) (b ∷ piece)))
      ∙ append_assoc (take (suc n) (b ∷ piece)) (drop (suc n) (b ∷ piece)) (coming c)
      ∙ ap (λ bs. take (suc n) (b ∷ piece) ++ bs) (sym (coming-keep (drop (suc n) (b ∷ piece)) c));
  at_most = length-take-le (suc n) (b ∷ piece);
  progress = λ e p. absurd (unfold take in omega (arith, e));
}

-- The n bytes that are read, and what is left.
abbrev pub Exact : ℕ → Bytes → Bytes → Conn → Type 0
Exact n bytes message c = (message ≡ take n bytes) × (coming c ≡ drop n bytes)

full :
    (n : ℕ) (received : Bytes) (c : Conn)
    → length received ≤ n
    → ltb (length received) n ≡ false
    → Exact n (received ++ coming c) received c
full n received c le t =
    let same : length received ≡ n = ground arith in
    (
      subst (λ k. received ≡ take k (received ++ coming c)) same
          (sym (take-append received (coming c))),
      subst (λ k. coming c ≡ drop k (received ++ coming c)) same
          (sym (drop-append received (coming c))),
    )

-- What a round does not change: the bytes that were received and those that are to come.
module _ (n : ℕ) (received : Bytes) (c : Conn) where
  abbrev more : Bytes
  more = (recv (n - length received) c).0

  abbrev rest : Conn
  rest = (recv (n - length received) c).1

  same_bytes : (received ++ more) ++ coming rest ≡ received ++ coming c
  same_bytes =
      append_assoc received more (coming rest)
      ∙ ap (λ bs. received ++ bs) (sym (recv-Received (n - length received) c).splits)

  still_below : length received < n → length (received ++ more) ≤ n
  still_below lt =
      omega (arith, length-append received more, (recv-Received (n - length received) c).at_most)

  nothing_more : length received < n → length more ≡ 0 → length (received ++ coming c) < n
  nothing_more lt e =
      let ended = (recv-Received (n - length received) c).progress e (omega arith) in
      subst (λ bs. length (received ++ bs) < n) (sym ended)
        (subst (λ bs. length bs < n) (sym (append-nil received)) lt)

abbrev pub incomplete : Result (Bytes × Conn)
incomplete = err (value_error "Failed to fully obtained the input message.")

-- How a round of the client's loop goes on.
fill_client-round :
    (rounds n : ℕ) (received : Bytes) (c : Conn)
    → length received < n
    → (length (more n received c) ≡ 0) × (fill_client (suc rounds) n received c ≡ some incomplete)
      ⊎ (length (more n received c) ≢ 0)
        × (fill_client (suc rounds) n received c
            ≡ fill_client rounds n (received ++ more n received c) (rest n received c))
unfolding fill_client
fill_client-round rounds n received c lt = by_length (length (more n received c)) refl
  where
    below : ltb (length received) n ≡ true
    below = ground arith

    by_length :
        (k : ℕ)
        → length (more n received c) ≡ k
        → (length (more n received c) ≡ 0)
            × (fill_client (suc rounds) n received c ≡ some incomplete)
          ⊎ (length (more n received c) ≢ 0)
            × (fill_client (suc rounds) n received c
                ≡ fill_client rounds n (received ++ more n received c) (rest n received c))
    by_length zero e = inl (e, ground (arith, below, e))
    by_length (suc k) e = inr (λ z. omega (arith, e, z), ground (arith, below, e))

fill_client-full :
    (rounds n : ℕ) (received : Bytes) (c : Conn)
    → ltb (length received) n ≡ false
    → fill_client rounds n received c ≡ some (ok (received, c))
unfolding fill_client
fill_client-full zero n received c t = ground arith
fill_client-full (suc rounds) n received c t = ground arith

-- The loop reads the first n bytes, or raises since there are fewer.
abbrev pub ReadsOrRaises : ℕ → Bytes → Option (Result (Bytes × Conn)) → Type 0
ReadsOrRaises n bytes r =
    (n ≤ length bytes)
      × ((message : Bytes) × (c' : Conn) × Exact n bytes message c' × (r ≡ some (ok (message, c'))))
    ⊎ (length bytes < n) × (r ≡ some incomplete)

length-ge : (xs ys : Bytes) (n : ℕ) → n ≤ length xs → n ≤ length (xs ++ ys)
length-ge xs ys n h = omega (arith, length-append xs ys)

-- With as many rounds as bytes are missing, the loop of the client socket ends.
pub fill_client-ReadsOrRaises :
    (rounds n : ℕ) (received : Bytes) (c : Conn)
    → length received ≤ n
    → n ≤ length received + rounds
    → ReadsOrRaises n (received ++ coming c) (fill_client rounds n received c)
fill_client-ReadsOrRaises zero n received c le enough =
    let t : ltb (length received) n ≡ false = ground arith in
    inl (
      length-ge received (coming c) n (ground arith),
      (received, c, full n received c le t, fill_client-full zero n received c t),
    )
fill_client-ReadsOrRaises (suc rounds) n received c le enough =
    elim (Bool-cases (ltb (length received) n)) [
      | inr t ↦ inl (
        length-ge received (coming c) n (ground arith),
        (received, c, full n received c le t, fill_client-full (suc rounds) n received c t),
      )
      | inl t ↦
          let lt : length received < n = ground arith in
          elim (fill_client-round rounds n received c lt) [
            | inl (ended, e) ↦ inr (nothing_more n received c lt ended, e)
            | inr (some_more, e) ↦ subst (ReadsOrRaises n (received ++ coming c)) (sym e) (
                subst
                  (λ bs.
                    ReadsOrRaises n bs
                      (fill_client rounds n (received ++ more n received c) (rest n received c)))
                  (same_bytes n received c)
                  (fill_client-ReadsOrRaises rounds n (received ++ more n received c)
                    (rest n received c) (still_below n received c lt)
                    (omega (arith, length-append received (more n received c)))))
          ]
    ]

-- When fewer bytes come than were announced, since the peer has closed, the loop of the bus goes on
-- for ever: no number of rounds is enough.
pub fill_server_stuck :
    (rounds n : ℕ) (received : Bytes) (c : Conn)
    → length received ≤ n
    → length (received ++ coming c) < n
    → fill_server rounds n received c ≡ none
unfolding fill_server
fill_server_stuck zero n received c le few = ground (arith, length-append received (coming c))
fill_server_stuck (suc rounds) n received c le few =
    let lt : length received < n = omega (arith, few, length-append received (coming c)) in
    let below : ltb (length received) n ≡ true = ground arith in
    let later =
      fill_server_stuck rounds n (received ++ more n received c) (rest n received c)
        (still_below n received c lt)
        (subst (λ bs. length bs < n) (sym (same_bytes n received c)) few) in
    ground (arith, below, later)
