-- ===== src/RwLock/Progress.antt =====
-- Which threads of RWLock (foris_controller/utils.py) can take a step.
use foris_controller.Prelude.{
  ℕ, ◌≤◌, ◌≡◌, ◌≢◌, refl, true, false, none, arith, inl, inr, Option-cases, Bool, subst, ◌∙◌, sym,
}
use native.Mathlib.Decide.{dec_lt, ℕ_discrete}
use foris_controller.RwLock.{
  Pc, idle, r_entry, r_locked, r_counted, r_left, reading, r_exit, r_uncounted, w_first, w_second,
  w_locked, w_asleep, w_woken, w_passed, writing, w_exit, Shared, Move, Signal, r_count, r_uncount,
  Notified, woke, nobody, System, Step, move, signal, Reach, start, later,
}
use foris_controller.RwLock.Family.{update, how_many, how_many_pos, found, update_ne}
use foris_controller.RwLock.Safety.{no_lost_wakeup}
use foris_controller.RwLock.Invariant.{counted, has_new, has_counter, Reach-Inv}

-- The threads past the n-th never move.
outside : {n : ℕ} {s : System} → Reach n s → (k : ℕ) → n ≤ k → s.pc k ≡ idle
outside start k h = refl
outside (later {i} r (move {pc} p' lt mv)) k h = update_ne pc i k p' (omega arith) ∙ outside r k h
outside (later {i} r (signal {pc} p' lt sg (nobody all same))) k h =
    rw same (update_ne pc i k p' (omega arith) ∙ outside r k h)
outside (later {i} r (signal {pc} p' lt sg (woke j e same))) k h =
    let still : update pc i p' k ≡ idle = update_ne pc i k p' (omega arith) ∙ outside r k h in
    rw same (update_ne (update pc i p') j k w_woken (λ f. ground arith) ∙ still)

abbrev is_asleep : Pc → Bool
is_asleep w_asleep = true
is_asleep _ = false

asleep_of : (p : Pc) → is_asleep p ≡ true → p ≡ w_asleep
asleep_of w_asleep h = refl
asleep_of idle h = cc
asleep_of _ h = cc

-- `notify` always has an outcome.
notify : (n : ℕ) (pc : ℕ → Pc) → ((k : ℕ) → n ≤ k → pc k ≡ idle) → (pc' : ℕ → Pc) × Notified pc pc'
notify n pc out = elim (dec_lt 0 (how_many is_asleep n pc)) [
  | yes some_sleep ↦
      let (j, inside, e) = found is_asleep n pc some_sleep in
      (update pc j w_woken, woke j (asleep_of (pc j) e) refl)
  | no none_sleep ↦ (
    pc,
    nobody
        (λ j e. elim (dec_lt j n) [
          | yes inside ↦ none_sleep (how_many_pos is_asleep n pc j inside (ground arith))
          | no past ↦ let f : pc j ≡ idle = out j (omega arith) in cc
        ])
        refl,
  )
]

-- A thread that is not idle can take a step.
abbrev pub Progress : ℕ → System → Type 0
Progress n s = (k : ℕ) × (t : System) × (s.pc k ≢ idle) × Step n k s t

module _ {n : ℕ} {s : System} (r : Reach n s) where
  open (Reach-Inv r) use {counter, each}

  go :
      (k : ℕ) {p p' : Pc} {m' : Shared}
      → s.pc k ≡ p
      → p ≢ idle
      → Move k s.mem p m' p'
      → Progress n s
  go k {p} {p'} {m'} e busy mv = elim (dec_lt k n) [
    | yes inside ↦ (
      k,
      record { mem = m'; pc = update s.pc k p' },
      λ f. busy (sym e ∙ f),
      move p' inside (subst (λ q. Move k s.mem q m' p') (sym e) mv),
    )
    | no past ↦ absurd (busy (sym e ∙ outside r k (omega arith)))
  ]

  go-Signal :
      (k : ℕ) {p p' : Pc} {m' : Shared}
      → s.pc k ≡ p
      → p ≢ idle
      → Signal s.mem p m' p'
      → Progress n s
  go-Signal k {p} {p'} {m'} e busy sg = elim (dec_lt k n) [
    | yes inside ↦
        let (pc', told) =
          notify n (update s.pc k p')
            (λ l past. update_ne s.pc k l p' (omega arith) ∙ outside r l past) in
        (
          k,
          record { mem = m'; pc = pc' },
          λ f. busy (sym e ∙ f),
          signal p' inside (subst (λ q. Signal s.mem q m' p') (sym e) sg) told,
        )
    | no past ↦ absurd (busy (sym e ∙ outside r k (omega arith)))
  ]

  -- The holder of the counter's lock can move.
  counter_holder : (k : ℕ) (p : Pc) → s.pc k ≡ p → has_counter p ≡ true → Progress n s
  counter_holder k r_locked e h = go-Signal k e (λ f. cc) r_count
  counter_holder k r_counted e h = go k e (λ f. cc) Move.r_unlock
  counter_holder k r_exit e h = go-Signal k e (λ f. cc) r_uncount
  counter_holder k r_uncounted e h = go k e (λ f. cc) Move.r_reunlock
  counter_holder k w_locked e h = elim (ℕ_discrete s.mem.counter 0) [
    | yes zero_left ↦ go k e (λ f. cc) (Move.w_pass zero_left)
    | no more ↦ go k e (λ f. cc) (Move.w_wait more)
  ]
  counter_holder k w_passed e h = go k e (λ f. cc) Move.w_unlock
  counter_holder k _ e h = cc

  -- A thread that wants the counter's lock gets it, or its holder can move.
  want_counter :
      (k : ℕ) {p p' : Pc} {m' : Shared}
      → s.pc k ≡ p
      → p ≢ idle
      → (s.mem.counter_lock ≡ none → Move k s.mem p m' p')
      → Progress n s
  want_counter k e busy mv = elim (Option-cases s.mem.counter_lock) [
    | inl free ↦ go k e busy (mv free)
    | inr (j, held) ↦ counter_holder j (s.pc j) refl ((each j).counter_held held)
  ]

  -- A counted thread can move.
  counted_moves : (k : ℕ) (p : Pc) → s.pc k ≡ p → counted p ≡ true → Progress n s
  counted_moves k r_left e h = go k e (λ f. cc) Move.r_leave
  counted_moves k reading e h = want_counter k e (λ f. cc) Move.r_relock
  counted_moves k r_counted e h = counter_holder k r_counted e refl
  counted_moves k r_exit e h = counter_holder k r_exit e refl
  counted_moves k _ e h = cc

  -- The holder of `_new_readers` can move, or waits for a thread that can.
  new_holder : (k : ℕ) (p : Pc) → s.pc k ≡ p → has_new p ≡ true → Progress n s
  new_holder k r_entry e h = want_counter k e (λ f. cc) Move.r_lock
  new_holder k r_left e h = counted_moves k r_left e refl
  new_holder k w_second e h = want_counter k e (λ f. cc) Move.w_lock
  new_holder k w_woken e h = want_counter k e (λ f. cc) Move.w_relock
  new_holder k w_asleep e h =
      let (j, inside, c) = no_lost_wakeup r k e in counted_moves j (s.pc j) refl c
  new_holder k writing e h = go k e (λ f. cc) Move.w_reopen
  new_holder k r_locked e h = counter_holder k r_locked e refl
  new_holder k r_counted e h = counter_holder k r_counted e refl
  new_holder k w_locked e h = counter_holder k w_locked e refl
  new_holder k w_passed e h = counter_holder k w_passed e refl
  new_holder k _ e h = cc

  busy_moves : (k : ℕ) (p : Pc) → s.pc k ≡ p → p ≢ idle → Progress n s
  busy_moves k idle e busy = absurd (busy refl)
  busy_moves k w_first e busy = elim (Option-cases s.mem.new_readers) [
    | inl free ↦ go k e (λ f. cc) (Move.w_stop free)
    | inr (j, held) ↦ new_holder j (s.pc j) refl ((each j).new_held held)
  ]
  busy_moves k w_exit e busy = go k e (λ f. cc) Move.w_leave
  busy_moves k reading e busy = counted_moves k reading e refl
  busy_moves k r_exit e busy = counted_moves k r_exit e refl
  busy_moves k r_uncounted e busy = counter_holder k r_uncounted e refl
  busy_moves k r_entry e busy = new_holder k r_entry e refl
  busy_moves k r_locked e busy = new_holder k r_locked e refl
  busy_moves k r_counted e busy = new_holder k r_counted e refl
  busy_moves k r_left e busy = new_holder k r_left e refl
  busy_moves k w_second e busy = new_holder k w_second e refl
  busy_moves k w_locked e busy = new_holder k w_locked e refl
  busy_moves k w_asleep e busy = new_holder k w_asleep e refl
  busy_moves k w_woken e busy = new_holder k w_woken e refl
  busy_moves k w_passed e busy = new_holder k w_passed e refl
  busy_moves k writing e busy = new_holder k writing e refl

-- No deadlock: in every reachable state where some thread is not idle, a thread that is not idle
-- can take a step.
pub no_deadlock : {n : ℕ} {s : System} → Reach n s → (i : ℕ) → s.pc i ≢ idle → Progress n s
no_deadlock {s} r i busy = busy_moves r i (s.pc i) refl busy
