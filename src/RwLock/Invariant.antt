-- ===== src/RwLock/Invariant.antt =====
-- The invariant of RWLock: which inner lock a thread holds at which place, and what the counter counts.
use foris_controller.Prelude.{
  ℕ, ◌<◌, ◌+◌, ◌≡◌, ◌≢◌, refl, Bool, true, false, some, ◌∙◌, arith, ap, sym,
}
use foris_controller.RwLock.{
  Pc, idle, r_entry, r_locked, r_counted, r_left, reading, r_exit, r_uncounted, w_first, w_second,
  w_locked, w_asleep, w_woken, w_passed, writing, w_exit, Shared, Move, Signal, r_count, r_uncount,
  woke, nobody, System, Step, move, signal, init, Reach, start, later,
}
use foris_controller.RwLock.Family.{
  update, update_self, update_ne, update_each, one, how_many, how_many-update, how_many-update_same,
  how_many_pos, how_many-none,
}

-- The counter counts these.
abbrev pub counted : Pc → Bool
counted r_counted = true
counted r_left = true
counted reading = true
counted r_exit = true
counted _ = false

-- These hold `_new_readers`, `_writer_lock` and `_counter_lock`.
abbrev pub has_new : Pc → Bool
has_new r_entry = true
has_new r_locked = true
has_new r_counted = true
has_new r_left = true
has_new w_second = true
has_new w_locked = true
has_new w_asleep = true
has_new w_woken = true
has_new w_passed = true
has_new writing = true
has_new _ = false

abbrev pub has_writer : Pc → Bool
has_writer w_first = true
has_writer w_second = true
has_writer w_locked = true
has_writer w_asleep = true
has_writer w_woken = true
has_writer w_passed = true
has_writer writing = true
has_writer w_exit = true
has_writer _ = false

abbrev pub has_counter : Pc → Bool
has_counter r_locked = true
has_counter r_counted = true
has_counter r_exit = true
has_counter r_uncounted = true
has_counter w_locked = true
has_counter w_passed = true
has_counter _ = false

-- The loop of WriteLock.acquire is over.
abbrev pub is_through : Pc → Bool
is_through w_passed = true
is_through writing = true
is_through _ = false

pub record Local (m : Shared) (i : ℕ) (p : Pc) : Type 0 where
  pub new : has_new p ≡ true → m.new_readers ≡ some i
  pub writer : has_writer p ≡ true → m.writer_lock ≡ some i
  pub at_counter : has_counter p ≡ true → m.counter_lock ≡ some i
  pub new_held : m.new_readers ≡ some i → has_new p ≡ true
  pub writer_held : m.writer_lock ≡ some i → has_writer p ≡ true
  pub counter_held : m.counter_lock ≡ some i → has_counter p ≡ true
  pub through : is_through p ≡ true → m.counter ≡ 0
  pub asleep : p ≡ w_asleep → 0 < m.counter

-- The moving thread.
Move-Local : {i : ℕ} {m m' : Shared} {p p' : Pc} → Move i m p m' p' → Local m i p → Local m' i p'
Move-Local {m} (Move.w_wait ne) h = let busy : 0 < m.counter = omega arith in ground arith
Move-Local (Move.w_pass e) h = ground arith
Move-Local _ h = ground arith

-- Another thread: it holds no inner lock that the moving thread takes or gives back.
Move-other :
    {i k : ℕ} {m m' : Shared} {p p' q : Pc}
    → k ≢ i
    → Move i m p m' p'
    → Local m i p
    → Local m k q
    → Local m' k q
Move-other d (Move.r_enter e) h o = grind arith
Move-other d (Move.r_lock e) h o = grind arith
Move-other d (Move.r_relock e) h o = grind arith
Move-other d (Move.w_enter e) h o = grind arith
Move-other d (Move.w_stop e) h o = grind arith
Move-other d (Move.w_lock e) h o = grind arith
Move-other d (Move.w_wait e) h o = grind arith
Move-other d (Move.w_relock e) h o = grind arith
Move-other d (Move.w_pass e) h o = grind arith
Move-other d _ h o = grind arith

Signal-Local : {i : ℕ} {m m' : Shared} {p p' : Pc} → Signal m p m' p' → Local m i p → Local m' i p'
Signal-Local r_count h = ground arith
Signal-Local r_uncount h = ground arith

-- A thread that is not asleep keeps what it has.
Signal-other :
    {i k : ℕ} {m m' : Shared} {p p' q : Pc}
    → k ≢ i
    → q ≢ w_asleep
    → (counted p ≡ true → 0 < m.counter)
    → Signal m p m' p'
    → Local m i p
    → Local m k q
    → Local m' k q
Signal-other d a c r_count h o = grind arith
Signal-other d a c r_uncount h o = grind arith

Signal-woken :
    {j : ℕ} {m m' : Shared} {p p' : Pc} → Signal m p m' p' → Local m j w_asleep → Local m' j w_woken
Signal-woken r_count h = ground arith
Signal-woken r_uncount h = ground arith

Move-counted :
    {i : ℕ} {m m' : Shared} {p p' : Pc}
    → Move i m p m' p'
    → (m'.counter ≡ m.counter) × (counted p ≡ counted p')
Move-counted (Move.r_enter e) = (refl, refl)
Move-counted _ = (refl, refl)

Signal-counted :
    {m m' : Shared} {p p' : Pc}
    → Signal m p m' p'
    → (counted p ≡ true → 0 < m.counter)
    → (m'.counter + one (counted p) ≡ m.counter + one (counted p')) × (p' ≢ w_asleep)
Signal-counted r_count h = (omega arith, λ e. cc)
Signal-counted r_uncount h = (let pos : 0 < _ = h refl in omega arith, λ e. cc)

pub record Inv (n : ℕ) (s : System) : Type 0 where
  pub counter : s.mem.counter ≡ how_many counted n s.pc
  pub each : (i : ℕ) → Local s.mem i (s.pc i)

Inv-init : (n : ℕ) → Inv n init
Inv-init n = record { counter = sym (how_many-none counted n idle refl); each = λ i. ground arith }

-- After the thread `i` has signalled, before a sleeper is woken.
module _ {n i : ℕ} {m m' : Shared} {pc : ℕ → Pc} {p' : Pc} (h : Inv n (record { mem = m; pc = pc }))
    (lt : i < n) (sg : Signal m (pc i) m' p') where
  counted_pos : counted (pc i) ≡ true → 0 < m.counter
  counted_pos e = omega (arith, h.counter, how_many_pos counted n pc i lt e)

  signal-counter : m'.counter ≡ how_many counted n (update pc i p')
  signal-counter =
      omega
        (arith, h.counter, (Signal-counted sg counted_pos).0, how_many-update counted n pc i p' lt)

  -- Only the one that holds `_new_readers` can be asleep.
  signal-each : ((k : ℕ) → k ≢ i → pc k ≢ w_asleep) → (k : ℕ) → Local m' k (update pc i p' k)
  signal-each awake =
      update_each (Local m') pc i p' (Signal-Local sg (h.each i))
        (λ k other. Signal-other other (awake k other) counted_pos sg (h.each i) (h.each k))

sleepers_eq :
    {n : ℕ} {s : System} {j k : ℕ} → Inv n s → s.pc j ≡ w_asleep → s.pc k ≡ w_asleep → j ≡ k
sleepers_eq {s} {j} {k} h e f =
    let a : s.mem.new_readers ≡ some j = (h.each j).new (ground arith) in
    let b : s.mem.new_readers ≡ some k = (h.each k).new (ground arith) in ground arith

module _ {n i j : ℕ} {m m' : Shared} {pc : ℕ → Pc} {p' : Pc}
    (h : Inv n (record { mem = m; pc = pc })) (lt : i < n) (sg : Signal m (pc i) m' p')
    (e : pc j ≡ w_asleep) (ne : j ≢ i) where
  woke-Local : (k : ℕ) → Local m' k (update (update pc i p') j w_woken k)
  woke-Local =
      update_each (Local m') (update pc i p') j w_woken (Signal-woken sg (rw e at (h.each j)))
        (λ k k_ne.
          update_each (λ l q. l ≢ j → Local m' l q) pc i p' (λ _. Signal-Local sg (h.each i))
            (λ l other l_ne.
              Signal-other other (λ f. l_ne (sleepers_eq h f e)) (counted_pos h lt sg) sg (h.each i)
                (h.each l))
            k k_ne)

  woke-counter : m'.counter ≡ how_many counted n (update (update pc i p') j w_woken)
  woke-counter = omega (
    arith,
    signal-counter h lt sg,
    how_many-update_same counted n (update pc i p') j w_woken (rw (update_ne pc i j p' ne, e)),
  )

Step-Inv : {n i : ℕ} {s t : System} → Step n i s t → Inv n s → Inv n t
Step-Inv {i} (move {m} {m'} {pc} p' lt mv) h = record {
  counter = omega (
    arith,
    h.counter,
    (Move-counted mv).0,
    how_many-update_same counted _ pc i p' (Move-counted mv).1,
  );
  each =
      update_each (Local m') pc i p' (Move-Local mv (h.each i))
        (λ k other. Move-other other mv (h.each i) (h.each k));
}
Step-Inv {n} {i} (signal {m} {m'} {pc} {pc'} p' lt sg (woke j e same)) h =
    rw same
      (record { counter = woke-counter h lt sg asleep ne; each = woke-Local h lt sg asleep ne })
  where
    ne : j ≢ i
    ne f =
        (Signal-counted sg (counted_pos h lt sg)).1
          (sym (update_self pc i p') ∙ ap (update pc i p') (sym f) ∙ e)

    asleep : pc j ≡ w_asleep
    asleep = sym (update_ne pc i j p' ne) ∙ e
Step-Inv {i} (signal {pc} p' lt sg (nobody all same)) h = rw same (record {
  counter = signal-counter h lt sg;
  each = signal-each h lt sg (λ k other z. all k (update_ne pc i k p' other ∙ z));
})

pub Reach-Inv : {n : ℕ} {s : System} → Reach n s → Inv n s
Reach-Inv {n} start = Inv-init n
Reach-Inv (later r st) = Step-Inv st (Reach-Inv r)
