-- ===== src/RwLock/Safety.antt =====
-- What the users of RWLock (foris_controller/utils.py) rely on.
use foris_controller.Prelude.{ℕ, ◌<◌, ◌≡◌, ◌≢◌, true, arith}
use foris_controller.RwLock.{reading, w_asleep, writing, System, Reach}
use foris_controller.RwLock.Family.{how_many_pos, found}
use foris_controller.RwLock.Invariant.{counted, Reach-Inv}

-- While a thread writes, none of the n threads but itself reads or writes.
pub mutual_exclusion :
    {n : ℕ} {s : System}
    → Reach n s
    → (i : ℕ) → s.pc i ≡ writing
    → (j : ℕ) → j < n
    → j ≢ i
    → (s.pc j ≢ reading) × (s.pc j ≢ writing)
mutual_exclusion {n} {s} r i w j lt other = (no_reader, one_writer)
  where
    open (Reach-Inv r) use {counter, each}

    none_counted : s.mem.counter ≡ 0
    none_counted = (each i).through (ground arith)

    no_reader : s.pc j ≢ reading
    no_reader e =
        omega (arith, counter, none_counted, how_many_pos counted n s.pc j lt (ground arith))

    one_writer : s.pc j ≢ writing
    one_writer e = ground (arith, (each i).new, (each j).new)

-- No wakeup is lost: while a writer sleeps on the condition, some thread is still counted.
pub no_lost_wakeup :
    {n : ℕ} {s : System}
    → Reach n s
    → (i : ℕ) → s.pc i ≡ w_asleep
    → (j : ℕ) × (j < n) × (counted (s.pc j) ≡ true)
no_lost_wakeup {n} {s} r i e = found counted n s.pc (omega (arith, counter, (each i).asleep e))
  where
    open (Reach-Inv r) use {counter, each}
