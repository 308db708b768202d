-- ===== src/RwLock/Tests.antt =====
-- Two threads under RWLock: a writer alone, and a writer that waits for a reader.
use native.Mathlib.Decide.{ℕ_discrete}
use foris_controller.Prelude.{ℕ, ◌<◌, ◌≡◌, ◌≢◌, refl, true, arith}
use foris_controller.RwLock.{
  Pc, idle, reading, w_asleep, writing, Shared, Move, Signal, r_count, nobody, System, move, signal,
  init, Reach, start, later,
}
use foris_controller.RwLock.Family.{update}
use foris_controller.RwLock.Invariant.{counted}
use foris_controller.RwLock.Safety.{mutual_exclusion, no_lost_wakeup}
use foris_controller.RwLock.Progress.{Progress, no_deadlock}

record Run : Type 0 where
  last : System
  open last use *
  reach : Reach 2 last

-- Thread `i` makes a move, or counts itself while nobody sleeps.
step : (r : Run) (i : ℕ) {m' : Shared} {p' : Pc} → i < 2 → Move i r.mem (r.pc i) m' p' → Run
step r i {m'} {p'} lt mv = record {
  last = record { mem = m'; pc = update r.pc i p' };
  reach = later r.reach (move p' lt mv);
}

count_up :
    (r : Run) (i : ℕ) {m' : Shared} {p' : Pc}
    → i < 2
    → Signal r.mem (r.pc i) m' p'
    → ((j : ℕ) → update r.pc i p' j ≢ w_asleep)
    → Run
count_up r i {m'} {p'} lt sg none_asleep = record {
  last = record { mem = m'; pc = update r.pc i p' };
  reach = later r.reach (signal p' lt sg (nobody none_asleep refl));
}

at_start : Run
at_start = record { last = init; reach = start }

write_run : Run
unfolding ℕ_discrete step at_start
write_run =
    let a = step at_start 0 (omega arith) (Move.w_enter refl) in
    let b = step a 0 (omega arith) (Move.w_stop refl) in
    let c = step b 0 (omega arith) (Move.w_lock refl) in
    let d = step c 0 (omega arith) (Move.w_pass refl) in step d 0 (omega arith) Move.w_unlock

read_run : Run
unfolding ℕ_discrete step at_start count_up
read_run =
    let a = step at_start 1 (omega arith) (Move.r_enter refl) in
    let b = step a 1 (omega arith) (Move.r_lock refl) in
    let c = count_up b 1 (omega arith) r_count (λ j. ground arith) in
    let d = step c 1 (omega arith) Move.r_unlock in step d 1 (omega arith) Move.r_leave

-- Thread 0 waits for the reader, thread 1.
wait_run : Run
unfolding read_run
wait_run =
    let a = step read_run 0 (omega arith) (Move.w_enter refl) in
    let b = step a 0 (omega arith) (Move.w_stop refl) in
    let c = step b 0 (omega arith) (Move.w_lock refl) in
    step c 0 (omega arith) (Move.w_wait (omega arith))

wait_pcs : (wait_run.pc 0 ≡ w_asleep) × (wait_run.pc 1 ≡ reading)
unfolding wait_run
wait_pcs = (refl, refl)

write_pcs : (write_run.pc 0 ≡ writing) × (write_run.pc 1 ≡ idle)
unfolding write_run
write_pcs = (refl, refl)

mutual_exclusion_example : (write_run.pc 1 ≢ reading) × (write_run.pc 1 ≢ writing)
mutual_exclusion_example =
    mutual_exclusion write_run.reach 0 write_pcs.0 1 (omega arith) (λ e. omega arith)

no_lost_wakeup_example : (j : ℕ) × (j < 2) × (counted (wait_run.pc j) ≡ true)
no_lost_wakeup_example = no_lost_wakeup wait_run.reach 0 wait_pcs.0

asleep_is_busy : wait_run.pc 0 ≢ idle
asleep_is_busy e = ground (arith, wait_pcs.0)

no_deadlock_example : Progress 2 wait_run.last
no_deadlock_example = no_deadlock wait_run.reach 0 asleep_is_busy
