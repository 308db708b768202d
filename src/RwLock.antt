-- ===== src/RwLock.antt =====
-- The class RWLock of foris_controller/utils.py: n threads of one process, which share its counter, that
-- take its read lock and its write lock in turn, as interleavings of the operations on the three inner locks.
-- An inner lock is held by one thread at a time and is released by its holder. `notify` of the
-- condition wakes one of the threads that wait, if there is one. A counter update and the
-- `notify` after it are one step: both stand under the counter's lock.
pub mod Family
pub mod Invariant
pub mod Safety
pub mod Progress
mod Tests
use foris_controller.Prelude.{ℕ, suc, ◌-◌, ◌<◌, ◌≡◌, ◌≢◌, Option, none, some}
use foris_controller.RwLock.Family.{update}

-- Where a thread stands in ReadLock.acquire, ReadLock.release, WriteLock.acquire, WriteLock.release.
pub data Pc : Type 0 where
  idle : Pc
  r_entry r_locked r_counted r_left reading r_exit r_uncounted : Pc
  w_first w_second w_locked w_asleep w_woken w_passed writing w_exit : Pc

pub record Shared : Type 0 where
  pub counter : ℕ
  pub writer_lock : Option ℕ
  pub new_readers : Option ℕ
  pub counter_lock : Option ℕ

-- One operation of thread `i`, without a notification.
pub data Move (i : ℕ) (m : Shared) : Pc → Shared → Pc → Type 0 where
  -- ReadLock.acquire
  r_enter : m.new_readers ≡ none → Move i m idle (record m { new_readers = some i }) r_entry
  r_lock : m.counter_lock ≡ none → Move i m r_entry (record m { counter_lock = some i }) r_locked
  r_unlock : Move i m r_counted (record m { counter_lock = none }) r_left
  r_leave : Move i m r_left (record m { new_readers = none }) reading
  -- ReadLock.release
  r_relock : m.counter_lock ≡ none → Move i m reading (record m { counter_lock = some i }) r_exit
  r_reunlock : Move i m r_uncounted (record m { counter_lock = none }) idle
  -- WriteLock.acquire
  w_enter : m.writer_lock ≡ none → Move i m idle (record m { writer_lock = some i }) w_first
  w_stop : m.new_readers ≡ none → Move i m w_first (record m { new_readers = some i }) w_second
  w_lock : m.counter_lock ≡ none → Move i m w_second (record m { counter_lock = some i }) w_locked
  w_wait : m.counter ≢ 0 → Move i m w_locked (record m { counter_lock = none }) w_asleep
  w_relock : m.counter_lock ≡ none → Move i m w_woken (record m { counter_lock = some i }) w_locked
  w_pass : m.counter ≡ 0 → Move i m w_locked m w_passed
  w_unlock : Move i m w_passed (record m { counter_lock = none }) writing
  -- WriteLock.release
  w_reopen : Move i m writing (record m { new_readers = none }) w_exit
  w_leave : Move i m w_exit (record m { writer_lock = none }) idle

-- One operation of thread `i` that ends in `notify`.
pub data Signal (m : Shared) : Pc → Shared → Pc → Type 0 where
  r_count : Signal m r_locked (record m { counter = suc m.counter }) r_counted
  r_uncount : Signal m r_exit (record m { counter = m.counter - 1 }) r_uncounted

-- What `notify` does to the threads.
pub data Notified (pc pc' : ℕ → Pc) : Type 0 where
  woke : (j : ℕ) → pc j ≡ w_asleep → pc' ≡ update pc j w_woken → Notified pc pc'
  nobody : ((j : ℕ) → pc j ≢ w_asleep) → pc' ≡ pc → Notified pc pc'

pub record System : Type 0 where
  pub mem : Shared
  pub pc : ℕ → Pc

-- A step of thread `i`, one of `n`.
pub data Step (n i : ℕ) : System → System → Type 0 where
  move :
      {m m' : Shared} {pc : ℕ → Pc} (p' : Pc)
      → i < n
      → Move i m (pc i) m' p'
      → Step n i (record { mem = m; pc = pc }) (record { mem = m'; pc = update pc i p' })
  signal :
      {m m' : Shared} {pc pc' : ℕ → Pc} (p' : Pc)
      → i < n
      → Signal m (pc i) m' p'
      → Notified (update pc i p') pc'
      → Step n i (record { mem = m; pc = pc }) (record { mem = m'; pc = pc' })

abbrev pub init : System
init = record {
  mem = record { counter = 0; writer_lock = none; new_readers = none; counter_lock = none };
  pc = λ _. idle;
}

pub data Reach (n : ℕ) : System → Type 0 where
  start : Reach n init
  later : {i : ℕ} {s t : System} → Reach n s → Step n i s t → Reach n t
