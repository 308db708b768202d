-- ===== src/Uci/Backend/Locking.antt =====
-- The write lock after a block `with UciBackend() as backend:`, with whatever outcome.
use foris_controller.Prelude.{
  ℕ, zero, suc, String, ◌≡◌, refl, ap, ◌∙◌, Bool, true, false, arith, Option, none, some, List, [],
  ◌∷◌,
}
use foris_controller.Exceptions.{Raised, Result, ok, err}
use foris_controller.Uci.Backend.{
  Trace, Oracle, Backend, Uci, go_on, ◌>>=◌, handle_command, check_retval, cmdline_args, released,
  emit, pure, run_uci_command, run_reload_config, commit_all, commit, enter, leave, exit,
  with_backend, transaction,
}
use foris_controller.Uci.Backend.Quiet.{Stages}
use foris_controller.Uci.Backend.Transaction.{opened, held, held_staging}

-- Is the lock held in the end, by what _cleanup raised, the outcome of the body and the one of the
-- whole block?
abbrev pub is_held {ℓ} : {A : Type ℓ} → Option Raised → Result A → Result A → Bool
is_held (some e) body block = true
is_held none (err e) block = false
is_held none (ok a) (err e) = true
is_held none (ok a) (ok b) = false

-- A method that leaves the lock as it is.
record KeepsLock {ℓ} {A : Type ℓ} (m : Uci A) : Type 0 where
  at : (b : Backend) → held (m b).1.trace ≡ held b.trace

module _ (strip : String → String) (oracle : Oracle) where
  KeepsLock-bind {ℓ κ} :
      {A : Type ℓ} {B : Type κ} (m : Uci A) (f : A → Uci B)
      → KeepsLock m
      → ((a : A) → KeepsLock (f a))
      → KeepsLock (m >>= f)
  KeepsLock-bind {A = A} m f h k = record { at = λ b. by_outcome b (m b) (h.at b) }
    where
      by_outcome :
          (b : Backend) (r : Result A × Backend)
          → held r.1.trace ≡ held b.trace
          → held (go_on r f).1.trace ≡ held b.trace
      by_outcome b (ok a, c) e = (k a).at c ∙ e
      by_outcome b (err x, c) e = e

  KeepsLock-handle_command :
      (args : List String) → KeepsLock (handle_command strip oracle args none)
  unfolding handle_command
  KeepsLock-handle_command args = record { at = λ b. ground (arith, oracle b.trace args none) }

  KeepsLock-check_retval :
      (args : List String) (res : ℕ × String × String)
      → KeepsLock (check_retval strip oracle args true res)
  unfolding check_retval
  KeepsLock-check_retval args (zero, stdout, stderr) = record { at = λ b. refl }
  KeepsLock-check_retval args (suc n, stdout, stderr) = record { at = λ b. refl }

  KeepsLock-run : (args : List String) → KeepsLock (run_uci_command strip oracle args true none)
  unfolding run_uci_command handle_command check_retval
  KeepsLock-run args = record {
    at = λ b.
        (KeepsLock-bind (handle_command strip oracle (cmdline_args b.config_dir args) none)
            (check_retval strip oracle (cmdline_args b.config_dir args) true)
            (KeepsLock-handle_command (cmdline_args b.config_dir args))
            (KeepsLock-check_retval (cmdline_args b.config_dir args))).at
          b;
  }

  KeepsLock-commit_all : (cs : List String) → KeepsLock (commit_all strip oracle cs)
  unfolding commit_all
  KeepsLock-commit_all [] = record { at = λ b. refl }
  KeepsLock-commit_all (c ∷ cs) =
      KeepsLock-bind _ _ (KeepsLock-run ("commit" ∷ c ∷ []))
        (λ _. KeepsLock-bind _ _ (KeepsLock-run ("revert" ∷ c ∷ [])) (λ _. KeepsLock-commit_all cs))

  KeepsLock-run_reload_config : KeepsLock (run_reload_config strip oracle)
  unfolding run_reload_config handle_command
  KeepsLock-run_reload_config = record {
    at = λ b. ground (arith, oracle b.trace ("reload_config" ∷ []) none);
  }

  KeepsLock-reload :
      (cs : List String)
      → KeepsLock {A = Unit {0}} (elim cs [ [] ↦ pure tt | _ ∷ _ ↦ run_reload_config strip oracle ])
  KeepsLock-reload [] = record { at = λ b. refl }
  KeepsLock-reload (c ∷ cs) = KeepsLock-run_reload_config

  KeepsLock-commit : KeepsLock (commit strip oracle)
  unfolding commit
  KeepsLock-commit = record {
    at = λ b.
        (KeepsLock-bind (commit_all strip oracle b.affected_configs) _
            (KeepsLock-commit_all b.affected_configs) (λ _. KeepsLock-reload b.affected_configs)).at
          b;
  }

  module _ {ℓ} {A : Type ℓ} where
    leave-is_held :
        (a : A) (r : Result (Unit {0}) × Backend)
        → held r.1.trace ≡ true
        → held (leave strip oracle a r).1.trace ≡ is_held none (ok a) (leave strip oracle a r).0
    leave-is_held a (ok _, c) h = refl
    leave-is_held a (err e, c) h = h

    exit-is_held :
        (r : Result A) (b : Backend)
        → held b.trace ≡ true
        → held (exit strip oracle r b).1.trace ≡ is_held none r (exit strip oracle r b).0
    unfolding exit
    exit-is_held (err e) b h = refl
    exit-is_held (ok a) b h = by_configs b.affected_configs
      where
        by_configs :
            (cs : List String)
            → let left : Result A × Backend = elim cs [
              | [] ↦ (ok a, emit released b)
              | _ ∷ _ ↦ leave strip oracle a (commit strip oracle b)
            ] in
              held left.1.trace ≡ is_held none (ok a) left.0
        by_configs [] = refl
        by_configs (c ∷ cs) = leave-is_held a (commit strip oracle b) (KeepsLock-commit.at b ∙ h)

    -- A block whose body runs staging commands only leaves the write lock held exactly when _cleanup
    -- raises, or when the body returns and the block raises all the same, which is an exception of
    -- the commit; in every other case the lock is released.
    pub transaction-is_held :
        (cleanup : Option Raised) (dir : String) (body : Uci A) (t : Trace)
        → Stages body
        → held (transaction strip oracle cleanup dir body t).1
          ≡ is_held cleanup (body (opened dir t)).0 (transaction strip oracle cleanup dir body t).0
    unfolding transaction with_backend enter
    transaction-is_held (some e) dir body t h = refl
    transaction-is_held none dir body t h =
        let (new, is_new, staging, same) = h.at (opened dir t) in
        exit-is_held (body (opened dir t)).0 (body (opened dir t)).1
          (ap held is_new ∙ held_staging strip oracle new _ staging)
