-- ===== src/Uci/Backend/Transaction.antt =====
-- `with UciBackend() as backend:` as a transaction.
use foris_controller.Prelude.{
  ℕ, suc, String, ◌≡◌, ◌≢◌, refl, Bool, true, false, none, List, [], ◌∷◌, ◌++◌, arith, sym, ap, ◌∙◌,
}
use foris_controller.Exceptions.{Raised, uci_exception, ok, err}
use foris_controller.Uci.Backend.{
  acquired, released, cleaned, ran, exited, Trace, Oracle, Backend, Uci, handle_command,
  cmdline_args, run_uci_command, run_reload_config, commit_all, commit, enter, exit, with_backend,
}
use foris_controller.Uci.Backend.Quiet.{AllStaging, Stages}

-- The backend at the start of a block.
abbrev pub opened : String → Trace → Backend
opened config_dir trace = record {
  config_dir = config_dir;
  affected_configs = [];
  trace = cleaned ∷ acquired ∷ trace;
}

-- Is the write lock held at the end of a trace?
abbrev pub held : Trace → Bool
held [] = false
held (acquired ∷ t) = true
held (released ∷ t) = false
held (_ ∷ t) = held t

-- The trace after a commit and a revert of each config.
abbrev pub commits : String → List String → Trace → Trace
commits dir [] t = t
commits dir (c ∷ cs) t = commits dir cs (
    ran (cmdline_args dir ("revert" ∷ c ∷ [])) none
    ∷ ran (cmdline_args dir ("commit" ∷ c ∷ [])) none
    ∷ t)

module _ (strip : String → String) (oracle : Oracle) where
  -- A command line exits with 0, whatever has happened before.
  abbrev pub Succeeds : List String → Type 0
  Succeeds args =
      (t : Trace) → (out : String) × (e : String) × (oracle t args none ≡ exited 0 out e)

  -- `uci commit` and `uci revert` of each config succeed.
  abbrev pub CommitsSucceed : String → Type 0
  CommitsSucceed dir =
      (c : String)
      → Succeeds (cmdline_args dir ("commit" ∷ c ∷ []))
        × Succeeds (cmdline_args dir ("revert" ∷ c ∷ []))

  run-ok :
      (args : List String) (fail : Bool) (b : Backend) (out e : String)
      → oracle b.trace (cmdline_args b.config_dir args) none ≡ exited 0 out e
      → run_uci_command strip oracle args fail none b
        ≡ (ok out, record b { trace = ran (cmdline_args b.config_dir args) none ∷ b.trace })
  run-ok args fail b out e h = unfold run_uci_command in rw (h, handle_command)

  run-fails :
      (args : List String) (b : Backend) (n : ℕ) (out e : String)
      → oracle b.trace (cmdline_args b.config_dir args) none ≡ exited (suc n) out e
      → run_uci_command strip oracle args true none b ≡ (
        err (uci_exception (cmdline_args b.config_dir args) e),
        record b { trace = ran (cmdline_args b.config_dir args) none ∷ b.trace },
      )
  run-fails args b n out e h = unfold run_uci_command in rw (h, handle_command)

  commit_all_ok :
      (cs : List String) (b : Backend)
      → CommitsSucceed b.config_dir
      → commit_all strip oracle cs b ≡ (ok tt, record b { trace = commits b.config_dir cs b.trace })
  unfolding commit_all
  commit_all_ok [] b h = refl
  commit_all_ok (c ∷ cs) b h =
      let committed : Backend = record b {
        trace = ran (cmdline_args b.config_dir ("commit" ∷ c ∷ [])) none ∷ b.trace;
      } in
      let reverted : Backend = record b {
        trace = ran (cmdline_args b.config_dir ("revert" ∷ c ∷ [])) none ∷ committed.trace;
      } in
      let (out, e, x) = (h c).0 b.trace in
      let (out', e', y) = (h c).1 committed.trace in
      rw (run-ok ("commit" ∷ c ∷ []) true b out e x)
        (rw (run-ok ("revert" ∷ c ∷ []) true committed out' e' y) (commit_all_ok cs reverted h))

  run_reload_config-state :
      (b : Backend)
      → run_reload_config strip oracle b
        ≡ (ok tt, record b { trace = ran ("reload_config" ∷ []) none ∷ b.trace })
  unfolding run_reload_config
  run_reload_config-state b = ground arith

  commit_ok :
      (b : Backend)
      → b.affected_configs ≢ []
      → CommitsSucceed b.config_dir
      → commit strip oracle b ≡ (
        ok tt,
        record b {
          trace = ran ("reload_config" ∷ []) none ∷ commits b.config_dir b.affected_configs b.trace;
        },
      )
  unfolding commit
  commit_ok b changed h = rw (commit_all_ok b.affected_configs b h) (
      ground (
        arith,
        run_reload_config-state
            (record b { trace = commits b.config_dir b.affected_configs b.trace }),
      ))

  -- A commit that fails ends the whole method.
  commit_fails :
      (b : Backend) (c : String) (cs : List String) (n : ℕ) (out e : String)
      → b.affected_configs ≡ c ∷ cs
      → oracle b.trace (cmdline_args b.config_dir ("commit" ∷ c ∷ [])) none ≡ exited (suc n) out e
      → commit strip oracle b ≡ (
        err (uci_exception (cmdline_args b.config_dir ("commit" ∷ c ∷ [])) e),
        record b { trace = ran (cmdline_args b.config_dir ("commit" ∷ c ∷ [])) none ∷ b.trace },
      )
  unfolding commit commit_all
  commit_fails b c cs n out e changed failed =
      ground (arith, run-fails ("commit" ∷ c ∷ []) b n out e failed)

  pub held_staging : (new t : Trace) → AllStaging new → held (new ++ t) ≡ held t
  held_staging [] t q = refl
  held_staging (ran args input ∷ new) t q = held_staging new t q.1
  held_staging (acquired ∷ new) t q = cc
  held_staging (released ∷ new) t q = cc
  held_staging (cleaned ∷ new) t q = cc

  module _ {ℓ} {A : Type ℓ} (dir : String) (body : Uci A) (t : Trace) where
    -- A block that raises has run no commit: its exception comes out, only staging commands stand
    -- between the cleaning of the change directory and the release of the lock.
    pub with_backend-raises :
        (e : Raised) (b : Backend)
        → Stages body
        → body (opened dir t) ≡ (err e, b)
        → (new : Trace) × AllStaging new
          × (with_backend strip oracle dir body t
              ≡ (err e, released ∷ new ++ cleaned ∷ acquired ∷ t))
    with_backend-raises e b h r =
        let (new, is_new, staging, same) = h.at (opened dir t) in
        (
          new,
          staging,
          unfold with_backend enter exit in
              rw r (ap (λ u. (err e, released ∷ u)) (sym (ap (λ x. x.1.trace) r) ∙ is_new)),
        )

    -- A block that returns with changed configs commits and reverts each of them in order, runs
    -- the triggers, whose failure does not count, and releases the lock.
    pub with_backend-commits :
        (a : A) (b : Backend)
        → body (opened dir t) ≡ (ok a, b)
        → b.affected_configs ≢ []
        → CommitsSucceed b.config_dir
        → with_backend strip oracle dir body t ≡ (
          ok a,
          released
              ∷ ran ("reload_config" ∷ []) none
              ∷ commits b.config_dir b.affected_configs b.trace,
        )
    with_backend-commits a b r changed h =
        unfold with_backend enter exit in rw r (ground (arith, commit_ok b changed h))

    -- When a commit fails, its exception comes out and the lock stays held.
    pub with_backend-keeps_lock :
        (a : A) (b : Backend) (c : String) (cs : List String) (n : ℕ) (out e : String)
        → Stages body
        → body (opened dir t) ≡ (ok a, b)
        → b.affected_configs ≡ c ∷ cs
        → oracle b.trace (cmdline_args b.config_dir ("commit" ∷ c ∷ [])) none ≡ exited (suc n) out e
        → ((with_backend strip oracle dir body t).0
            ≡ err (uci_exception (cmdline_args b.config_dir ("commit" ∷ c ∷ [])) e))
          × (held (with_backend strip oracle dir body t).1 ≡ true)
    with_backend-keeps_lock a b c cs n out e h r changed failed =
        let (new, is_new, staging, same) = h.at (opened dir t) in
        let kept : held b.trace ≡ true =
          ap held (sym (ap (λ x. x.1.trace) r) ∙ is_new) ∙ held_staging new _ staging in
        unfold with_backend enter exit in
        rw r (ground (arith, kept, commit_fails b c cs n out e changed failed))
