-- ===== src/Uci/Backend/Tests.antt =====
-- The transaction on a router whose `uci` always succeeds, on one whose commit fails, and on one whose
-- change directory cannot be cleaned.
use foris_controller.Prelude.{
  String, ◌≡◌, ◌≢◌, refl, true, none, some, [], ◌∷◌, ◌++◌, if◌then◌else◌, arith,
}
use foris_controller.Exceptions.{uci_exception, key_error, os_error, ok, err}
use foris_controller.Uci.Backend.{
  acquired, released, cleaned, ran, exited, Trace, Oracle, Backend, Uci, ◌>>=◌, cmdline_args,
  run_uci_command, affect, set_option, with_backend, transaction,
}
use foris_controller.Uci.Backend.Quiet.{
  is_commit, AllStaging, Stages, Stages-bind, Stages-set_option,
}
use foris_controller.Uci.Backend.Transaction.{
  opened, held, commits, with_backend-raises, with_backend-commits, with_backend-keeps_lock,
}
use foris_controller.Uci.Backend.Locking.{is_held, transaction-is_held}

abbrev trimmed : String → String
trimmed s = s

abbrev works : Oracle
works t args input = exited 0 "" ""

-- `uci commit` finds no space left.
abbrev full : Oracle
full t args input =
    if is_commit (ran args input) then exited 1 "" "No space left" else exited 0 "" ""

abbrev set_mode : Oracle → Uci (Unit {0})
set_mode oracle = set_option trimmed oracle "network" "lan" "_turris_mode" "managed"

-- A block whose second statement raises.
abbrev broken : Uci (Unit {0})
broken = set_mode works >>= λ _ b. (err (key_error "dhcp"), b)

abbrev after_set : Oracle → Backend
after_set oracle = (set_mode oracle (opened "/etc/config/" [])).1

set_up : Unit {0}
unfolding set_option run_uci_command affect
set_up = tt

broken-Stages : Stages broken
broken-Stages =
    Stages-bind _ _ (Stages-set_option trimmed works _ _ _ _)
      (λ _. record { at = λ b. ([], refl, tt, refl) })

broken_raises : broken (opened "/etc/config/" []) ≡ (err (key_error "dhcp"), after_set works)
unfolding set_up
broken_raises = refl

with_backend-raises_example :
    (new : Trace) × AllStaging new
    × (with_backend trimmed works "/etc/config/" broken []
        ≡ (err (key_error "dhcp"), released ∷ new ++ cleaned ∷ acquired ∷ []))
with_backend-raises_example =
    with_backend-raises trimmed works "/etc/config/" broken [] (key_error "dhcp") (after_set works)
      broken-Stages broken_raises

set_returns :
    (oracle : Oracle)
    → oracle
        (cleaned ∷ acquired ∷ [])
        (cmdline_args "/etc/config/" ("set" ∷ "network.lan._turris_mode=managed" ∷ []))
        none
      ≡ exited 0 "" ""
    → (set_mode oracle (opened "/etc/config/" []) ≡ (ok tt, after_set oracle))
      × ((after_set oracle).affected_configs ≡ "network" ∷ [])
unfolding set_up cmdline_args
set_returns oracle h = ground arith

with_backend-commits_example : with_backend trimmed works "/etc/config/" (set_mode works) [] ≡ (
  ok tt,
  released
      ∷ ran ("reload_config" ∷ []) none
      ∷ commits
          (after_set works).config_dir
          (after_set works).affected_configs
          (after_set works).trace,
)
with_backend-commits_example =
    with_backend-commits trimmed works "/etc/config/" (set_mode works) [] tt (after_set works)
      (set_returns works refl).0 changed (λ c. (λ t. ("", "", refl), λ t. ("", "", refl)))
  where
    changed : (after_set works).affected_configs ≢ []
    changed e = ground (arith, (set_returns works refl).1)

full_set :
    full
      (cleaned ∷ acquired ∷ [])
      (cmdline_args "/etc/config/" ("set" ∷ "network.lan._turris_mode=managed" ∷ []))
      none
    ≡ exited 0 "" ""
unfolding cmdline_args
full_set = refl

full_commit :
    full
      (after_set full).trace
      (cmdline_args (after_set full).config_dir ("commit" ∷ "network" ∷ []))
      none
    ≡ exited 1 "" "No space left"
unfolding cmdline_args
full_commit = refl

with_backend-keeps_lock_example :
    ((with_backend trimmed full "/etc/config/" (set_mode full) []).0
      ≡ err (
          uci_exception
            (cmdline_args (after_set full).config_dir ("commit" ∷ "network" ∷ []))
            "No space left"))
    × (held (with_backend trimmed full "/etc/config/" (set_mode full) []).1 ≡ true)
with_backend-keeps_lock_example =
    with_backend-keeps_lock trimmed full "/etc/config/" (set_mode full) [] tt (after_set full)
      "network" [] 0 "" "No space left" (Stages-set_option trimmed full _ _ _ _)
      (set_returns full full_set).0 (set_returns full full_set).1 full_commit

-- A file of the change directory cannot be removed.
not_cleaned :
    held
      (transaction trimmed works
        (some (os_error 13 "Permission denied"))
        "/etc/config/"
        (set_mode works)
        []).1
    ≡ true
unfolding transaction
not_cleaned = refl

transaction-is_held_example :
    held (transaction trimmed full none "/etc/config/" (set_mode full) []).1
    ≡ is_held none
        (set_mode full (opened "/etc/config/" [])).0
        (transaction trimmed full none "/etc/config/" (set_mode full) []).0
transaction-is_held_example =
    transaction-is_held trimmed full none "/etc/config/" (set_mode full) []
      (Stages-set_option trimmed full _ _ _ _)
