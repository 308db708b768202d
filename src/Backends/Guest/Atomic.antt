-- ===== src/Backends/Guest/Atomic.antt =====
-- The blocks on the guest network as parts of a transaction.
use foris_controller.Prelude.{
  ℕ, ◌+◌, String, ◌≡◌, none, some, List, [], ◌∷◌, ◌++◌, Option-cases, inl, inr,
}
use foris_controller.Exceptions.{Raised, err}
use foris_controller.Uci.{UciSection}
use foris_controller.Uci.Backend.{acquired, released, cleaned, Trace, Oracle, Backend}
use foris_controller.Uci.Backend.Quiet.{
  AllStaging, Stages, Stages-pure, Stages-bind, Stages-add_section, Stages-set_option,
  Stages-del_section,
}
use foris_controller.Uci.Backend.Transaction.{opened, with_backend-raises}
use foris_controller.Backends.{Numerals}
use foris_controller.Backends.Staging.{
  Stages-lift, Stages-except_uci, Stages-except_missing, Stages-run_calls, Stages-read_config,
}
use foris_controller.Backends.Guest.{Request}
use foris_controller.Backends.Guest.Transaction.{
  get_wifi_devices, disable_from, set_guest_wifi_disabled, set_limits, set_qos_section,
  set_guest_network, update_block, update_settings,
}

module _ (numerals : Numerals) (strip : String → String) (oracle : Oracle) where
  Stages-disable_from :
      (i : ℕ) (devices : List UciSection) → Stages (disable_from numerals strip oracle i devices)
  unfolding disable_from
  Stages-disable_from i [] = Stages-pure tt
  Stages-disable_from i (device ∷ devices) =
      Stages-bind _ _ (Stages-add_section strip oracle _ _ _) (λ _.
        Stages-bind _ _ (Stages-set_option strip oracle _ _ _ _)
          (λ _. Stages-disable_from (i + 1) devices))

  Stages-set_guest_wifi_disabled : Stages (set_guest_wifi_disabled numerals strip oracle)
  unfolding set_guest_wifi_disabled get_wifi_devices
  Stages-set_guest_wifi_disabled =
      Stages-bind _ _
        (Stages-except_missing [] _
          (Stages-bind _ _ (Stages-read_config strip oracle "wireless") (λ d. Stages-lift _)))
        (λ devices. Stages-disable_from 0 devices)

  Stages-set_limits : (request : Request) → Stages (set_limits numerals strip oracle request)
  Stages-set_limits none = Stages-pure _
  Stages-set_limits (some network) = elim (Option-cases network.qos) [
    | inl e ↦ rw e (Stages-pure _)
    | inr (limits, e) ↦
        rw e (Stages-bind _ _ (Stages-run_calls strip oracle _) (λ _. Stages-pure _))
  ]

  pub Stages-set_guest_network :
      (request : Request) → Stages (set_guest_network numerals strip oracle request)
  unfolding set_guest_network set_qos_section
  Stages-set_guest_network request = Stages-bind _ _ (Stages-run_calls strip oracle _) (λ _.
      Stages-bind _ _ (Stages-except_uci tt _ (Stages-del_section strip oracle _ _))
        (λ _. Stages-except_uci none _ (Stages-set_limits request)))

  pub Stages-update_block :
      (request : Request) → Stages (update_block numerals strip oracle request)
  unfolding update_block
  Stages-update_block none =
      Stages-bind _ _ Stages-set_guest_wifi_disabled (λ _. Stages-set_guest_network none)
  Stages-update_block (some network) = Stages-set_guest_network (some network)

  -- An update of the guest network that raises has committed nothing: its exception comes out, and
  -- only staging commands stand between the cleaning of the change directory and the release of the
  -- lock.
  pub update_settings-raises :
      (config_dir : String) (request : Request) (t : Trace) (e : Raised) (b : Backend)
      → update_block numerals strip oracle request (opened config_dir t) ≡ (err e, b)
      → (new : Trace) × AllStaging new
        × (update_settings numerals strip oracle config_dir request t
            ≡ (err e, released ∷ new ++ cleaned ∷ acquired ∷ t))
  unfolding update_settings
  update_settings-raises config_dir request t e b raised =
      with_backend-raises strip oracle config_dir (update_block numerals strip oracle request) t e b
        (Stages-update_block request) raised
