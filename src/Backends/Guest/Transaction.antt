-- ===== src/Backends/Guest/Transaction.antt =====
-- set_guest_network, enable_guest_network and update_settings of
-- foris_controller_backends/guest/__init__.py, and get_wifi_devices and set_guest_wifi_disabled of
-- foris_controller_backends/wifi/__init__.py, as blocks of a transaction. The commands on the service
-- sqm and the restart of the network, which follow on the transaction, are left out.
use Prim.Native.String.{◌++◌ as append}
use foris_controller.Prelude.{
  ℕ, ◌+◌, String, true, Option, none, some, List, [], ◌∷◌, if◌then◌else◌,
}
use foris_controller.Exceptions.{Result}
use foris_controller.Uci.{text, num, UciSection, UciData, get_option_named, get_sections_by_type}
use foris_controller.Uci.Backend.{
  Trace, Oracle, Uci, ◌>>=◌, ◌>>◌, pure, add_section, set_option, del_section, with_backend,
}
use foris_controller.Backends.{
  run_calls, read_config, except_uci, except_missing, Numerals, str_of, int_of, normalize_lease,
}
use foris_controller.Backends.Guest.{Network, Request, stored, network_settings, limits_settings}
use foris_controller.Backends.Guest.Reading.{parse_value}

abbrev pub lift {ℓ} : {A : Type ℓ} → Result A → Uci A
lift r b = (r, b)

module _ (numerals : Numerals) (strip : String → String) (oracle : Oracle) where
  unfoldable pub get_wifi_devices : Uci (List UciSection)
  get_wifi_devices b = except_missing [] (
      (do
        wifi_data ← read_config strip oracle "wireless"
        lift (get_sections_by_type wifi_data "wireless" "wifi-device"))
        b)

  -- for i, _ in enumerate(devices, 0)
  unfoldable pub disable_from : ℕ → List UciSection → Uci (Unit {0})
  disable_from i [] = pure tt
  disable_from i (device ∷ devices) = do
    add_section strip oracle "wireless" "wifi-iface"
        (some (append "guest_iface_" (numerals.show i)))
    set_option strip oracle "wireless" (append "guest_iface_" (numerals.show i)) "disabled"
        (stored true)
    disable_from (i + 1) devices

  unfoldable pub set_guest_wifi_disabled : Uci (Unit {0})
  set_guest_wifi_disabled = do devices ← get_wifi_devices; disable_from 0 devices

  -- The limits, in the second `try`; what is returned is the command for the service.
  abbrev pub set_limits : Request → Uci (Option String)
  set_limits (some network) = elim network.qos [
    | some limits ↦ do
      run_calls strip oracle (limits_settings numerals limits)
      pure (some "enable")
    | none ↦ pure (some "disable")
  ]
  set_limits none = pure (some "disable")

  unfoldable pub set_qos_section : Request → Uci (Option String)
  set_qos_section request = do
    (λ b. except_uci tt (del_section strip oracle "sqm" "guest_limit_turris" b))
    λ b. except_uci none (set_limits request b)

  unfoldable pub set_guest_network : Request → Uci (Option String)
  set_guest_network request = do
    run_calls strip oracle (network_settings numerals request)
    set_qos_section request

  unfoldable pub update_block : Request → Uci (Option String)
  update_block none = do set_guest_wifi_disabled; set_guest_network none
  update_block (some network) = set_guest_network (some network)

  unfoldable pub update_settings : String → Request → Trace → Result (Option String) × Trace
  update_settings config_dir request trace =
      with_backend strip oracle config_dir (update_block request) trace

  -- What enable_guest_network reads of the old settings.
  unfoldable pub read_network : (network_data dhcp_data : UciData) → Uci Network
  read_network network_data dhcp_data = do
    ignore_text ← lift (get_option_named dhcp_data "dhcp" "guest_turris" "ignore" (some (text "0")))
    ignored ← lift (parse_value numerals ignore_text)
    start_text ← lift (get_option_named dhcp_data "dhcp" "guest_turris" "start" (some (num 100)))
    start ← lift (int_of numerals start_text)
    limit_text ← lift (get_option_named dhcp_data "dhcp" "guest_turris" "limit" (some (num 150)))
    limit ← lift (int_of numerals limit_text)
    router_ip ← lift (
        get_option_named network_data "network" "guest_turris" "ipaddr"
          (some (text "10.111.222.1")))
    netmask ← lift (
        get_option_named network_data "network" "guest_turris" "netmask"
          (some (text "255.255.255.0")))
    lease_text ←
        lift (get_option_named dhcp_data "dhcp" "guest_turris" "leasetime" (some (num 3600)))
    lease_time ← lift (normalize_lease numerals lease_text)
    pure record {
      ip = str_of numerals router_ip;
      netmask = str_of numerals netmask;
      dhcp =
          if ignored
          then none
          else some (record { start = start; limit = limit; lease_time = lease_time });
      qos = none;
    }

  -- try: ... except (UciException, UciRecordNotFound): `none`
  unfoldable pub set_present : UciData → Network → Uci (Option (Unit {0}))
  set_present network_data network b = except_missing none (
      (do
        lift (get_option_named network_data "network" "guest_turris" "proto" none)
        set_guest_network (some network)
        pure (some tt))
        b)

  abbrev pub or_create : Network → Option (Unit {0}) → Uci (Unit {0})
  or_create network (some done) = pure tt
  or_create network none = do set_guest_network (some network); pure tt

  -- Both branches of its last `try` set the same network.
  unfoldable pub enable_guest_network : Uci (Unit {0})
  enable_guest_network = do
    network_data ← read_config strip oracle "network"
    dhcp_data ← read_config strip oracle "dhcp"
    network ← read_network network_data dhcp_data
    present ← set_present network_data network
    or_create network present
