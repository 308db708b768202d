-- ===== src/Backends/Lan/Update.antt =====
-- update_settings of the class LanUci in foris_controller_backends/lan/__init__.py, as a block of a
-- transaction. The hooks, the wizard and the restart of the network, which follow on it, are left
-- out. The settings are those that the mock handler takes too; a key that is missing raises.
use Prim.Native.String.{◌++◌ as append}
use foris_controller.Prelude.{
  ℕ, zero, suc, String, ◌==◌, Bool, true, false, not, ◌&&◌, Option, none, some, List, [], ◌∷◌, ◌++◌,
  map, lookup, if◌then◌else◌,
}
use foris_controller.Exceptions.{uci_exception, key_error, type_error, value_error, Result, ok, err}
use foris_controller.Lan.{
  NewManaged, NewUnmanaged, type_none, type_dhcp, type_static, NewMode, managed, unmanaged,
  NewSettings, Qos, in_range,
}
use foris_controller.Uci.{
  OptionValue, text, items, num, UciSection, UciData, section_exists, get_sections_by_type,
}
use foris_controller.Uci.Backend.{
  Trace, Oracle, Backend, Uci, ◌>>=◌, ◌>>◌, pure, set_option, del_section, del_option, add_to_list,
  replace_list, with_backend,
}
use foris_controller.Backends.{
  Call, section, option, replaced, run_calls, read_config, except_uci, Numerals, str_of,
  lease_option,
}
use foris_controller.Backends.Guest.{options, stored}
use foris_controller.Backends.Guest.Transaction.{lift}
use foris_controller.Backends.Lan.{Combo, get_network_combo, get_interface, parse_to_list, in_lan}
use foris_controller.Backends.Lan.Hosts.{is_text}

abbrev pub required : String → Option ℕ → Result ℕ
required name none = err (key_error name)
required name (some n) = ok n

abbrev pub mode_name : NewMode → String
mode_name (managed new) = "managed"
mode_name (unmanaged new) = "unmanaged"

abbrev pub lan_type_name : NewUnmanaged → String
lan_type_name type_none = "none"
lan_type_name (type_dhcp hostname) = "dhcp"
lan_type_name (type_static new) = "static"

abbrev pub mode_calls : NewMode → List Call
mode_calls mode =
    section "network" "interface" "lan"
    ∷ option "network" "lan" "_turris_mode" (mode_name mode)
    ∷ []

abbrev pub ignore_calls : Bool → List Call
ignore_calls ignored =
    section "dhcp" "dhcp" "lan" ∷ option "dhcp" "lan" "ignore" (stored ignored) ∷ []

abbrev pub advertise_calls : String → List Call
advertise_calls kind = options "dhcp" "lan" (("ra", kind) ∷ ("dhcpv6", kind) ∷ [])

abbrev pub dns_of : Option String → List String
dns_of none = []
dns_of (some address) = address ∷ []

-- The address of a host as a text; the data that are read hold no numbers.
abbrev pub address_text : OptionValue → Result String
address_text (text s) = ok s
address_text (items values) = err (value_error "does not appear to be an IPv4 or IPv6 address")
address_text (num n) = err type_error

-- `if value`
abbrev pub is_truthy : OptionValue → Bool
is_truthy (text s) = not (s == "")
is_truthy (items []) = false
is_truthy (items (value ∷ values)) = true
is_truthy (num zero) = false
is_truthy (num (suc n)) = true

-- except UciException as e: raise UciException from e. The class wants two arguments, so that it is a
-- TypeError that is raised.
abbrev pub raise_again {ℓ} : {A : Type ℓ} → Result A × Backend → Result A × Backend
raise_again (ok a, b) = (ok a, b)
raise_again (err (uci_exception args stderr), b) = (err type_error, b)
raise_again (err e, b) = (err e, b)

module _ (numerals : Numerals) where
  abbrev pub start_calls : ℕ → List Call
  start_calls start = option "dhcp" "lan" "start" (numerals.show start) ∷ []

  abbrev pub limit_calls : ℕ → List Call
  limit_calls limit = option "dhcp" "lan" "limit" (numerals.show limit) ∷ []

  abbrev pub lease_calls : String → ℕ → List Call
  lease_calls router_ip lease_time =
      option "dhcp" "lan" "leasetime" (lease_option numerals lease_time)
      ∷ replaced "dhcp" "lan" "dhcp_option" (append "6," router_ip ∷ [])
      ∷ []

  -- The upload of the section is the download of the network.
  abbrev pub qos_calls : Qos → List Call
  qos_calls qos =
      section "sqm" "queue" "limit_lan_turris"
      ∷ options "sqm" "limit_lan_turris" (
          ("enabled", stored qos.enabled)
          ∷ ("interface", "br-lan")
          ∷ ("qdisc", "fq_codel")
          ∷ ("script", "simple.qos")
          ∷ ("link_layer", "none")
          ∷ ("verbosity", "5")
          ∷ ("debug_logging", "1")
          ∷ ("upload", numerals.show qos.download)
          ∷ ("download", numerals.show qos.upload)
          ∷ [])

  module _ (strip : String → String) (oracle : Oracle) where
    unfoldable pub set_lan : (router_ip netmask : String) → Uci (Unit {0})
    set_lan router_ip netmask = do
      del_option strip oracle "network" "lan" "ipaddr" false
      del_option strip oracle "network" "lan" "netmask" false
      interface ← lift (get_interface router_ip netmask)
      add_to_list strip oracle "network" "lan" "ipaddr"
          (map (str_of numerals) (parse_to_list (text interface)))

    abbrev pub delete_when : Bool → String → Uci (Unit {0})
    delete_when false name = pure tt
    delete_when true name = del_section strip oracle "dhcp" name

    -- Was the host in the old network, and is it not in the new one? The second test is made only
    -- after the first.
    abbrev pub left_network : (ip new_router_ip new_netmask : String) → Bool → Uci Bool
    left_network ip new_router_ip new_netmask false = pure false
    left_network ip new_router_ip new_netmask true = do
      stays ← lift (in_lan ip new_router_ip new_netmask)
      pure (not stays)

    abbrev pub check_old :
        (combo : Combo) (name ip new_router_ip new_netmask : String) → Uci (Unit {0})
    check_old combo name ip new_router_ip new_netmask =
        if not (combo.router_ip == "") && is_truthy combo.netmask
        then (do
          was_in ← lift (in_lan ip combo.router_ip (str_of numerals combo.netmask))
          gone ← left_network ip new_router_ip new_netmask was_in
          delete_when gone name)
        else pure tt

    module _ (combo : Combo) (new : NewManaged) (start limit : ℕ) where
      abbrev pub filter_address : String → Option OptionValue → Uci (Unit {0})
      filter_address name none = pure tt
      filter_address name (some value) = if is_text "ignore" (some value) then pure tt else (do
        ip ← lift (address_text value)
        inside ← lift (in_range ip new.router_ip start limit)
        delete_when inside name
        check_old combo name ip new.router_ip new.netmask)

      unfoldable pub filter_hosts : List UciSection → Uci (Unit {0})
      filter_hosts [] = pure tt
      filter_hosts (record_ ∷ rest) = do
        filter_address record_.name (lookup "ip" record_.options)
        filter_hosts rest

    unfoldable pub filter_dhcp_client_records :
        Combo → NewManaged → (start limit : ℕ) → UciData → Uci (Unit {0})
    filter_dhcp_client_records combo new start limit dhcp_data = do
      hosts ← lift (get_sections_by_type dhcp_data "dhcp" "host")
      filter_hosts combo new start limit hosts

    unfoldable pub serve_dhcp : NewManaged → (network_data dhcp_data : UciData) → Uci (Unit {0})
    serve_dhcp new network_data dhcp_data = do
      run_calls strip oracle (advertise_calls "server")
      start ← lift (required "start" new.start)
      run_calls strip oracle (start_calls start)
      limit ← lift (required "limit" new.limit)
      run_calls strip oracle (limit_calls limit)
      lease_time ← lift (required "lease_time" new.lease_time)
      run_calls strip oracle (lease_calls new.router_ip lease_time)
      combo ← lift (get_network_combo network_data)
      filter_dhcp_client_records combo new start limit dhcp_data

    unfoldable pub set_managed : NewManaged → Uci (Unit {0})
    set_managed new = do
      network_data ← read_config strip oracle "network"
      dhcp_data ← read_config strip oracle "dhcp"
      run_calls strip oracle (option "network" "lan" "proto" "static" ∷ [])
      set_lan new.router_ip new.netmask
      run_calls strip oracle (ignore_calls (not new.enabled))
      (if new.enabled
          then serve_dhcp new network_data dhcp_data
          else run_calls strip oracle (advertise_calls "disabled"))

    -- The address of the higher priority is added last.
    abbrev pub set_lan_type : NewUnmanaged → Uci (Unit {0})
    set_lan_type type_none = pure tt
    set_lan_type (type_dhcp none) = pure tt
    set_lan_type (type_dhcp (some hostname)) =
        set_option strip oracle "network" "lan" "hostname" hostname
    set_lan_type (type_static new) = do
      set_lan new.ip new.netmask
      set_option strip oracle "network" "lan" "gateway" new.gateway
      replace_list strip oracle "network" "lan" "dns" (dns_of new.dns2 ++ dns_of new.dns1)

    unfoldable pub set_unmanaged : NewUnmanaged → Uci (Unit {0})
    set_unmanaged new = do
      run_calls strip oracle (option "network" "lan" "proto" (lan_type_name new) ∷ [])
      run_calls strip oracle (ignore_calls true)
      run_calls strip oracle (advertise_calls "disabled")
      set_lan_type new

    abbrev pub set_mode : NewMode → Uci (Unit {0})
    set_mode (managed new) = set_managed new
    set_mode (unmanaged new) = set_unmanaged new

    -- _store_lan_redirect, when there is one to store
    unfoldable pub store_lan_redirect : Option Bool → Uci (Unit {0})
    store_lan_redirect none = pure tt
    store_lan_redirect (some enabled) = do
      firewall_data ← read_config strip oracle "firewall"
      exists ← lift (section_exists firewall_data "firewall" "redirect_192_168_1_1")
      (if exists
          then set_option strip oracle "firewall" "redirect_192_168_1_1" "enabled" (stored enabled)
          else pure tt)

    unfoldable pub set_qos : Option Qos → Uci (Unit {0})
    set_qos none = pure tt
    set_qos (some qos) = do
      (λ b. except_uci tt (del_section strip oracle "sqm" "limit_lan_turris" b))
      (if qos.enabled
          then (λ b. raise_again (run_calls strip oracle (qos_calls qos) b))
          else pure tt)

    unfoldable pub update_block : NewSettings → Uci (Unit {0})
    update_block new = do
      run_calls strip oracle (mode_calls new.mode)
      store_lan_redirect new.lan_redirect
      set_mode new.mode
      set_qos new.qos

    unfoldable pub update_settings : String → NewSettings → Trace → Result (Unit {0}) × Trace
    update_settings config_dir new trace =
        with_backend strip oracle config_dir (update_block new) trace
