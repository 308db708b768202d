-- ===== src/Backends/Lan/Atomic.antt =====
-- The blocks of LanUci as parts of transactions.
use foris_controller.Prelude.{
  ℕ, String, ◌≡◌, Bool, true, false, Option, none, some, List, [], ◌∷◌, ◌++◌, lookup, arith,
}
use foris_controller.Exceptions.{Raised, Result, err}
use foris_controller.Lan.{
  NewManaged, NewUnmanaged, type_none, type_dhcp, type_static, NewMode, managed, unmanaged,
  NewSettings, Qos, in_range,
}
use foris_controller.Uci.{OptionValue, UciSection, UciData, get_sections_by_type}
use foris_controller.Uci.Backend.{acquired, released, cleaned, Trace, Oracle, Backend}
use foris_controller.Uci.Backend.Quiet.{
  AllStaging, Stages, Stages-pure, Stages-bind, Stages-set_option, Stages-del_section,
  Stages-del_option, Stages-add_to_list, Stages-replace_list,
}
use foris_controller.Uci.Backend.Transaction.{opened, with_backend-raises}
use foris_controller.Backends.{Numerals}
use foris_controller.Backends.Staging.{
  Stages-lift, Stages-except_uci, Stages-run_calls, Stages-read_config, Stages-if, Stages-state,
}
use foris_controller.Backends.Lan.{Combo, get_network_combo}
use foris_controller.Backends.Lan.Hosts.{is_text}
use foris_controller.Backends.Lan.Update.{
  set_lan, delete_when, left_network, check_old, filter_address, filter_hosts,
  filter_dhcp_client_records, serve_dhcp, set_managed, set_lan_type, set_unmanaged, set_mode,
  store_lan_redirect, set_qos, update_block, update_settings, raise_again, address_text,
}

module _ (numerals : Numerals) (strip : String → String) (oracle : Oracle) where
  Stages-set_lan :
      (router_ip netmask : String) → Stages (set_lan numerals strip oracle router_ip netmask)
  unfolding set_lan
  Stages-set_lan router_ip netmask = Stages-bind _ _ (Stages-del_option strip oracle _ _ _ _) (λ _.
      Stages-bind _ _ (Stages-del_option strip oracle _ _ _ _)
        (λ _. Stages-bind _ _ (Stages-lift _) (λ _. Stages-add_to_list strip oracle _ _ _ _)))

  Stages-delete_when :
      (b : Bool) (name : String) → Stages (delete_when numerals strip oracle b name)
  Stages-delete_when false name = Stages-pure tt
  Stages-delete_when true name = Stages-del_section strip oracle _ _

  Stages-left_network :
      (ip new_router_ip new_netmask : String) (b : Bool)
      → Stages (left_network numerals strip oracle ip new_router_ip new_netmask b)
  Stages-left_network ip new_router_ip new_netmask false = Stages-pure false
  Stages-left_network ip new_router_ip new_netmask true =
      Stages-bind _ _ (Stages-lift _) (λ _. Stages-pure _)

  Stages-check_old :
      (combo : Combo) (name ip new_router_ip new_netmask : String)
      → Stages (check_old numerals strip oracle combo name ip new_router_ip new_netmask)
  Stages-check_old combo name ip new_router_ip new_netmask =
      Stages-if _ _ _
        (Stages-bind _ _ (Stages-lift _) (λ was_in.
          Stages-bind _ _ (Stages-left_network ip new_router_ip new_netmask was_in)
            (λ gone. Stages-delete_when gone name)))
        (Stages-pure tt)

  module _ (combo : Combo) (new : NewManaged) (start limit : ℕ) where
    Stages-filter_address :
        (name : String) (value : Option OptionValue)
        → Stages (filter_address numerals strip oracle combo new start limit name value)
    Stages-filter_address name none = Stages-pure tt
    Stages-filter_address name (some value) =
        Stages-if (is_text "ignore" (some value)) _ _ (Stages-pure tt) (
          Stages-bind _ _ (Stages-lift (address_text value)) (λ ip.
            Stages-bind _ _ (Stages-lift (in_range ip new.router_ip start limit)) (λ inside.
              Stages-bind _ _ (Stages-delete_when inside name)
                (λ _. Stages-check_old combo name ip new.router_ip new.netmask))))

    Stages-filter_hosts :
        (hosts : List UciSection)
        → Stages (filter_hosts numerals strip oracle combo new start limit hosts)
    unfolding filter_hosts
    Stages-filter_hosts [] = Stages-pure tt
    Stages-filter_hosts (h ∷ hosts) =
        Stages-bind _ _ (Stages-filter_address h.name (lookup "ip" h.options))
          (λ _. Stages-filter_hosts hosts)

  Stages-filter_dhcp_client_records :
      (combo : Combo) (new : NewManaged) (start limit : ℕ) (dhcp_data : UciData)
      → Stages (filter_dhcp_client_records numerals strip oracle combo new start limit dhcp_data)
  unfolding filter_dhcp_client_records
  Stages-filter_dhcp_client_records combo new start limit dhcp_data =
      Stages-bind _ _ (Stages-lift (get_sections_by_type dhcp_data "dhcp" "host"))
        (λ hosts. Stages-filter_hosts combo new start limit hosts)

  Stages-serve_dhcp :
      (new : NewManaged) (network_data dhcp_data : UciData)
      → Stages (serve_dhcp numerals strip oracle new network_data dhcp_data)
  unfolding serve_dhcp
  Stages-serve_dhcp new network_data dhcp_data =
      Stages-bind _ _ (Stages-run_calls strip oracle _) (λ _.
        Stages-bind _ _ (Stages-lift _) (λ start.
          Stages-bind _ _ (Stages-run_calls strip oracle _) (λ _.
            Stages-bind _ _ (Stages-lift _) (λ limit.
              Stages-bind _ _ (Stages-run_calls strip oracle _) (λ _.
                Stages-bind _ _ (Stages-lift _) (λ lease_time.
                  Stages-bind _ _ (Stages-run_calls strip oracle _) (λ _.
                    Stages-bind _ _ (Stages-lift (get_network_combo network_data)) (λ combo.
                      Stages-filter_dhcp_client_records combo new start limit dhcp_data))))))))

  Stages-set_managed : (new : NewManaged) → Stages (set_managed numerals strip oracle new)
  unfolding set_managed
  Stages-set_managed new =
      Stages-bind _ _ (Stages-read_config strip oracle "network") (λ network_data.
        Stages-bind _ _ (Stages-read_config strip oracle "dhcp") (λ dhcp_data.
          Stages-bind _ _ (Stages-run_calls strip oracle _) (λ _.
            Stages-bind _ _ (Stages-set_lan new.router_ip new.netmask) (λ _.
              Stages-bind _ _ (Stages-run_calls strip oracle _) (λ _.
                Stages-if new.enabled _ _ (Stages-serve_dhcp new network_data dhcp_data)
                  (Stages-run_calls strip oracle _))))))

  Stages-set_lan_type : (new : NewUnmanaged) → Stages (set_lan_type numerals strip oracle new)
  Stages-set_lan_type type_none = Stages-pure tt
  Stages-set_lan_type (type_dhcp none) = Stages-pure tt
  Stages-set_lan_type (type_dhcp (some hostname)) = Stages-set_option strip oracle _ _ _ _
  Stages-set_lan_type (type_static new) = Stages-bind _ _ (Stages-set_lan new.ip new.netmask) (λ _.
      Stages-bind _ _ (Stages-set_option strip oracle _ _ _ _)
        (λ _. Stages-replace_list strip oracle _ _ _ _))

  Stages-set_mode : (new : NewMode) → Stages (set_mode numerals strip oracle new)
  unfolding set_unmanaged
  Stages-set_mode (managed new) = Stages-set_managed new
  Stages-set_mode (unmanaged new) = Stages-bind _ _ (Stages-run_calls strip oracle _) (λ _.
      Stages-bind _ _ (Stages-run_calls strip oracle _)
        (λ _. Stages-bind _ _ (Stages-run_calls strip oracle _) (λ _. Stages-set_lan_type new)))

  Stages-store_lan_redirect :
      (enabled : Option Bool) → Stages (store_lan_redirect numerals strip oracle enabled)
  unfolding store_lan_redirect
  Stages-store_lan_redirect none = Stages-pure tt
  Stages-store_lan_redirect (some enabled) =
      Stages-bind _ _ (Stages-read_config strip oracle "firewall") (λ _.
        Stages-bind _ _ (Stages-lift _)
          (λ there. Stages-if there _ _ (Stages-set_option strip oracle _ _ _ _) (Stages-pure tt)))

  raise_again-state {ℓ} : {A : Type ℓ} (r : Result A) (b : Backend) → (raise_again (r, b)).1 ≡ b
  raise_again-state r b = ground arith

  Stages-set_qos : (qos : Option Qos) → Stages (set_qos numerals strip oracle qos)
  unfolding set_qos
  Stages-set_qos none = Stages-pure tt
  Stages-set_qos (some qos) =
      Stages-bind _ _ (Stages-except_uci tt _ (Stages-del_section strip oracle _ _)) (λ _.
        Stages-if qos.enabled _ _
          (Stages-state _ _ (Stages-run_calls strip oracle _) (λ b. raise_again-state _ _))
          (Stages-pure tt))

  pub Stages-update_block : (new : NewSettings) → Stages (update_block numerals strip oracle new)
  unfolding update_block
  Stages-update_block new = Stages-bind _ _ (Stages-run_calls strip oracle _) (λ _.
      Stages-bind _ _ (Stages-store_lan_redirect new.lan_redirect)
        (λ _. Stages-bind _ _ (Stages-set_mode new.mode) (λ _. Stages-set_qos new.qos)))

  -- When the block of an update of the network raises, at whatever call before the commits, nothing has
  -- been committed: its exception comes out, and only staging commands stand between the cleaning of
  -- the change directory and the release of the lock.
  pub update_settings-stages :
      (config_dir : String) (new : NewSettings) (t : Trace) (e : Raised) (b : Backend)
      → update_block numerals strip oracle new (opened config_dir t) ≡ (err e, b)
      → (staged : Trace) × AllStaging staged
        × (update_settings numerals strip oracle config_dir new t
            ≡ (err e, released ∷ staged ++ cleaned ∷ acquired ∷ t))
  unfolding update_settings
  update_settings-stages config_dir new t e b raised =
      with_backend-raises strip oracle config_dir (update_block numerals strip oracle new) t e b
        (Stages-update_block new) raised
