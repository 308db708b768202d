-- ===== src/Backends/Lan/Changes.antt =====
-- The changes of hosts in foris_controller_backends/lan/__init__.py as blocks of transactions:
-- set_dhcp_client, update_dhcp_client and delete_dhcp_client.
use Prim.Native.String.{◌++◌ as append}
use foris_controller.Prelude.{
  String, ◌==◌, Bool, true, false, not, ◌&&◌, Option, none, some, List, [], ◌∷◌, filter, lookup,
  upper, if◌then◌else◌,
}
use foris_controller.Exceptions.{key_error, Result, ok, err, ◌>>=◌}
use foris_controller.Uci.{OptionValue, UciSection, UciData, get_sections_by_type}
use foris_controller.Uci.Backend.{
  Oracle, Uci, ◌>>=◌ as ◌>>>=◌, ◌>>◌, pure, add_section, set_option, del_section,
}
use foris_controller.Backends.{Call, run_calls, read_config, Numerals}
use foris_controller.Backends.Guest.{options}
use foris_controller.Backends.Guest.Transaction.{lift}
use foris_controller.Backends.Lan.{Combo, get_network_combo}
use foris_controller.Backends.Lan.Hosts.{
  Found, Refusal, exists, find_host, record_macs, is_member, is_text, hostname_is_unique,
  validate_dhcp_host_ip, set_refusal,
}

-- What update_dhcp_client decides: a refusal, nothing to do, or the section to change.
pub data Plan : Type 0 where
  refuse : (reason : String) → Plan
  unchanged : Plan
  change : (section : UciSection) (macs : List String) → Plan

-- section["data"][name]
abbrev pub required : String → UciSection → Result OptionValue
required name s = elim (lookup name s.options) [
  | none ↦ err (key_error name)
  | some value ↦ ok value
]

-- " ".join(macs)
unfoldable pub joined : List String → String
joined [] = ""
joined (mac ∷ []) = mac
joined (mac ∷ next ∷ macs) = append mac (String.◌∷◌ " " (joined (next ∷ macs)))

-- An address that is taken does not count when the host has it already.
abbrev pub refuses : Bool → Refusal → Refusal
refuses same_ip none = none
refuses same_ip (some reason) = if reason == "ip-exists" && same_ip then none else some reason

abbrev pub planned : Refusal → Result Plan → Result Plan
planned none later = later
planned (some reason) later = ok (refuse reason)

module _ (numerals : Numerals) (network_data dhcp_data : UciData) where
  module _ (ip new_mac hostname : String) where
    -- The tests after the one on the address.
    unfoldable pub names_free :
        (hosts : List UciSection) (section : UciSection) (macs : List String)
        (current_hostname : OptionValue)
        → Result Plan
    names_free hosts section macs current_hostname =
        if not (hostname_is_unique hostname hosts) && not (is_text hostname (some current_hostname))
        then ok (refuse "hostname-exists")
        else find_host new_mac hosts >>= λ existing. ok (
            if exists existing && not (is_member new_mac macs)
            then refuse "mac-exists"
            else change section macs)

    unfoldable pub update_found :
        Combo → (hosts : List UciSection) (section : UciSection) (macs : List String) → Result Plan
    update_found combo hosts section macs = required "ip" section >>= λ current_ip.
        required "name" section >>= λ current_hostname.
        let same_ip = is_text ip (some current_ip) in
        if is_text hostname (some current_hostname) && same_ip && is_member new_mac macs
        then ok unchanged
        else validate_dhcp_host_ip numerals network_data dhcp_data hosts ip combo >>= λ reason.
            planned (refuses same_ip reason) (names_free hosts section macs current_hostname)

    abbrev pub plan_for : Combo → (hosts : List UciSection) → Option Found → Result Plan
    plan_for combo hosts none = ok (refuse "mac-not-exists")
    plan_for combo hosts (some (section, macs)) = update_found combo hosts section macs

  -- update_dhcp_client up to the changes
  unfoldable pub update_plan : (ip old_mac mac hostname : String) → Result Plan
  update_plan ip old_mac mac hostname = get_network_combo network_data >>= λ combo.
      get_sections_by_type dhcp_data "dhcp" "host" >>= λ hosts.
      find_host (upper old_mac) hosts
      >>= plan_for ip (upper mac) hostname combo (record_macs (upper old_mac) hosts)

-- The options of a new host.
abbrev pub new_host : (section_name ip mac hostname : String) → List Call
new_host section_name ip mac hostname =
    options "dhcp" section_name (
      ("mac", mac)
      ∷ ("ip", ip)
      ∷ ("name", hostname)
      ∷ ("leasetime", "infinite")
      ∷ ("dns", "1")
      ∷ [])

abbrev pub changed_host : (section_name ip mac hostname : String) → List Call
changed_host section_name ip mac hostname =
    options "dhcp" section_name (("mac", mac) ∷ ("ip", ip) ∷ ("name", hostname) ∷ [])

-- An anonymous section has a name always.
abbrev pub named : Option String → String
named none = ""
named (some name) = name

abbrev pub is_single : List String → Bool
is_single (mac ∷ []) = true
is_single _ = false

-- [e for e in macs if e != mac]
abbrev pub others : String → List String → List String
others mac macs = filter (λ e. not (e == mac)) macs

module _ (numerals : Numerals) (strip : String → String) (oracle : Oracle) where
  unfoldable pub add_host : (ip mac hostname : String) → Uci (Unit {0})
  add_host ip mac hostname = add_section strip oracle "dhcp" "host" none >>>= λ name.
      run_calls strip oracle (new_host (named name) ip mac hostname)

  abbrev pub then_add : (ip mac hostname : String) → Refusal → Uci Refusal
  then_add ip mac hostname none = add_host ip mac hostname >> pure none
  then_add ip mac hostname (some reason) = pure (some reason)

  unfoldable pub set_dhcp_client : (ip mac hostname : String) → Uci Refusal
  set_dhcp_client ip mac hostname = read_config strip oracle "dhcp" >>>= λ dhcp_data.
      read_config strip oracle "network" >>>= λ network_data.
      lift (set_refusal numerals network_data dhcp_data ip mac hostname)
      >>>= then_add ip (upper mac) hostname

  -- A section with several addresses is made anew.
  unfoldable pub section_for : UciSection → List String → Uci String
  section_for section macs =
      if is_single macs
      then pure section.name
      else del_section strip oracle "dhcp" section.name
        >> (add_section strip oracle "dhcp" "host" none >>>= λ name. pure (named name))

  abbrev pub then_change : (ip mac hostname : String) → Plan → Uci Refusal
  then_change ip mac hostname (refuse reason) = pure (some reason)
  then_change ip mac hostname unchanged = pure none
  then_change ip mac hostname (change section macs) = section_for section macs >>>= λ name.
      run_calls strip oracle (changed_host name ip mac hostname) >> pure none

  unfoldable pub update_dhcp_client : (ip old_mac mac hostname : String) → Uci Refusal
  update_dhcp_client ip old_mac mac hostname = read_config strip oracle "dhcp" >>>= λ dhcp_data.
      read_config strip oracle "network" >>>= λ network_data.
      lift (update_plan numerals network_data dhcp_data ip old_mac mac hostname)
      >>>= then_change ip (upper mac) hostname

  -- Of several addresses the others are kept.
  abbrev pub then_delete : String → Option Found → Uci Refusal
  then_delete mac none = pure (some "mac-not-exists")
  then_delete mac (some (section, macs)) =
      (if is_single macs
        then del_section strip oracle "dhcp" section.name
        else set_option strip oracle "dhcp" section.name "mac" (joined (others mac macs)))
      >> pure none

  unfoldable pub delete_dhcp_client : String → Uci Refusal
  delete_dhcp_client mac = read_config strip oracle "dhcp" >>>= λ dhcp_data.
      lift (get_sections_by_type dhcp_data "dhcp" "host" >>= λ hosts. find_host (upper mac) hosts)
      >>>= then_delete (upper mac)
