-- ===== src/Backends/Lan/Hosts.antt =====
-- The methods of LanUci in foris_controller_backends/lan/__init__.py on the hosts with a configured
-- address. The restart of dnsmasq, which follows on each transaction, is left out.
-- The sections of type host are looked up once: the lookups later in a method are on the same data,
-- in which only the MAC addresses of a section that was found have become a list.
use foris_controller.Prelude.{
  String, ◌==◌, Bool, true, false, not, ◌&&◌, Option, none, some, List, [], ◌∷◌, any, lookup,
  insert, upper, if◌then◌else◌,
}
use foris_controller.Exceptions.{Result, ok, err, ◌>>=◌}
use foris_controller.Uci.{
  OptionValue, text, items, UciSection, UciData, get_option_named, get_sections_by_type,
}
use foris_controller.Backends.{Numerals, str_of}
use foris_controller.Backends.Guest.Reading.{parse_value}
use foris_controller.Backends.Lan.{Combo, get_network_combo, in_lan, process_uci_mac_addresses}

-- A host section that was found, with its MAC addresses.
abbrev pub Found : Type 0
Found = UciSection × List String

abbrev pub is_member : String → List String → Bool
is_member mac macs = any (λ e. e == mac) macs

-- value == s, for a value that may be missing
abbrev pub is_text : String → Option OptionValue → Bool
is_text s (some (text t)) = t == s
is_text s _ = false

abbrev pub check_host :
    String → UciSection → Result (Option Found) → Option OptionValue → Result (Option Found)
check_host mac s rest none = rest
check_host mac s rest (some value) = process_uci_mac_addresses value >>= λ macs.
    if is_member (upper mac) macs then ok (some (s, macs)) else rest

-- _get_host_record_section
unfoldable pub find_host : String → List UciSection → Result (Option Found)
find_host mac [] = ok none
find_host mac (s ∷ rest) = check_host mac s (find_host mac rest) (lookup "mac" s.options)

abbrev pub record_in :
    String → UciSection → (rest recorded : List UciSection) → Result (List String) → List UciSection
record_in mac s rest recorded (err e) = s ∷ recorded
record_in mac s rest recorded (ok macs) =
    if is_member (upper mac) macs
    then record s { options = insert "mac" (items macs) s.options } ∷ rest
    else s ∷ recorded

abbrev pub record_at :
    String → UciSection → (rest recorded : List UciSection) → Option OptionValue → List UciSection
record_at mac s rest recorded none = s ∷ recorded
record_at mac s rest recorded (some value) =
    record_in mac s rest recorded (process_uci_mac_addresses value)

-- section["data"]["mac"] = macs
unfoldable pub record_macs : String → List UciSection → List UciSection
record_macs mac [] = []
record_macs mac (s ∷ rest) = record_at mac s rest (record_macs mac rest) (lookup "mac" s.options)

abbrev pub is_present : Option OptionValue → Bool
is_present none = false
is_present (some value) = true

abbrev pub minimal_valid_host_section : UciSection → Bool
minimal_valid_host_section s =
    is_present (lookup "mac" s.options) && is_present (lookup "ip" s.options)

unfoldable pub ip_is_unique : String → List UciSection → Bool
ip_is_unique ip hosts =
    not (any (λ s. minimal_valid_host_section s && is_text ip (lookup "ip" s.options)) hosts)

unfoldable pub hostname_is_unique : String → List UciSection → Bool
hostname_is_unique hostname hosts =
    not
      (any (λ s. minimal_valid_host_section s && is_text hostname (lookup "name" s.options)) hosts)

-- "mac-exists" and the like, or nothing against the change
abbrev pub Refusal : Type 0
Refusal = Option String

abbrev pub unless : Refusal → Result Refusal → Result Refusal
unless none later = later
unless (some reason) later = ok (some reason)

-- The lookups of _host_record_exists
abbrev pub exists : Option Found → Bool
exists none = false
exists (some found) = true

module _ (numerals : Numerals) (network_data dhcp_data : UciData) where
  unfoldable pub is_ignored : Result Bool
  is_ignored = do
    ignore_text ← get_option_named dhcp_data "dhcp" "lan" "ignore" (some (text "0"))
    parse_value numerals ignore_text

  -- The mode is "managed", and "ignore" is not set.
  unfoldable pub serves_dhcp : Result Bool
  serves_dhcp = do
    mode ← get_option_named network_data "network" "lan" "_turris_mode" (some (text "managed"))
    (if is_text "managed" (some mode)
        then is_ignored >>= (λ ignored. ok (not ignored))
        else ok false)

  unfoldable pub validate_dhcp_host_ip :
      (hosts : List UciSection) (ip : String) → Combo → Result Refusal
  validate_dhcp_host_ip hosts ip combo =
      if ip == "ignore"
      then ok none
      else in_lan ip combo.router_ip (str_of numerals combo.netmask) >>= λ fits.
          if fits then serves_dhcp >>= taken else ok (some "out-of-network")
    where
      taken : Bool → Result Refusal
      taken serves = ok (
          if serves
          then (if ip_is_unique ip hosts then none else some "ip-exists")
          else some "disabled")

  -- set_dhcp_client up to the new section
  unfoldable pub set_refusal : (ip mac hostname : String) → Result Refusal
  set_refusal ip mac hostname = do
    combo ← get_network_combo network_data
    hosts ← get_sections_by_type dhcp_data "dhcp" "host"
    existing ← find_host (upper mac) hosts
    (if exists existing
        then ok (some "mac-exists")
        else validate_dhcp_host_ip hosts ip combo >>= λ reason.
            unless reason
              (ok (if hostname_is_unique hostname hosts then none else some "hostname-exists")))
