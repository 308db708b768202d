-- ===== src/Backends/Wan.antt =====
-- The class WanUci of foris_controller_backends/wan/__init__.py: the names and the lists of calls that
-- update_settings is made of, and the search for a zone in foris_controller_backends/networks/__init__.py.
-- The settings are those that the mock handler takes too; a key that is missing raises.
pub mod Update
pub mod Reading
pub mod Shown
mod Tests
use Prim.Native.String.{◌++◌ as append}
use foris_controller.Prelude.{
  ℕ, String, ◌==◌, Bool, true, false, not, Option, none, some, List, [], ◌∷◌, ◌++◌, map, lookup,
  split_on, if◌then◌else◌,
}
use foris_controller.Exceptions.{
  Raised, uci_exception, uci_record_not_found, key_error, attribute_error, Result, ok, err, ◌>>=◌,
}
use foris_controller.Uci.{
  OptionValue, text, items, num, UciSection, UciData, get_option_named, get_sections_by_type,
}
use foris_controller.Uci.Backend.{
  Trace, Oracle, Uci, ◌>>=◌ as ◌>>>=◌, ◌>>◌, pure, set_option, del_option, add_to_list,
  replace_list, with_backend,
}
use foris_controller.Wan.{
  Static, Static6, Pppoe, DynamicIpv4, Tunnel, Qos, WanSettings, wan_none, dhcp, static, pppoe,
  Wan6Settings, wan6_none, static6, dhcpv6, six_to_four, six_in_four, NewVlan, vlan_off, vlan_on,
  NewSettings,
}
use foris_controller.Backends.{
  Call, section, option, replaced, run_calls, read_config, except_uci, Numerals, str_of,
}
use foris_controller.Backends.Guest.{options, stored}
use foris_controller.Backends.Guest.Transaction.{lift}
use foris_controller.Backends.Lan.{parse_to_list}
use foris_controller.Backends.Lan.Hosts.{is_text}
use foris_controller.Backends.Lan.Update.{dns_of, is_truthy}

-- settings[key]
abbrev pub key_text : String → Option String → Result String
key_text name none = err (key_error name)
key_text name (some value) = ok value

abbrev pub wan_type : WanSettings → String
wan_type wan_none = "none"
wan_type (dhcp hostname) = "dhcp"
wan_type (static address) = "static"
wan_type (pppoe account) = "pppoe"

abbrev pub wan6_type : Wan6Settings → String
wan6_type wan6_none = "none"
wan6_type (static6 address) = "static"
wan6_type (dhcpv6 duid) = "dhcpv6"
wan6_type (six_to_four ipv4_address) = "6to4"
wan6_type (six_in_four tunnel) = "6in4"

abbrev pub rule_6in4 : String
rule_6in4 = "turris_wan_6in4_rule"

abbrev pub rule_6to4 : String
rule_6to4 = "turris_wan_6to4_rule"

abbrev pub rule_calls : String → List (String × String) → List Call
rule_calls name values = section "firewall" "rule" name ∷ options "firewall" name values

-- wan_device.split(".", maxsplit=1)[0]
abbrev pub base_device : String → String
base_device wan_device = elim (split_on b'.' wan_device) [ [] ↦ "" | base ∷ rest ↦ base ]

-- Only a text has a split.
abbrev pub device_text : OptionValue → Result String
device_text (text s) = ok s
device_text _ = err (attribute_error "object has no attribute 'split'")

-- The name of the firewall zone's section that is called wan. A zone without a name raises.
unfoldable pub wan_zone : List UciSection → Result String
wan_zone [] = err (uci_record_not_found "firewall" none (some "zone") none none)
wan_zone (zone ∷ rest) = elim (lookup "name" zone.options) [
  | none ↦ err (key_error "name")
  | some name ↦ if is_text "wan" (some name) then ok zone.name else wan_zone rest
]

module _ (numerals : Numerals) where
  -- The device of an interface with this VLAN.
  unfoldable pub vlan_device : String → NewVlan → String
  vlan_device wan_device vlan_off = base_device wan_device
  vlan_device wan_device (vlan_on vlan_id) =
      append (base_device wan_device) (append "." (numerals.show vlan_id))

  abbrev pub vlan_calls : String → List Call
  vlan_calls device =
      option "network" "wan" "device" device ∷ option "network" "dev_wan" "name" device ∷ []

  abbrev pub limit_calls : String → Qos → List Call
  limit_calls wan_device qos =
      if qos.enabled
      then section "sqm" "queue" "wan_limit_turris"
        ∷ options "sqm" "wan_limit_turris" (
            ("interface", wan_device)
            ∷ ("download", numerals.show qos.download)
            ∷ ("upload", numerals.show qos.upload)
            ∷ ("script", "piece_of_cake.qos")
            ∷ [])
      else []

  abbrev pub qos_calls : String → Qos → List Call
  qos_calls wan_device qos =
      limit_calls wan_device qos
      ++ (option "sqm" "wan_limit_turris" "enabled" (stored qos.enabled) ∷ [])
