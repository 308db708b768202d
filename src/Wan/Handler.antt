-- ===== src/Wan/Handler.antt =====
-- The methods _cleanup, get_settings and update_settings of
-- foris_controller_modules/wan/handlers/mock.py.
pub mod Laws
use foris_controller.Prelude.{ℕ, String, ◌==◌, Bool, true, false, Option, none, some, if◌then◌else◌}
use foris_controller.Exceptions.{Raised, key_error, attribute_error, Result, ok, err, ◌>>=◌}
use foris_controller.Networks.{NetworksState, interface_count, interface_up_count}
use foris_controller.Wan.{
  WanState, WanSettings, wan_none, dhcp, static, pppoe, Wan6Settings, wan6_none, static6, dhcpv6,
  six_to_four, six_in_four, NewVlan, vlan_off, vlan_on, NewSettings, Settings, Qos, VlanSettings,
  hardware_mac_address, no_tunnel, no_static, no_static6,
}

unfoldable pub cleanup : WanState → WanState
cleanup s = record s {
  wan_type = "dhcp";
  wan_dhcp = none;
  wan_static = no_static;
  wan_pppoe = record { username = none; password = none };
  wan6_type = "none";
  wan6_static = no_static6;
  wan6_dhcpv6 = some "";
  wan6_6to4 = "";
  wan6_6in4 = no_tunnel none;
  custom_mac_enabled = false;
  custom_mac = none;
  mac_address = some hardware_mac_address;
}

unfoldable pub set_wan : WanSettings → WanState → WanState
set_wan wan_none s = record s { wan_type = "none" }
set_wan (dhcp hostname) s = record s { wan_type = "dhcp"; wan_dhcp = hostname }
set_wan (static a) s = record s { wan_type = "static"; wan_static = a }
set_wan (pppoe p) s = record s { wan_type = "pppoe"; wan_pppoe = p }

unfoldable pub set_wan6 : Wan6Settings → WanState → WanState
set_wan6 wan6_none s = record s { wan6_type = "none" }
set_wan6 (static6 a) s = record s { wan6_type = "static"; wan6_static = a }
set_wan6 (dhcpv6 duid) s = record s { wan6_type = "dhcpv6"; wan6_dhcpv6 = some duid }
set_wan6 (six_to_four a) s = record s { wan6_type = "6to4"; wan6_6to4 = a }
set_wan6 (six_in_four t) s = record s { wan6_type = "6in4"; wan6_6in4 = t }

unfoldable pub set_qos : Option Qos → Qos → Qos
set_qos none old = old
set_qos (some new) old = if new.enabled then new else record old { enabled = false }

-- `del` of a key that is not there raises, after "enabled" was set.
unfoldable pub set_vlan : Option NewVlan → VlanSettings → Result (Unit {0}) × VlanSettings
set_vlan none old = (ok tt, old)
set_vlan (some (vlan_on i)) old = (ok tt, record { enabled = true; vlan_id = some i })
set_vlan (some vlan_off) old = elim old.vlan_id [
  | none ↦ (err (key_error "vlan_id"), record { enabled = false; vlan_id = none })
  | some i ↦ (ok tt, record { enabled = false; vlan_id = none })
]

unfoldable pub update_settings : NewSettings → WanState → Result Bool × WanState
update_settings new s = finish (set_vlan new.vlan_settings s.vlan_settings)
  where
    stored : WanState
    stored = record (set_wan6 new.wan6_settings (set_wan new.wan_settings (cleanup s))) {
      custom_mac_enabled = new.custom_mac_enabled;
      custom_mac = new.custom_mac;
      qos = set_qos new.qos s.qos;
    }

    finish : Result (Unit {0}) × VlanSettings → Result Bool × WanState
    finish (ok _, v) = (ok true, record stored { vlan_settings = v; guide_set = true })
    finish (err e, v) = (err e, record stored { vlan_settings = v })

-- A hostname that is None or empty is left out.
abbrev pub named : Option String → Option String
named none = none
named (some h) = if h == "" then none else some h

-- wan_type is one of the four that the schema knows, and so is wan6_type below one of five.
unfoldable pub show_wan : WanState → WanSettings
show_wan s =
    if s.wan_type == "dhcp"
    then dhcp (named s.wan_dhcp)
    else if s.wan_type == "static"
    then static s.wan_static
    else if s.wan_type == "pppoe"
    then pppoe s.wan_pppoe
    else wan_none

abbrev pub no_dhcpv6 : Raised
no_dhcpv6 = attribute_error "'MockWanHandler' object has no attribute 'wan6_dhcpv6'"

-- Without a _cleanup there is no attribute wan6_dhcpv6, and reading it raises.
unfoldable pub show_wan6 : WanState → Result Wan6Settings
show_wan6 s =
    if s.wan6_type == "static"
    then ok (static6 s.wan6_static)
    else if s.wan6_type == "dhcpv6"
    then (elim s.wan6_dhcpv6 [ none ↦ err no_dhcpv6 | some duid ↦ ok (dhcpv6 duid) ])
    else if s.wan6_type == "6to4"
    then ok (six_to_four s.wan6_6to4)
    else if s.wan6_type == "6in4"
    then ok (six_in_four s.wan6_6in4)
    else ok wan6_none

-- A custom address that is enabled becomes the state's mac_address, after all that may raise.
unfoldable pub get_settings : NetworksState → WanState → Result Settings × WanState
get_settings nets s = finish shown
  where
    after : WanState
    after = record s { mac_address = s.custom_mac }

    finish : Result Settings → Result Settings × WanState
    finish (ok r) = (ok r, if s.custom_mac_enabled then after else s)
    finish (err e) = (err e, s)

    shown : Result Settings
    shown = do
      count ← interface_count "wan" nets
      up ← interface_up_count "wan" nets
      wan6 ← show_wan6 s
      ok (record {
        wan_settings = show_wan s;
        wan6_settings = wan6;
        custom_mac_enabled = s.custom_mac_enabled;
        custom_mac = if s.custom_mac_enabled then s.custom_mac else none;
        mac_address = if s.custom_mac_enabled then s.custom_mac else s.mac_address;
        interface_count = count;
        interface_up_count = up;
        qos = s.qos;
        vlan_settings = s.vlan_settings;
      })
