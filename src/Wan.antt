-- ===== src/Wan.antt =====
-- foris_controller_modules/wan/handlers/mock.py: the settings of the WAN. The settings that a
-- request brings have passed the schema; each kind of them is a constructor. The handler is one
-- object, so its attributes and those of its class are one record.
pub mod Handler
mod Tests
use foris_controller.Prelude.{ℕ, String, ◌==◌, Bool, true, false, Option, none, some, if◌then◌else◌}
use foris_controller.Exceptions.{Raised, key_error, type_error, Result, ok, err, ◌>>=◌}
use foris_controller.Networks.{NetworksState, interface_count, interface_up_count}

pub record Static : Type 0 where
  pub ip : Option String
  pub netmask : Option String
  pub gateway : Option String
  pub dns1 : Option String
  pub dns2 : Option String

pub record Static6 : Type 0 where
  pub ip : Option String
  pub network : Option String
  pub gateway : Option String
  pub dns1 : Option String
  pub dns2 : Option String

pub record Pppoe : Type 0 where
  pub username : Option String
  pub password : Option String

-- dynamic_ipv4: the last three keys stand there when it is enabled.
pub record DynamicIpv4 : Type 0 where
  pub enabled : Bool
  pub tunnel_id : Option String
  pub username : Option String
  pub password_or_key : Option String

pub record Tunnel : Type 0 where
  pub mtu : ℕ
  pub server_ipv4 : String
  pub ipv6_prefix : String
  pub ipv6_address : Option String
  pub dynamic_ipv4 : DynamicIpv4

pub record Qos : Type 0 where
  pub enabled : Bool
  pub upload : ℕ
  pub download : ℕ

pub record VlanSettings : Type 0 where
  pub enabled : Bool
  pub vlan_id : Option ℕ

pub record WanState : Type 0 where
  pub guide_set : Bool
  pub wan_type : String
  pub wan_dhcp : Option String
  pub wan_static : Static
  pub wan_pppoe : Pppoe
  pub wan6_type : String
  pub wan6_static : Static6
  -- `none` before the first _cleanup, which makes the attribute
  pub wan6_dhcpv6 : Option String
  pub wan6_6to4 : String
  pub wan6_6in4 : Tunnel
  pub custom_mac_enabled : Bool
  pub custom_mac : Option String
  pub mac_address : Option String
  pub qos : Qos
  pub vlan_settings : VlanSettings

-- wan_settings; the texts of a static address are there in a request.
pub data WanSettings : Type 0 where
  wan_none : WanSettings
  dhcp : (hostname : Option String) → WanSettings
  static : Static → WanSettings
  pppoe : Pppoe → WanSettings

pub data Wan6Settings : Type 0 where
  wan6_none : Wan6Settings
  static6 : Static6 → Wan6Settings
  dhcpv6 : (duid : String) → Wan6Settings
  six_to_four : (ipv4_address : String) → Wan6Settings
  six_in_four : Tunnel → Wan6Settings

pub data NewVlan : Type 0 where
  vlan_off : NewVlan
  vlan_on : (vlan_id : ℕ) → NewVlan

pub record NewSettings : Type 0 where
  pub wan_settings : WanSettings
  pub wan6_settings : Wan6Settings
  pub custom_mac_enabled : Bool
  pub custom_mac : Option String
  pub qos : Option Qos
  pub vlan_settings : Option NewVlan

pub record Settings : Type 0 where
  pub wan_settings : WanSettings
  pub wan6_settings : Wan6Settings
  pub custom_mac_enabled : Bool
  pub custom_mac : Option String
  pub mac_address : Option String
  pub interface_count : ℕ
  pub interface_up_count : ℕ
  pub qos : Qos
  pub vlan_settings : VlanSettings

abbrev pub hardware_mac_address : String
hardware_mac_address = "de:ad:be:ef:99:99"

abbrev pub no_tunnel : Option String → Tunnel
no_tunnel ipv6_address = record {
  mtu = 1480;
  server_ipv4 = "";
  ipv6_prefix = "";
  ipv6_address = ipv6_address;
  dynamic_ipv4 = record {
    enabled = false;
    tunnel_id = none;
    username = none;
    password_or_key = none;
  };
}

abbrev pub no_static : Static
no_static = record { ip = none; netmask = none; gateway = none; dns1 = none; dns2 = none }

abbrev pub no_static6 : Static6
no_static6 = record { ip = none; network = none; gateway = none; dns1 = none; dns2 = none }

abbrev pub initial : WanState
initial = record {
  guide_set = false;
  wan_type = "none";
  wan_dhcp = none;
  wan_static = no_static;
  wan_pppoe = record { username = none; password = none };
  wan6_type = "none";
  wan6_static = no_static6;
  wan6_dhcpv6 = none;
  wan6_6to4 = "";
  wan6_6in4 = no_tunnel (some "");
  custom_mac_enabled = false;
  custom_mac = none;
  mac_address = some hardware_mac_address;
  qos = record { enabled = false; upload = 1024; download = 1024 };
  vlan_settings = record { enabled = false; vlan_id = none };
}
