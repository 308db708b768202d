-- ===== src/Backends/Wan/Reading.antt =====
-- get_settings of the class WanUci in foris_controller_backends/wan/__init__.py. The counts of
-- interfaces are left out; the MAC addresses of the ports of the WAN, which come from the hardware, are
-- a parameter.
use foris_controller.Prelude.{
  ℕ, String, Bool, true, false, ◌&&◌, Option, none, some, List, [], ◌∷◌, split_on, if◌then◌else◌,
}
use foris_controller.Exceptions.{attribute_error, type_error, Result, ok, err, ◌>>=◌}
use foris_controller.Uci.{OptionValue, text, items, num, UciData, get_option_named, section_exists}
use foris_controller.Backends.{Numerals, int_of}
use foris_controller.Backends.Guest.Reading.{parse_value}
use foris_controller.Backends.Lan.{unwrap_list}
use foris_controller.Backends.Lan.Hosts.{is_text, is_member}
use foris_controller.Backends.Lan.Reading.{dns_list, first_two, reversed}
use foris_controller.Backends.Lan.Update.{is_truthy}
use foris_controller.Wan.{NewVlan, vlan_off, vlan_on}

pub data WanRead : Type 0 where
  read_dhcp : (hostname : OptionValue) → WanRead
  read_static : (ip netmask gateway : OptionValue) (dns : List String) → WanRead
  read_pppoe : (username password : OptionValue) → WanRead
  read_type : (wan_type : OptionValue) → WanRead

pub record Account : Type 0 where
  pub tunnel_id : OptionValue
  pub username : OptionValue
  pub password_or_key : OptionValue

pub data Wan6Read : Type 0 where
  read_static6 : (ip network gateway : OptionValue) (dns : List String) → Wan6Read
  read_dhcpv6 : (duid : OptionValue) → Wan6Read
  read_6to4 : (ipv4_address : OptionValue) → Wan6Read
  read_6in4 :
      (ipv6_prefix : OptionValue) (mtu : ℕ) (server_ipv4 ipv6_address : OptionValue)
      (dynamic_ipv4 : Option Account)
      → Wan6Read
  read_type6 : (wan6_type : OptionValue) → Wan6Read

pub record Qos : Type 0 where
  pub enabled : Bool
  pub upload : ℕ
  pub download : ℕ

-- `custom_mac` is there when it is enabled.
pub record Settings : Type 0 where
  pub wan_settings : WanRead
  pub wan6_settings : Wan6Read
  pub mac_address : String
  pub custom_mac : Option OptionValue
  pub vlan_settings : NewVlan
  pub qos : Qos

-- The names dns1 and dns2 go to the last two of the list.
abbrev pub dns_read : UciData → String → Result (List String)
dns_read network_data section =
    get_option_named network_data "network" section "dns" (some (items [])) >>= dns_list >>= λ dns.
    ok (first_two (reversed dns))

module _ (network_data : UciData) where
  abbrev pub wan_option : String → Option OptionValue → Result OptionValue
  wan_option name default = get_option_named network_data "network" "wan" name default

  abbrev pub wan6_option : String → OptionValue → Result OptionValue
  wan6_option name default = get_option_named network_data "network" "wan6" name (some default)

  abbrev pub get_static : Result WanRead
  get_static = do
    ip ← wan_option "ipaddr" none
    netmask ← wan_option "netmask" none
    gateway ← wan_option "gateway" none
    dns ← dns_read network_data "wan"
    ok (read_static ip netmask gateway dns)

  unfoldable pub get_wan : Result WanRead
  get_wan = wan_option "proto" none >>= λ wan_type.
      if is_text "dhcp" (some wan_type)
      then wan_option "hostname" (some (text "")) >>= (λ hostname. ok (read_dhcp hostname))
      else if is_text "static" (some wan_type)
      then get_static
      else if is_text "pppoe" (some wan_type)
      then wan_option "username" (some (text "")) >>= (λ username.
        wan_option "password" (some (text "")) >>= (λ password. ok (read_pppoe username password)))
      else ok (read_type wan_type)

  abbrev pub get_static6 : Result Wan6Read
  get_static6 = do
    ip ← wan6_option "ip6addr" (text "")
    network ← wan6_option "ip6prefix" (text "")
    gateway ← wan6_option "ip6gw" (text "")
    dns ← dns_read network_data "wan6"
    ok (read_static6 ip (unwrap_list network) gateway dns)

  abbrev pub account_of : (tunnel_id username password : OptionValue) → Option Account
  account_of tunnel_id username password =
      if is_truthy tunnel_id && is_truthy username && is_truthy password
      then some (record { tunnel_id = tunnel_id; username = username; password_or_key = password })
      else none

  abbrev pub get_6in4 : Numerals → Result Wan6Read
  get_6in4 numerals = do
    prefix ← wan6_option "ip6prefix" (text "")
    mtu_text ← wan6_option "mtu" (text "1480")
    mtu ← int_of numerals mtu_text
    server ← wan6_option "peeraddr" (text "")
    address ← wan6_option "ip6addr" (text "")
    tunnel_id ← wan6_option "tunnelid" (text "")
    username ← wan6_option "username" (text "")
    password ← wan6_option "password" (text "")
    ok (
        read_6in4 (unwrap_list prefix) mtu server (unwrap_list address)
          (account_of tunnel_id username password))

  unfoldable pub get_wan6 : Numerals → Result Wan6Read
  get_wan6 numerals = wan6_option "proto" (text "dhcpv6") >>= λ wan6_type.
      if is_text "static" (some wan6_type)
      then get_static6
      else if is_text "dhcpv6" (some wan6_type)
      then wan6_option "clientid" (text "") >>= (λ duid. ok (read_dhcpv6 duid))
      else if is_text "6to4" (some wan6_type)
      then wan6_option "ipaddr" (text "") >>= (λ address. ok (read_6to4 address))
      else if is_text "6in4" (some wan6_type)
      then get_6in4 numerals
      else ok (read_type6 wan6_type)

  -- _fetch_mac_address
  unfoldable pub fetch_mac_address : Result OptionValue
  fetch_mac_address = section_exists network_data "network" "dev_wan" >>= λ exists.
      if exists
      then get_option_named network_data "network" "dev_wan" "macaddr" (some (text ""))
      else wan_option "macaddr" (some (text ""))

abbrev pub last_part : List String → String
last_part [] = ""
last_part (part ∷ []) = part
last_part (part ∷ next ∷ parts) = last_part (next ∷ parts)

-- "." in wan_device
abbrev pub has_parts : List String → Bool
has_parts (part ∷ next ∷ parts) = true
has_parts _ = false

-- The VLAN is what follows on the last dot of the device.
unfoldable pub vlan_of : Numerals → String → Result NewVlan
vlan_of numerals wan_device =
    if has_parts (split_on b'.' wan_device)
    then numerals.int (last_part (split_on b'.' wan_device)) >>= (λ vlan_id. ok (vlan_on vlan_id))
    else ok vlan_off

-- A list has an `in` but no rsplit; one without the item "." is no VLAN.
abbrev pub vlan_read : Numerals → OptionValue → Result NewVlan
vlan_read numerals (text wan_device) = vlan_of numerals wan_device
vlan_read numerals (items devices) =
    if is_member "." devices
    then err (attribute_error "object has no attribute 'rsplit'")
    else ok vlan_off
vlan_read numerals (num n) = err type_error

unfoldable pub get_qos : Numerals → UciData → Result Qos
get_qos numerals sqm_data = do
  enabled_text ← get_option_named sqm_data "sqm" "wan_limit_turris" "enabled" (some (text "0"))
  enabled ← parse_value numerals enabled_text
  upload_text ← get_option_named sqm_data "sqm" "wan_limit_turris" "upload" (some (num 1024))
  upload ← int_of numerals upload_text
  download_text ← get_option_named sqm_data "sqm" "wan_limit_turris" "download" (some (num 1024))
  download ← int_of numerals download_text
  ok record { enabled = enabled; upload = upload; download = download }

-- wan[0]["macaddr"], or nothing without a port
abbrev pub first_address : List String → String
first_address [] = ""
first_address (macaddr ∷ rest) = macaddr

abbrev pub custom_mac_of : OptionValue → Option OptionValue
custom_mac_of value = if is_truthy value then some value else none

unfoldable pub get_settings :
    Numerals → (port_addresses : List String) (network_data sqm_data : UciData) → Result Settings
get_settings numerals port_addresses network_data sqm_data = do
  wan ← get_wan network_data
  wan6 ← get_wan6 network_data numerals
  custom_mac ← fetch_mac_address network_data
  wan_device ← get_option_named network_data "network" "wan" "device" (some (text ""))
  vlan ← vlan_read numerals wan_device
  qos ← get_qos numerals sqm_data
  ok record {
    wan_settings = wan;
    wan6_settings = wan6;
    mac_address = first_address port_addresses;
    custom_mac = custom_mac_of custom_mac;
    vlan_settings = vlan;
    qos = qos;
  }
