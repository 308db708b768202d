-- ===== src/Backends/Lan/Reading.antt =====
-- get_settings of the class LanUci in foris_controller_backends/lan/__init__.py. The lists of clients,
-- which come from files and from ubus, and the counts of interfaces are left out of what is read.
use foris_controller.Prelude.{
  ℕ, String, ◌==◌, Bool, not, Option, none, some, List, [], ◌∷◌, ◌++◌, filter, split_on,
  if◌then◌else◌,
}
use foris_controller.Exceptions.{attribute_error, Result, ok, err, ◌>>=◌}
use foris_controller.Ipaddress.{ip_address}
use foris_controller.Uci.{OptionValue, text, items, num, UciData, get_option_named, section_exists}
use foris_controller.Backends.{Numerals, int_of, normalize_lease}
use foris_controller.Backends.Guest.Reading.{parse_value}
use foris_controller.Backends.Lan.{get_network_combo}
use foris_controller.Backends.Lan.Hosts.{is_ignored}

pub record Managed : Type 0 where
  pub mode : OptionValue
  pub router_ip : String
  pub netmask : OptionValue
  pub gateway : OptionValue
  pub enabled : Bool
  pub start : ℕ
  pub limit : ℕ
  pub lease_time : ℕ

pub record Unmanaged : Type 0 where
  pub lan_type : OptionValue
  pub hostname : OptionValue
  pub dns : List String

pub record Qos : Type 0 where
  pub enabled : Bool
  pub upload : ℕ
  pub download : ℕ

pub record Settings : Type 0 where
  pub managed : Managed
  pub unmanaged : Unmanaged
  pub qos : Qos
  pub lan_redirect : Option Bool

abbrev pub reversed : List String → List String
reversed [] = []
reversed (x ∷ xs) = reversed xs ++ x ∷ []

-- A list stays what it is; a text is split and its empty parts are left out.
abbrev pub dns_list : OptionValue → Result (List String)
dns_list (items values) = ok values
dns_list (text s) = ok (filter (λ e. not (e == "")) (split_on 32 s))
dns_list (num n) = err (attribute_error "object has no attribute 'split'")

abbrev pub first_two : List String → List String
first_two (a ∷ b ∷ rest) = a ∷ b ∷ []
first_two l = l

-- The IPv4 addresses of the list; a text that is no address leaves none.
module _ (is_ipv6 : String → Bool) where
  abbrev pub ipv4_only : List String → Option (List String)
  ipv4_only [] = some []
  ipv4_only (e ∷ rest) = elim (ipv4_only rest) [
    | none ↦ none
    | some kept ↦ elim (ip_address e) [
      | ok a ↦ some (e ∷ kept)
      | err x ↦ if is_ipv6 e then some kept else none
    ]
  ]

  abbrev pub dns_shown : List String → List String
  dns_shown dns = elim (ipv4_only (reversed dns)) [ none ↦ [] | some kept ↦ first_two kept ]

module _ (numerals : Numerals) where
  unfoldable pub get_managed : (network_data dhcp_data : UciData) → Result Managed
  get_managed network_data dhcp_data = do
    mode ← get_option_named network_data "network" "lan" "_turris_mode" (some (text "managed"))
    combo ← get_network_combo network_data
    ignored ← is_ignored numerals network_data dhcp_data
    start_text ← get_option_named dhcp_data "dhcp" "lan" "start" (some (num 100))
    start ← int_of numerals start_text
    limit_text ← get_option_named dhcp_data "dhcp" "lan" "limit" (some (num 150))
    limit ← int_of numerals limit_text
    lease_text ← get_option_named dhcp_data "dhcp" "lan" "leasetime" (some (num 43200))
    lease_time ← normalize_lease numerals lease_text
    ok record {
      mode = mode;
      router_ip = combo.router_ip;
      netmask = combo.netmask;
      gateway = combo.gateway;
      enabled = not ignored;
      start = start;
      limit = limit;
      lease_time = lease_time;
    }

  unfoldable pub get_unmanaged : (is_ipv6 : String → Bool) → UciData → Result Unmanaged
  get_unmanaged is_ipv6 network_data = do
    lan_type ← get_option_named network_data "network" "lan" "proto" none
    hostname ← get_option_named network_data "network" "lan" "hostname" (some (text ""))
    dns_value ← get_option_named network_data "network" "lan" "dns" (some (items []))
    dns ← dns_list dns_value
    ok record { lan_type = lan_type; hostname = hostname; dns = dns_shown is_ipv6 dns }

  -- "upload is actually download limit nad vice versa"
  unfoldable pub get_qos : UciData → Result Qos
  get_qos sqm_data = do
    enabled_text ← get_option_named sqm_data "sqm" "limit_lan_turris" "enabled" (some (text "0"))
    enabled ← parse_value numerals enabled_text
    upload_text ← get_option_named sqm_data "sqm" "limit_lan_turris" "download" (some (num 1024))
    upload ← int_of numerals upload_text
    download_text ← get_option_named sqm_data "sqm" "limit_lan_turris" "upload" (some (num 1024))
    download ← int_of numerals download_text
    ok record { enabled = enabled; upload = upload; download = download }

  -- The redirect is shown when there is a section for it.
  unfoldable pub get_lan_redirect : UciData → Result (Option Bool)
  get_lan_redirect firewall_data =
      section_exists firewall_data "firewall" "redirect_192_168_1_1" >>= λ exists.
      if exists
      then (do
        enabled_text ←
            get_option_named firewall_data "firewall" "redirect_192_168_1_1" "enabled"
              (some (text "1"))
        enabled ← parse_value numerals enabled_text
        ok (some enabled))
      else ok none

  unfoldable pub get_settings :
      (is_ipv6 : String → Bool) (network_data sqm_data dhcp_data firewall_data : UciData)
      → Result Settings
  get_settings is_ipv6 network_data sqm_data dhcp_data firewall_data = do
    managed ← get_managed network_data dhcp_data
    unmanaged ← get_unmanaged is_ipv6 network_data
    qos ← get_qos sqm_data
    lan_redirect ← get_lan_redirect firewall_data
    ok record { managed = managed; unmanaged = unmanaged; qos = qos; lan_redirect = lan_redirect }
