-- ===== src/Backends/Guest/Reading.antt =====
-- get_guest_enabled and get_guest_network_settings of foris_controller_backends/guest/__init__.py.
use foris_controller.Prelude.{ℕ, String, Bool, true, false, not, none, some, [], ◌∷◌}
use foris_controller.Exceptions.{uci_record_not_found, uci_type_exception, Result, ok, err, ◌>>=◌}
use foris_controller.Uci.{OptionValue, text, num, UciData, parse_bool, get_option_named}
use foris_controller.Backends.{Numerals, str_of, int_of, normalize_lease}

pub record Settings : Type 0 where
  pub enabled : Bool
  pub ip : OptionValue
  pub netmask : OptionValue
  pub qos_enabled : Bool
  pub upload : ℕ
  pub download : ℕ
  pub dhcp_enabled : Bool
  pub start : ℕ
  pub limit : ℕ
  pub lease_time : ℕ

-- a and b
abbrev pub and_also : Result Bool → Result Bool → Result Bool
and_also (ok true) r = r
and_also (ok false) r = ok false
and_also (err e) r = err e

-- except UciRecordNotFound: return False
abbrev pub or_false : Result Bool → Result Bool
or_false (err (uci_record_not_found _ _ _ _ _)) = ok false
or_false r = r

module _ (numerals : Numerals) where
  -- parse_bool of a value that is no text
  abbrev pub parse_value : OptionValue → Result Bool
  parse_value (text s) = parse_bool s
  parse_value v = err (uci_type_exception (str_of numerals v) ("bool" ∷ []))

  unfoldable pub test : UciData → String → String → String → Result Bool
  test data_ config section value =
      or_false (do v ← get_option_named data_ config section value none; parse_value v)

  unfoldable pub get_guest_enabled : (network_data firewall_data : UciData) → Result Bool
  get_guest_enabled network_data firewall_data =
      and_also (test network_data "network" "guest_turris" "enabled") (
        and_also (test firewall_data "firewall" "guest_turris" "enabled") (
          and_also (test firewall_data "firewall" "guest_turris_forward_wan" "enabled") (
            and_also (test firewall_data "firewall" "guest_turris_dhcp_rule" "enabled")
              (test firewall_data "firewall" "guest_turris_dns_rule" "enabled"))))

  -- "upload is actually download limit and vice versa"
  unfoldable pub get_guest_network_settings :
      (network_data firewall_data dhcp_data sqm_data : UciData) → Result Settings
  get_guest_network_settings network_data firewall_data dhcp_data sqm_data = do
    enabled ← get_guest_enabled network_data firewall_data
    ip ←
        get_option_named network_data "network" "guest_turris" "ipaddr" (some (text "10.111.222.1"))
    netmask ←
        get_option_named network_data "network" "guest_turris" "netmask"
          (some (text "255.255.255.0"))
    qos_text ← get_option_named sqm_data "sqm" "guest_limit_turris" "enabled" (some (text "0"))
    qos_enabled ← parse_value qos_text
    upload_text ← get_option_named sqm_data "sqm" "guest_limit_turris" "download" (some (num 1024))
    upload ← int_of numerals upload_text
    download_text ← get_option_named sqm_data "sqm" "guest_limit_turris" "upload" (some (num 1024))
    download ← int_of numerals download_text
    ignore_text ← get_option_named dhcp_data "dhcp" "guest_turris" "ignore" (some (text "0"))
    ignored ← parse_value ignore_text
    start_text ← get_option_named dhcp_data "dhcp" "guest_turris" "start" (some (num 100))
    start ← int_of numerals start_text
    limit_text ← get_option_named dhcp_data "dhcp" "guest_turris" "limit" (some (num 150))
    limit ← int_of numerals limit_text
    lease_text ← get_option_named dhcp_data "dhcp" "guest_turris" "leasetime" (some (num 3600))
    lease_time ← normalize_lease numerals lease_text
    ok record {
      enabled = enabled;
      ip = ip;
      netmask = netmask;
      qos_enabled = qos_enabled;
      upload = upload;
      download = download;
      dhcp_enabled = not ignored;
      start = start;
      limit = limit;
      lease_time = lease_time;
    }
