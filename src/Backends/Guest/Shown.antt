-- ===== src/Backends/Guest/Shown.antt =====
-- What is read of a configuration that has the options of a request.
use foris_controller.Prelude.{ℕ, String, ◌≡◌, refl, ap, ◌∙◌, Bool, true, false, none, some, All}
use foris_controller.Exceptions.{ok, ◌>>=◌}
use foris_controller.Uci.{text, num, UciData, parse_bool, get_option_named}
use foris_controller.Backends.{Numerals, int_of, normalize_lease-lease_option, lease_option}
use foris_controller.Backends.Calls.{Shows, value_of, shown, shown_default}
use foris_controller.Backends.Guest.{
  Range, Limits, Network, Request, stored, is_enabled, network_settings, limits_settings,
}
use foris_controller.Backends.Guest.Reading.{
  Settings, or_false, parse_value, test, get_guest_enabled, get_guest_network_settings,
}

-- The request's network with its range and limits, as they are read.
abbrev pub settings_of : String → String → Range → ℕ → ℕ → Settings
settings_of ip netmask range download upload = record {
  enabled = true;
  ip = text ip;
  netmask = text netmask;
  qos_enabled = true;
  upload = upload;
  download = download;
  dhcp_enabled = true;
  start = range.start;
  limit = range.limit;
  lease_time = range.lease_time;
}

abbrev pub full : String → String → Range → ℕ → ℕ → Network
full ip netmask range download upload = record {
  ip = ip;
  netmask = netmask;
  dhcp = some range;
  qos = some (record { download = some download; upload = some upload });
}

abbrev pub limits_of : ℕ → ℕ → Limits
limits_of download upload = record { download = some download; upload = some upload }

module _ (numerals : Numerals) (read_of : String → UciData) where
  parse_bool-stored : (b : Bool) → parse_bool (stored b) ≡ ok b
  unfolding parse_bool
  parse_bool-stored true = refl
  parse_bool-stored false = refl

  test-shown :
      (request : Request) (config section : String)
      → get_option_named (read_of config) config section "enabled" none
        ≡ ok (text (stored (is_enabled request)))
      → test numerals (read_of config) config section "enabled" ≡ ok (is_enabled request)
  unfolding test
  test-shown request config section e =
      let read = parse_bool-stored (is_enabled request) in
      ap or_false (ap (λ r. r >>= λ v. parse_value numerals v) e ∙ read)

  enabled-shown :
      (request : Request) (config section : String)
      → All (Shows read_of) (network_settings numerals request)
      → value_of (network_settings numerals request) config section "enabled"
        ≡ some (stored (is_enabled request))
      → test numerals (read_of config) config section "enabled" ≡ ok (is_enabled request)
  enabled-shown request config section h e = test-shown request config section (
      shown read_of (network_settings numerals request) config section "enabled"
        (stored (is_enabled request)) h e)

  -- When the configuration has the options that were set for a request, the guest network is read as
  -- enabled just when the request enables it.
  pub get_guest_enabled-request :
      (request : Request)
      → All (Shows read_of) (network_settings numerals request)
      → get_guest_enabled numerals (read_of "network") (read_of "firewall")
        ≡ ok (is_enabled request)
  unfolding get_guest_enabled network_settings value_of
  get_guest_enabled-request none h =
      let a = enabled-shown none "network" "guest_turris" h refl in cc
  get_guest_enabled-request (some network) h =
      let a = enabled-shown (some network) "network" "guest_turris" h refl in
      let b = enabled-shown (some network) "firewall" "guest_turris" h refl in
      let c = enabled-shown (some network) "firewall" "guest_turris_forward_wan" h refl in
      let d = enabled-shown (some network) "firewall" "guest_turris_dhcp_rule" h refl in
      let e = enabled-shown (some network) "firewall" "guest_turris_dns_rule" h refl in cc

  -- What the configuration shows of a request with a range and limits, when it has the options that
  -- were set for it: the settings of the request, with the limits not swapped.
  pub get_guest_network_settings-request :
      (ip netmask : String) (range : Range) (download upload : ℕ)
      → All
          (Shows read_of)
          (network_settings numerals (some (full ip netmask range download upload)))
      → All (Shows read_of) (limits_settings numerals (limits_of download upload))
      → get_guest_network_settings numerals
          (read_of "network")
          (read_of "firewall")
          (read_of "dhcp")
          (read_of "sqm")
        ≡ ok (settings_of ip netmask range download upload)
  unfolding network_settings limits_settings value_of
  get_guest_network_settings-request ip netmask range download upload h k =
      let request : Request = some (full ip netmask range download upload) in
      let calls = network_settings numerals request in
      let limits = limits_settings numerals (limits_of download upload) in
      let network = shown_default read_of calls "network" "guest_turris" in
      let dhcp = shown_default read_of calls "dhcp" "guest_turris" in
      let sqm = shown_default read_of limits "sqm" "guest_limit_turris" in
      unfold get_guest_network_settings in
      unfold int_of in
      unfold parse_bool in
      rw
        (
          get_guest_enabled-request request h,
          network "ipaddr" ip (text "10.111.222.1") h refl,
          network "netmask" netmask (text "255.255.255.0") h refl,
          sqm "enabled" "1" (text "0") k refl,
          sqm "download" (numerals.show upload) (num 1024) k refl,
          sqm "upload" (numerals.show download) (num 1024) k refl,
          dhcp "ignore" "0" (text "0") h refl,
          dhcp "start" (numerals.show range.start) (num 100) h refl,
          dhcp "limit" (numerals.show range.limit) (num 150) h refl,
          dhcp "leasetime" (lease_option numerals range.lease_time) (num 3600) h refl,
          numerals.int-show upload,
          numerals.int-show download,
          numerals.int-show range.start,
          numerals.int-show range.limit,
          normalize_lease-lease_option numerals range.lease_time,
        )
        refl
