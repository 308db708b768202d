-- ===== src/Backends/Guest.antt =====
-- foris_controller_backends/guest/__init__.py, the class GuestUci: what set_guest_network calls, and
-- what is read of the configuration. The clients and the counts of interfaces, which come from files
-- and from the hardware, are left out of what is read.
pub mod Reading
pub mod Transaction
pub mod Shown
pub mod Atomic
use Prim.Native.String.{◌++◌ as append}
use foris_controller.Prelude.{
  ℕ, String, ◌==◌, Bool, true, false, not, Option, none, some, List, [], ◌∷◌, ◌++◌, map,
  if◌then◌else◌,
}
use foris_controller.Exceptions.{Raised, uci_record_not_found, Result, ok, err, ◌>>=◌}
use foris_controller.Uci.{OptionValue, text, items, num, UciData, parse_bool, get_option_named}
use foris_controller.Backends.{
  Call, section, option, replaced, Numerals, str_of, int_of, normalize_lease, lease_option,
}

pub record Range : Type 0 where
  pub start : ℕ
  pub limit : ℕ
  pub lease_time : ℕ

-- Each of the limits may be missing.
pub record Limits : Type 0 where
  pub download : Option ℕ
  pub upload : Option ℕ

-- guest_network: `enabled` is false, or true with the settings; `dhcp` and `qos` that are not enabled
-- are `none`.
pub record Network : Type 0 where
  pub ip : String
  pub netmask : String
  pub dhcp : Option Range
  pub qos : Option Limits

abbrev pub Request : Type 0
Request = Option Network

abbrev pub stored : Bool → String
stored b = if b then "1" else "0"

abbrev pub is_enabled : Request → Bool
is_enabled none = false
is_enabled (some network) = true

-- The options of a section, in order.
abbrev pub options : String → String → List (String × String) → List Call
options config section_name values = map (λ o. option config section_name o.0 o.1) values

abbrev pub zone : String
zone = "tr_guest"

abbrev pub bridge : String
bridge = "br-guest-turris"

abbrev pub address : Request → List Call
address none = []
address (some network) =
    options "network" "guest_turris" (("ipaddr", network.ip) ∷ ("netmask", network.netmask) ∷ [])

abbrev pub network_calls : Request → List Call
network_calls request =
    (section "network" "interface" "guest_turris" ∷ [])
    ++ options "network" "guest_turris"
        (("enabled", stored (is_enabled request)) ∷ ("proto", "static") ∷ [])
    ++ (section "network" "device" "br_guest_turris" ∷ [])
    ++ options "network" "br_guest_turris" (("name", bridge) ∷ ("type", "bridge") ∷ [])
    ++ (option "network" "guest_turris" "device" bridge ∷ [])
    ++ address request
    ++ (option "network" "br_guest_turris" "bridge_empty" (stored true) ∷ [])
    ++ (option "network" "guest_turris" "ip6assign" "64" ∷ [])

abbrev pub zone_calls : String → List Call
zone_calls enabled =
    (section "firewall" "zone" "guest_turris" ∷ [])
    ++ options "firewall" "guest_turris" (("enabled", enabled) ∷ ("name", zone) ∷ [])
    ++ (replaced "firewall" "guest_turris" "network" ("guest_turris" ∷ []) ∷ [])
    ++ options "firewall" "guest_turris"
        (("input", "REJECT") ∷ ("forward", "REJECT") ∷ ("output", "ACCEPT") ∷ [])

abbrev pub forwarding_calls : String → List Call
forwarding_calls enabled =
    section "firewall" "forwarding" "guest_turris_forward_wan"
    ∷ options "firewall" "guest_turris_forward_wan" (
        ("enabled", enabled)
        ∷ ("name", "guest to wan forward")
        ∷ ("src", zone)
        ∷ ("dest", "wan")
        ∷ [])

abbrev pub rule_calls : String → List (String × String) → List Call
rule_calls section_name values =
    section "firewall" "rule" section_name ∷ options "firewall" section_name values

abbrev pub ipv4_rule_calls : String → List Call
ipv4_rule_calls enabled =
    rule_calls "guest_turris_dns_rule" (
      ("enabled", enabled)
      ∷ ("name", "guest dns rule")
      ∷ ("src", zone)
      ∷ ("proto", "tcpudp")
      ∷ ("dest_port", "53")
      ∷ ("target", "ACCEPT")
      ∷ [])
    ++ rule_calls "guest_turris_dhcp_rule" (
        ("enabled", enabled)
        ∷ ("name", "guest dhcp rule")
        ∷ ("src", zone)
        ∷ ("proto", "udp")
        ∷ ("src_port", "67-68")
        ∷ ("dest_port", "67-68")
        ∷ ("target", "ACCEPT")
        ∷ [])

abbrev pub icmp_types : List String
icmp_types =
    "echo-request" ∷ "echo-reply" ∷ "destination-unreachable" ∷ "packet-too-big" ∷ "time-exceeded"
    ∷ "bad-header" ∷ "unknown-header-type" ∷ "router-solicitation" ∷ "neighbour-solicitation"
    ∷ "router-advertisement" ∷ "neighbour-advertisement" ∷ []

abbrev pub ipv6_rule_calls : List Call
ipv6_rule_calls =
    rule_calls "guest_turris_Allow_DHCPv6" (
      ("src", zone)
      ∷ ("proto", "udp")
      ∷ ("src_ip", "fe80::/10")
      ∷ ("src_port", "546-547")
      ∷ ("dest_ip", "fe80::/10")
      ∷ ("dest_port", "546-547")
      ∷ ("family", "ipv6")
      ∷ ("target", "ACCEPT")
      ∷ [])
    ++ rule_calls "guest_turris_Allow_MLD" (
        ("src", zone)
        ∷ ("proto", "icmp")
        ∷ ("src_ip", "fe80::/10")
        ∷ ("family", "ipv6")
        ∷ ("target", "ACCEPT")
        ∷ [])
    ++ (replaced "firewall" "guest_turris_Allow_MLD" "icmp_type"
          ("130/0" ∷ "131/0" ∷ "132/0" ∷ "143/0" ∷ [])
        ∷ [])
    ++ rule_calls "guest_turris_Allow_ICMPv6_Input" (
        ("src", zone)
        ∷ ("proto", "icmp")
        ∷ ("limit", "1000/sec")
        ∷ ("family", "ipv6")
        ∷ ("target", "ACCEPT")
        ∷ [])
    ++ (replaced "firewall" "guest_turris_Allow_ICMPv6_Input" "icmp_type" icmp_types ∷ [])

module _ (numerals : Numerals) where
  abbrev pub range_calls : Option Range → List Call
  range_calls none = []
  range_calls (some range) = options "dhcp" "guest_turris" (
      ("start", numerals.show range.start)
      ∷ ("limit", numerals.show range.limit)
      ∷ ("leasetime", lease_option numerals range.lease_time)
      ∷ ("dhcpv6", "server")
      ∷ ("ra", "server")
      ∷ [])

  abbrev pub is_off : Option Range → Bool
  is_off none = true
  is_off (some range) = false

  abbrev pub dns_calls : String → List Call
  dns_calls ip =
      if ip == ""
      then []
      else replaced "dhcp" "guest_turris" "dhcp_option" (append "6," ip ∷ []) ∷ []

  abbrev pub dhcp_calls : Request → List Call
  dhcp_calls none =
      section "dhcp" "dhcp" "guest_turris"
      ∷ option "dhcp" "guest_turris" "interface" "guest_turris"
      ∷ []
  dhcp_calls (some network) =
      (section "dhcp" "dhcp" "guest_turris"
        ∷ option "dhcp" "guest_turris" "interface" "guest_turris"
        ∷ option "dhcp" "guest_turris" "ignore" (stored (is_off network.dhcp))
        ∷ [])
      ++ range_calls network.dhcp
      ++ dns_calls network.ip

  -- set_guest_network up to the section of sqm
  unfoldable pub network_settings : Request → List Call
  network_settings request =
      let enabled = stored (is_enabled request) in
      network_calls request
      ++ zone_calls enabled
      ++ forwarding_calls enabled
      ++ ipv4_rule_calls enabled
      ++ ipv6_rule_calls
      ++ dhcp_calls request

  -- set_if_exists
  abbrev pub limit_calls : String → Option ℕ → List Call
  limit_calls name none = []
  limit_calls name (some n) = option "sqm" "guest_limit_turris" name (numerals.show n) ∷ []

  -- The limits are swapped: the upload of the section is the download of the guests.
  unfoldable pub limits_settings : Limits → List Call
  limits_settings limits =
      (section "sqm" "queue" "guest_limit_turris" ∷ [])
      ++ options "sqm" "guest_limit_turris" (
          ("enabled", "1")
          ∷ ("interface", bridge)
          ∷ ("qdisc", "fq_codel")
          ∷ ("script", "simple.qos")
          ∷ ("link_layer", "none")
          ∷ ("verbosity", "5")
          ∷ ("debug_logging", "1")
          ∷ [])
      ++ limit_calls "upload" limits.download
      ++ limit_calls "download" limits.upload
