-- ===== src/Backends/Lan/Leases.antt =====
-- The list of clients in foris_controller_backends/lan/__init__.py: get_dhcp_clients of LanFiles over
-- the texts of the two files, and get_client_list of LanUci. Whether a text is an IPv6 address is a
-- parameter.
pub mod Static
use Prim.Native.Char.{Char}
use Prim.Native.String.{◌++◌ as append}
use package.text.Mathlib.TextBridge.{of_list}
use foris_controller.Prelude.{
  ℕ, zero, suc, ◌+◌, String, ◌==◌, Bool, true, false, not, ◌&&◌, ◌||◌, Option, none, some, List, [],
  ◌∷◌, ◌++◌, Dict, lookup, insert, filter, map, any, upper, split_on, if◌then◌else◌,
}
use foris_controller.Exceptions.{value_error, type_error, index_error, Result, ok, err, ◌>>=◌}
use foris_controller.Ipaddress.{ip_address, ip_network, contains}
use foris_controller.Uci.{OptionValue, text, items, num, UciSection, UciData, get_sections_by_type}
use foris_controller.Uci.Export.{Line, chars, is}
use foris_controller.Backends.{Numerals, str_of}
use foris_controller.Backends.Lan.{in_lan, process_uci_mac_addresses, strip_space}
use foris_controller.Backends.Lan.Hosts.{is_text}
use foris_controller.Backends.Lan.Update.{address_text, is_truthy}

pub record Lease : Type 0 where
  pub expires : ℕ
  pub mac : String
  pub ip : String
  pub hostname : OptionValue
  pub active : Bool
  pub static : Bool

-- part in text
is_prefix : Line → Line → Bool
is_prefix [] s = true
is_prefix (c ∷ part) [] = false
is_prefix (c ∷ part) (d ∷ s) = String.◌∷◌ c "" == String.◌∷◌ d "" && is_prefix part s

unfoldable pub occurs : Line → Line → Bool
unfolding is_prefix
occurs part [] = is_prefix part []
occurs part (c ∷ s) = is_prefix part (c ∷ s) || occurs part s

-- _check_active
unfoldable pub check_active : (conntrack ip : String) → Bool
unfolding occurs
check_active conntrack ip =
    occurs (chars (append "src=" ip)) (chars conntrack)
    || occurs (chars (append "dst=" ip)) (chars conntrack)

abbrev blank : Char → Bool
blank c = is 10 c || is 32 c || is 9 c

lstrip_blank : Line → Line
lstrip_blank [] = []
lstrip_blank (c ∷ s) = let rest = lstrip_blank s in if blank c then rest else c ∷ s

abbrev keep_char : Char → Line → Line
keep_char c [] = if blank c then [] else c ∷ []
keep_char c (d ∷ s) = c ∷ d ∷ s

rstrip_blank : Line → Line
rstrip_blank [] = []
rstrip_blank (c ∷ s) = keep_char c (rstrip_blank s)

-- content.strip("\n \t").split("\n")
unfoldable pub lease_lines : String → List String
unfolding lstrip_blank rstrip_blank
lease_lines content = split_on 10 (of_list (rstrip_blank (lstrip_blank (chars content))))

module _ (numerals : Numerals) (is_ipv6 : String → Bool) (router_ip netmask : String) where
  -- An IPv6 address is in no network of IPv4.
  abbrev in_lease_network : String → Result Bool
  in_lease_network ip = elim (ip_address ip) [
    | ok a ↦ do
      root ← ip_address router_ip
      network ← ip_network root netmask
      ok (contains network a)
    | err e ↦ if is_ipv6 ip then ok false else err e
  ]

  -- A line with another number of words, or without a number in front, is left out; the address is
  -- read outside of the `try`.
  abbrev pub lease_of : (conntrack : String) → List String → Result (Option Lease)
  lease_of conntrack (timestamp ∷ mac ∷ ip ∷ hostname ∷ last ∷ []) = elim (numerals.int timestamp) [
    | err e ↦ ok none
    | ok expires ↦ in_lease_network ip >>= λ inside. ok (
        if inside
        then some (record {
          expires = expires;
          mac = strip_space (upper mac);
          ip = ip;
          hostname = text hostname;
          active = check_active conntrack ip;
          static = false;
        })
        else none)
  ]
  lease_of conntrack words = ok none

  abbrev with_lease : Option Lease → List Lease → List Lease
  with_lease none leases = leases
  with_lease (some lease) leases = lease ∷ leases

  unfoldable pub leases_of : (conntrack : String) → List String → Result (List Lease)
  leases_of conntrack [] = ok []
  leases_of conntrack (line ∷ lines) =
      let rest = leases_of conntrack lines in
      lease_of conntrack (split_on 32 line) >>= λ lease.
      rest >>= λ leases. ok (with_lease lease leases)

  -- `none` for a file that does not exist
  unfoldable pub get_dhcp_clients : (conntrack : String) → Option String → Result (List Lease)
  get_dhcp_clients conntrack none = ok []
  get_dhcp_clients conntrack (some content) = leases_of conntrack (lease_lines content)

-- What is kept of a host section under its first MAC address.
pub record StaticHost : Type 0 where
  pub ip : String
  pub name : OptionValue

abbrev pub first_mac : UciSection → List String → Result UciSection
first_mac s [] = err index_error
first_mac s (mac ∷ macs) = ok (record s { options = insert "mac" (text mac) s.options })

abbrev pub single_mac : UciSection → Option OptionValue → Result UciSection
single_mac s none = ok s
single_mac s (some macs) = process_uci_mac_addresses macs >>= first_mac s

-- Of several MAC addresses the first one is used.
unfoldable pub single_macs : List UciSection → Result (List UciSection)
single_macs [] = ok []
single_macs (s ∷ rest) =
    let more = single_macs rest in
    single_mac s (lookup "mac" s.options) >>= λ single. more >>= λ singles. ok (single ∷ singles)

module _ (numerals : Numerals) (router_ip netmask : String) where
  abbrev pub keeps_address : OptionValue → Result Bool
  keeps_address value =
      if is_text "ignore" (some value)
      then ok true
      else address_text value >>= λ ip. in_lan ip router_ip netmask

  abbrev pub name_of : Option OptionValue → OptionValue
  name_of none = text ""
  name_of (some name) = name

  abbrev pub put_static :
      UciSection → Dict StaticHost → (mac ip : OptionValue) → Result (Dict StaticHost)
  put_static s leases mac_value value = keeps_address value >>= λ keeps.
      if keeps
      then address_text value >>= (λ ip. address_text mac_value >>= (λ mac.
        ok (insert mac (record { ip = ip; name = name_of (lookup "name" s.options) }) leases)))
      else ok leases

  -- A section without a MAC address or without an address is left out.
  abbrev pub add_static :
      UciSection → Dict StaticHost → (mac ip : Option OptionValue) → Result (Dict StaticHost)
  add_static s leases (some mac) (some ip) = put_static s leases mac ip
  add_static s leases mac ip = ok leases

  -- static_leases_map
  unfoldable pub static_leases : Dict StaticHost → List UciSection → Result (Dict StaticHost)
  static_leases leases [] = ok leases
  static_leases leases (s ∷ rest) =
      add_static s leases (lookup "mac" s.options) (lookup "ip" s.options) >>= λ more.
      static_leases more rest

-- record["ip"] = ..., and the entry of the map is deleted
abbrev pub override : Lease → Option StaticHost → Lease
override lease none = lease
override lease (some host) = record lease {
  ip = host.ip;
  hostname = if is_truthy host.name then host.name else lease.hostname;
  static = true;
}

abbrev pub without_key : String → Dict StaticHost → Dict StaticHost
without_key mac leases = filter (λ entry. not (entry.0 == mac)) leases

abbrev pub static_lease : String × StaticHost → Lease
static_lease (mac, host) = record {
  expires = 0;
  mac = mac;
  ip = host.ip;
  hostname = host.name;
  active = false;
  static = true;
}

unfoldable pub merge : List Lease → Dict StaticHost → List Lease
merge [] leases = map static_lease leases
merge (lease ∷ rest) leases =
    override lease (lookup lease.mac leases) ∷ merge rest (without_key lease.mac leases)

-- The records of the file, with what is configured, before the hosts without a record.
unfoldable pub get_client_list :
    Numerals
    → (is_ipv6 : String → Bool) → (conntrack : String) (lease_file : Option String) → UciData
    → (router_ip netmask : String) → Result (List Lease)
get_client_list numerals is_ipv6 conntrack lease_file uci_data router_ip netmask =
    get_dhcp_clients numerals is_ipv6 router_ip netmask conntrack lease_file >>= λ file_records.
    get_sections_by_type uci_data "dhcp" "host" >>= λ hosts.
    single_macs hosts >>= static_leases numerals router_ip netmask [] >>= λ leases.
    ok (merge file_records leases)
