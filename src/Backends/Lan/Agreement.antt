-- ===== src/Backends/Lan/Agreement.antt =====
-- The two handlers of the module lan on a new host: what LanUci refuses on a configuration that holds
-- the clients of the mock handler.
use foris_controller.Prelude.{
  String, ◌==◌, ◌≡◌, refl, ap, Bool, true, false, not, ◌&&◌, ◌||◌, ◌⊎◌, inl, inr, Option, none,
  some, List, [], ◌∷◌, ◌++◌, any, lookup, split_on, upper, upper-upper, arith, Bool-cases,
  if◌then◌else◌,
}
use foris_controller.Exceptions.{Result, Result-cases, ok, err, ◌>>=◌}
use foris_controller.Lan.{Client, LanState, Reply, done, refused, in_network, with_clients}
use foris_controller.Lan.Hosts.{
  clients_of, client_exists, is_dhcp_managed, is_hostname_unique, refuse,
}
use foris_controller.Lan.Hosts as Mock
use foris_controller.Uci.{
  OptionValue, text, UciSection, UciData, get_option_named, get_sections_by_type,
}
use foris_controller.Backends.{Numerals}
use foris_controller.Backends.Lan.{Combo, get_network_combo, in_lan, process_uci_mac_addresses}
use foris_controller.Backends.Lan.Hosts.{
  Found, Refusal, exists, find_host, ip_is_unique, hostname_is_unique, is_ignored, serves_dhcp,
  minimal_valid_host_section, validate_dhcp_host_ip, set_refusal, unless, is_text,
}

-- The section of a client: one address, which is written as it is read.
pub record IsHost (c : Client) (h : UciSection) : Type 0 where
  pub mac : lookup "mac" h.options ≡ some (text c.mac)
  pub one : process_uci_mac_addresses (text c.mac) ≡ ok (c.mac ∷ [])
  pub ip : lookup "ip" h.options ≡ some (text c.ip)
  pub name : lookup "name" h.options ≡ some (text c.hostname)

abbrev pub AllHosts : List Client → List UciSection → Type 0
AllHosts [] [] = Unit
AllHosts (c ∷ cs) (h ∷ hosts) = IsHost c h × AllHosts cs hosts
AllHosts _ _ = ⊥

module _ (numerals : Numerals) (network_data dhcp_data : UciData) (hosts : List UciSection)
    (s : LanState) where
  -- A configuration that holds the settings and the clients of the mock handler.
  pub record Represents : Type 0 where
    pub gateway : OptionValue
    pub address :
        get_network_combo network_data
        ≡ ok (record {
          router_ip = s.mode_managed.router_ip;
          netmask = text s.mode_managed.netmask;
          gateway = gateway;
        })
    pub plain : split_on b'/' s.mode_managed.router_ip ≡ s.mode_managed.router_ip ∷ []
    pub mode :
        get_option_named network_data "network" "lan" "_turris_mode" (some (text "managed"))
        ≡ ok (text s.mode)
    pub ignored : is_ignored numerals network_data dhcp_data ≡ ok (not s.mode_managed.dhcp.enabled)
    pub sections : get_sections_by_type dhcp_data "dhcp" "host" ≡ ok hosts
    pub listed : AllHosts (clients_of s) hosts

find_host-exists :
    (mac : String) (cs : List Client) (hosts : List UciSection)
    → AllHosts cs hosts
    → (found : Option Found) × (find_host mac hosts ≡ ok found)
      × (exists found ≡ client_exists (upper mac) cs)
unfolding find_host
find_host-exists mac [] [] all = (none, refl, refl)
find_host-exists mac [] (h ∷ hosts) all = absurd all
find_host-exists mac (c ∷ cs) [] all = absurd all
find_host-exists mac (c ∷ cs) (h ∷ hosts) (is_host, all) = elim (Bool-cases (c.mac == upper mac)) [
  | inl t ↦ (some (h, c.mac ∷ []), rw (is_host.mac, is_host.one, t) refl, rw t refl)
  | inr f ↦
      let (found, e, same) = find_host-exists mac cs hosts all in
      (found, rw (is_host.mac, is_host.one, f) e, rw f same)
]

any-ip :
    (ip : String) (cs : List Client) (hosts : List UciSection)
    → AllHosts cs hosts
    → any (λ h. minimal_valid_host_section h && is_text ip (lookup "ip" h.options)) hosts
      ≡ any (λ c. c.ip == ip) cs
any-ip ip [] [] all = refl
any-ip ip [] (h ∷ hosts) all = absurd all
any-ip ip (c ∷ cs) [] all = absurd all
any-ip ip (c ∷ cs) (h ∷ hosts) (is_host, all) =
    rw (is_host.mac, is_host.ip) (ap (λ b. c.ip == ip || b) (any-ip ip cs hosts all))

any-hostname :
    (hostname : String) (cs : List Client) (hosts : List UciSection)
    → AllHosts cs hosts
    → any (λ h. minimal_valid_host_section h && is_text hostname (lookup "name" h.options)) hosts
      ≡ any (λ c. c.hostname == hostname) cs
any-hostname hostname [] [] all = refl
any-hostname hostname [] (h ∷ hosts) all = absurd all
any-hostname hostname (c ∷ cs) [] all = absurd all
any-hostname hostname (c ∷ cs) (h ∷ hosts) (is_host, all) =
    rw (is_host.mac, is_host.ip, is_host.name)
      (ap (λ b. c.hostname == hostname || b) (any-hostname hostname cs hosts all))

-- The refusal in a reply of the mock handler.
abbrev pub refusal_of : Result Reply → Result Refusal
refusal_of (ok done) = ok none
refusal_of (ok (refused reason)) = ok (some reason)
refusal_of (err e) = err e

-- The outcomes of both, by the address, the tests on the names and the address's own test.
outcome :
    (known unique : Bool) (checked : Result Refusal) (s t : LanState)
    → (if known
        then ok (some "mac-exists")
        else checked >>= λ reason.
            unless reason (ok (if unique then none else some "hostname-exists")))
      ≡ refusal_of
          (if known then refuse "mac-exists" s else elim checked [
            | err e ↦ (err e, s)
            | ok (some reason) ↦ refuse reason s
            | ok none ↦ if unique then (ok done, t) else refuse "hostname-exists" s
          ]).0
outcome true unique checked s t = refl
outcome false unique (err e) s t = refl
outcome false unique (ok (some reason)) s t = refl
outcome false true (ok none) s t = refl
outcome false false (ok none) s t = refl

-- The mock handler tests for "ignore" after the mode; a host that is to get an address in the network
-- is refused either way when no addresses are given out.
abbrev pub IsComparable : String → LanState → Type 0
IsComparable ip s =
    (is_dhcp_managed s ≡ true)
    ⊎ (((ip == "ignore") ≡ false)
        × (in_network ip s.mode_managed.router_ip s.mode_managed.netmask ≡ ok true))

module _ (numerals : Numerals) (network_data dhcp_data : UciData) (hosts : List UciSection)
    (s : LanState) (holds : Represents numerals network_data dhcp_data hosts s) where
  serves_dhcp-is_dhcp_managed : serves_dhcp numerals network_data dhcp_data ≡ ok (is_dhcp_managed s)
  serves_dhcp-is_dhcp_managed = unfold serves_dhcp in rw (holds.mode, holds.ignored) (ground arith)

  abbrev combo : Combo
  combo = record {
    router_ip = s.mode_managed.router_ip;
    netmask = text s.mode_managed.netmask;
    gateway = holds.gateway;
  }

  ip_is_unique-mock :
      (ip : String) → ip_is_unique ip hosts ≡ not (any (λ c. c.ip == ip) (clients_of s))
  unfolding ip_is_unique
  ip_is_unique-mock ip = ap not (any-ip ip (clients_of s) hosts holds.listed)

  validate_dhcp_host_ip-mock :
      (ip : String)
      → IsComparable ip s
      → validate_dhcp_host_ip numerals network_data dhcp_data hosts ip combo
        ≡ Mock.validate_dhcp_host_ip ip s
  unfolding validate_dhcp_host_ip Mock.validate_dhcp_host_ip in_lan
  validate_dhcp_host_ip-mock ip (inl t) =
      rw (t, holds.plain, serves_dhcp-is_dhcp_managed, t, ip_is_unique-mock ip)
        (elim (Result-cases (in_network ip s.mode_managed.router_ip s.mode_managed.netmask)) [
          | inl (fits, e) ↦ rw e (ground arith)
          | inr (x, e) ↦ rw e refl
        ])
  validate_dhcp_host_ip-mock ip (inr (f, fits)) =
      rw (f, holds.plain, fits, serves_dhcp-is_dhcp_managed, ip_is_unique-mock ip)
        (elim (Bool-cases (is_dhcp_managed s)) [ inl t ↦ rw t (ground arith) | inr t ↦ rw t refl ])

  -- On a configuration that holds the settings and clients of the mock handler, when addresses are
  -- given out or the new host is to get one in the network, LanUci refuses a new host just as the mock
  -- handler does, for the same reason, and raises what it raises.
  pub set_refusal-mock :
      (ip mac hostname : String)
      → IsComparable ip s
      → set_refusal numerals network_data dhcp_data ip mac hostname
        ≡ refusal_of (Mock.set_dhcp_client ip mac hostname s).0
  set_refusal-mock ip mac hostname comparable =
      let (found, e, same) = find_host-exists (upper mac) (clients_of s) hosts holds.listed in
      let names = any-hostname hostname (clients_of s) hosts holds.listed in
      unfold set_refusal in
      unfold Mock.set_dhcp_client in
      unfold hostname_is_unique in
      rw (holds.address, holds.sections, e, same, upper-upper mac, names)
        (rw (validate_dhcp_host_ip-mock ip comparable) (
          outcome (client_exists (upper mac) (clients_of s))
            (is_hostname_unique hostname (clients_of s)) (Mock.validate_dhcp_host_ip ip s) s
            (with_clients (clients_of s ++ Mock.static_client ip mac hostname ∷ []) s)))
