-- ===== src/Lan/Hosts.antt =====
-- The methods on DHCP clients of foris_controller_modules/lan/handlers/mock.py.
use foris_controller.Prelude.{
  String, ◌==◌, Bool, true, false, not, ◌&&◌, ◌||◌, Option, none, some, List, [], ◌∷◌, ◌++◌, any,
  filter, upper, if◌then◌else◌,
}
use foris_controller.Exceptions.{Result, ok, err, ◌>>=◌}
use foris_controller.Lan.{Client, LanState, Reply, done, refused, in_network, with_clients}

abbrev pub clients_of : LanState → List Client
clients_of s = s.mode_managed.dhcp.clients

abbrev pub client_exists : String → List Client → Bool
client_exists mac cs = any (λ c. c.mac == mac) cs

abbrev pub is_dhcp_managed : LanState → Bool
is_dhcp_managed s =
    if not (s.mode == "managed") || not s.mode_managed.dhcp.enabled then false else true

abbrev pub is_hostname_unique : String → List Client → Bool
is_hostname_unique hostname cs = not (any (λ c. c.hostname == hostname) cs)

unfoldable pub validate_dhcp_host_ip : String → LanState → Result (Option String)
validate_dhcp_host_ip ip s =
    if is_dhcp_managed s
    then (if ip == "ignore" then ok none else checked)
    else ok (some "disabled")
  where
    checked : Result (Option String)
    checked = do
      fits ← in_network ip s.mode_managed.router_ip s.mode_managed.netmask
      ok (
          if fits
          then (if any (λ c. c.ip == ip) (clients_of s) then some "ip-exists" else none)
          else some "out-of-network")

abbrev pub refuse : String → LanState → Result Reply × LanState
refuse reason s = (ok (refused reason), s)

-- The record of set_dhcp_client.
abbrev pub static_client : String → String → String → Client
static_client ip mac hostname = record {
  ip = ip;
  mac = upper mac;
  expires = 0;
  active = false;
  hostname = hostname;
  static = true;
}

unfoldable pub set_dhcp_client : String → String → String → LanState → Result Reply × LanState
set_dhcp_client ip mac hostname s =
    let cs = clients_of s in
    if client_exists (upper mac) cs
    then refuse "mac-exists" s
    else elim (validate_dhcp_host_ip ip s) [
      | err e ↦ (err e, s)
      | ok (some reason) ↦ refuse reason s
      | ok none ↦
          if is_hostname_unique hostname cs
          then (ok done, with_clients (cs ++ static_client ip mac hostname ∷ []) s)
          else refuse "hostname-exists" s
    ]

-- The loop over the clients leaves the last one with this address.
unfoldable pub find_last : String → List Client → Option Client
find_last mac [] = none
find_last mac (c ∷ cs) = elim (find_last mac cs) [
  | some d ↦ some d
  | none ↦ if c.mac == mac then some c else none
]

-- The list in which that client, which is one object with the list's, has become another.
unfoldable pub set_last : String → Client → List Client → List Client
set_last mac d [] = []
set_last mac d (c ∷ cs) =
    let rest = set_last mac d cs in
    elim (find_last mac cs) [ some e ↦ c ∷ rest | none ↦ if c.mac == mac then d ∷ cs else c ∷ cs ]

-- The test client_exists(old_mac) and the loop after it are one: the loop finds a client just when
-- there is one.
unfoldable pub update_dhcp_client :
    String → String → String → String → LanState → Result Reply × LanState
update_dhcp_client ip old_mac mac hostname s = elim (find_last (upper old_mac) cs) [
  | none ↦ refuse "mac-not-exists" s
  | some current ↦
      if client_exists new_mac cs && not (current.mac == new_mac)
      then refuse "mac-exists" s
      else elim (validate_dhcp_host_ip ip s) [
        | err e ↦ (err e, s)
        | ok (some reason) ↦
            if reason == "ip-exists" && not (current.ip == ip)
            then refuse reason s
            else refuse reason s
        | ok none ↦
            if not (is_hostname_unique hostname cs) && not (current.hostname == hostname)
            then refuse "hostname-exists" s
            else (ok done, with_clients (set_last (upper old_mac) (renamed current) cs) s)
      ]
]
  where
    cs : List Client
    cs = clients_of s

    new_mac : String
    new_mac = upper mac

    renamed : Client → Client
    renamed c = record c { ip = ip; mac = new_mac; hostname = hostname }

unfoldable pub delete_dhcp_client : String → LanState → Result Reply × LanState
delete_dhcp_client mac s =
    let cs = clients_of s in
    if is_dhcp_managed s
    then (if client_exists mac cs
        then (ok done, with_clients (filter (λ c. not (c.mac == mac)) cs) s)
        else refuse "mac-not-exists" s)
    else refuse "disabled" s
