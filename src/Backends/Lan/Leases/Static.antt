-- ===== src/Backends/Lan/Leases/Static.antt =====
-- The hosts of a configuration that holds the clients of the mock handler, in the list of clients.
use mathlib.Core.List.{append_assoc, append-nil}
use foris_controller.Prelude.{
  String, ◌==◌, ◌≡◌, refl, ap, sym, ◌∙◌, Bool, true, false, ◌⊎◌, inl, inr, none, List, [], ◌∷◌,
  ◌++◌, Dict, lookup, insert, lookup-insert, map, All, arith,
}
use foris_controller.Exceptions.{ok}
use foris_controller.Lan.{Client}
use foris_controller.Uci.{text, UciSection, UciData, get_sections_by_type}
use foris_controller.Backends.{Numerals}
use foris_controller.Backends.Lan.{in_lan}
use foris_controller.Backends.Lan.Agreement.{IsHost, AllHosts}
use foris_controller.Backends.Lan.Leases.{
  Lease, StaticHost, single_macs, static_leases, static_lease, add_static, merge, get_dhcp_clients,
  get_client_list,
}

-- How a client of the mock handler is shown, when there is no record of it in the file.
abbrev pub lease_of_client : Client → Lease
lease_of_client c = record {
  expires = 0;
  mac = c.mac;
  ip = c.ip;
  hostname = text c.hostname;
  active = false;
  static = true;
}

abbrev entry : Client → String × StaticHost
entry c = (c.mac, record { ip = c.ip; name = text c.hostname })

-- The clients have different MAC addresses.
abbrev pub Distinct : List Client → Type 0
Distinct [] = Unit
Distinct (c ∷ cs) = All (λ d. (c.mac == d.mac) ≡ false) cs × Distinct cs

insert-new :
    (k : String) (v : StaticHost) (d : Dict StaticHost)
    → lookup k d ≡ none
    → insert k v d ≡ d ++ (k, v) ∷ []
unfolding lookup insert
insert-new k v [] h = refl
insert-new k v ((j, w) ∷ d) h = ground (arith, h, insert-new k v d)

-- The section of a client after its MAC address has become a text again.
single : Client → UciSection → UciSection
single c h = record h { options = insert "mac" (text c.mac) h.options }

single-IsHost : (c : Client) (h : UciSection) → IsHost c h → IsHost c (single c h)
unfolding single
single-IsHost c h is_host = record {
  mac = rw (lookup-insert "mac" "mac" (text c.mac) h.options) refl;
  one = is_host.one;
  ip = rw (lookup-insert "mac" "ip" (text c.mac) h.options) is_host.ip;
  name = rw (lookup-insert "mac" "name" (text c.mac) h.options) is_host.name;
}

single_macs-AllHosts :
    (cs : List Client) (hosts : List UciSection)
    → AllHosts cs hosts
    → (singles : List UciSection) × (single_macs hosts ≡ ok singles) × AllHosts cs singles
unfolding single_macs single
single_macs-AllHosts [] [] all = ([], refl, tt)
single_macs-AllHosts [] (h ∷ hosts) all = absurd all
single_macs-AllHosts (c ∷ cs) [] all = absurd all
single_macs-AllHosts (c ∷ cs) (h ∷ hosts) (is_host, all) =
    let (singles, e, rest) = single_macs-AllHosts cs hosts all in
    (single c h ∷ singles, rw (is_host.mac, is_host.one, e) refl, (single-IsHost c h is_host, rest))

module _ (numerals : Numerals) (router_ip netmask : String) where
  -- A client without an address, or with one of the network.
  abbrev pub Fits : Client → Type 0
  Fits c =
      (c.ip ≡ "ignore") ⊎ (((c.ip == "ignore") ≡ false) × (in_lan c.ip router_ip netmask ≡ ok true))

  -- No client of a list is in a dictionary.
  abbrev Fresh : Dict StaticHost → List Client → Type 0
  Fresh leases cs = All (λ c. lookup c.mac leases ≡ none) cs

  Fresh-insert :
      (c : Client) (leases : Dict StaticHost) (cs : List Client)
      → Fresh leases cs
      → All (λ d. (c.mac == d.mac) ≡ false) cs
      → Fresh (insert c.mac (entry c).1 leases) cs
  Fresh-insert c leases [] fresh other = tt
  Fresh-insert c leases (d ∷ cs) fresh other = (
    lookup-insert c.mac d.mac (entry c).1 leases ∙ rw (other.0) fresh.0,
    Fresh-insert c leases cs fresh.1 other.1,
  )

  add_static-client :
      (c : Client) (h : UciSection) (leases : Dict StaticHost)
      → IsHost c h
      → Fits c
      → add_static numerals router_ip netmask h leases
          (lookup "mac" h.options)
          (lookup "ip" h.options)
        ≡ ok (insert c.mac (entry c).1 leases)
  add_static-client c h leases is_host (inl e) = rw (is_host.mac, is_host.ip, e, is_host.name) refl
  add_static-client c h leases is_host (inr (f, fits)) =
      rw (is_host.mac, is_host.ip, f, fits, is_host.name) refl

  static_leases-clients :
      (cs : List Client) (hosts : List UciSection) (leases : Dict StaticHost)
      → AllHosts cs hosts
      → All Fits cs
      → Distinct cs
      → Fresh leases cs
      → static_leases numerals router_ip netmask leases hosts ≡ ok (leases ++ map entry cs)
  unfolding static_leases
  static_leases-clients [] [] leases all fit distinct fresh = ap ok (sym (append-nil leases))
  static_leases-clients [] (h ∷ hosts) leases all fit distinct fresh = absurd all
  static_leases-clients (c ∷ cs) [] leases all fit distinct fresh = absurd all
  static_leases-clients (c ∷ cs) (h ∷ hosts) leases (is_host, all) fit distinct fresh =
      let more = insert c.mac (entry c).1 leases in
      let e = add_static-client c h leases is_host fit.0 in
      let rest =
        static_leases-clients cs hosts more all fit.1 distinct.1
          (Fresh-insert c leases cs fresh.1 distinct.0) in
      let added = insert-new c.mac (entry c).1 leases fresh.0 in
      rw e (
        rest
        ∙ ap (λ d. ok (d ++ map entry cs)) added
        ∙ ap ok (append_assoc leases (entry c ∷ []) (map entry cs)))

  Fresh-nothing : (cs : List Client) → Fresh [] cs
  unfolding lookup
  Fresh-nothing [] = tt
  Fresh-nothing (c ∷ cs) = (refl, Fresh-nothing cs)

map-entry : (cs : List Client) → map static_lease (map entry cs) ≡ map lease_of_client cs
map-entry [] = refl
map-entry (c ∷ cs) = ap (λ leases. lease_of_client c ∷ leases) (map-entry cs)

-- When the router has no file of leases and the configuration has the sections of the mock handler's
-- clients, with different MAC addresses and each without an address or with one of the network, the
-- list of clients is the mock handler's, each client static and not active.
pub get_client_list-clients :
    (numerals : Numerals) (is_ipv6 : String → Bool) (conntrack : String) (dhcp_data : UciData)
    (router_ip netmask : String) (cs : List Client) (hosts : List UciSection)
    → get_sections_by_type dhcp_data "dhcp" "host" ≡ ok hosts
    → AllHosts cs hosts
    → All (Fits numerals router_ip netmask) cs
    → Distinct cs
    → get_client_list numerals is_ipv6 conntrack none dhcp_data router_ip netmask
      ≡ ok (map lease_of_client cs)
get_client_list-clients numerals is_ipv6 conntrack dhcp_data router_ip netmask cs hosts sections all
      fit distinct =
    let (singles, single, same) = single_macs-AllHosts cs hosts all in
    unfold get_client_list in
    unfold get_dhcp_clients in
    unfold merge in
    rw
      (
        sections,
        single,
        static_leases-clients numerals router_ip netmask cs singles [] same fit distinct
            (Fresh-nothing numerals router_ip netmask cs),
      )
      (ap ok (map-entry cs))
