-- ===== src/Lan/Deletion.antt =====
-- set_dhcp_client and delete_dhcp_client of foris_controller_modules/lan/handlers/mock.py.
use foris_controller.Prelude.{
  String, ◌==◌, ◌≡◌, refl, true, false, not, none, List, [], ◌∷◌, ◌++◌, filter, upper, arith,
  eq_refl,
}
use foris_controller.Exceptions.{ok}
use foris_controller.Lan.{Client, LanState, done}
use foris_controller.Lan.Hosts.{
  static_client, clients_of, is_dhcp_managed, client_exists, validate_dhcp_host_ip, set_dhcp_client,
  delete_dhcp_client,
}
use foris_controller.Lan.Clients.{set_dhcp_client-Added}

validate-managed :
    (ip : String) (s : LanState) → validate_dhcp_host_ip ip s ≡ ok none → is_dhcp_managed s ≡ true
unfolding validate_dhcp_host_ip
validate-managed ip s h = ground arith

-- A client at the end is found and is the only one that goes.
last-goes :
    (cs : List Client) (c : Client)
    → client_exists c.mac cs ≡ false
    → (client_exists c.mac (cs ++ c ∷ []) ≡ true)
      × (filter (λ d. not (d.mac == c.mac)) (cs ++ c ∷ []) ≡ cs)
last-goes [] c h = (rw (eq_refl c.mac) refl, rw (eq_refl c.mac) refl)
last-goes (x ∷ cs) c h =
    let other : (x.mac == c.mac) ≡ false = ground arith in
    let rest = last-goes cs c (ground arith) in rw (other, rest.0, rest.1) (refl, refl)

-- Deleting the client that was just set, by its MAC address in upper case, succeeds and gives the
-- state from before it was set.
pub delete_dhcp_client-set_dhcp_client :
    (ip mac hostname : String) (s s' : LanState)
    → set_dhcp_client ip mac hostname s ≡ (ok done, s')
    → delete_dhcp_client (upper mac) s' ≡ (ok done, s)
unfolding delete_dhcp_client
delete_dhcp_client-set_dhcp_client ip mac hostname s s' e =
    let a = set_dhcp_client-Added ip mac hostname s s' e in
    let l = last-goes (clients_of s) (static_client ip mac hostname) a.mac_new in
    rw (a.after, validate-managed ip s a.ip_free, l.0, l.1) refl
