-- ===== src/Lan/Clients.antt =====
-- Clashes between the DHCP clients of foris_controller_modules/lan/handlers/mock.py.
pub mod Rename
use foris_controller.Prelude.{
  ◌⊎◌, ℕ, String, ◌==◌, ◌≡◌, ◌≢◌, refl, sym, ap, ◌∙◌, Bool, true, false, not, ◌&&◌, Option, none,
  some, List, [], ◌∷◌, ◌++◌, any, filter, All, upper, if◌then◌else◌, arith, eq_iff, Bool-cases,
  Option-cases, inl, inr, subst,
}
use foris_controller.Exceptions.{Raised, Result, ok, err}
use foris_controller.Lan.{Client, LanState, Reply, done, refused, in_network, with_clients}
use foris_controller.Lan.Hosts.{
  static_client, clients_of, client_exists, is_dhcp_managed, is_hostname_unique,
  validate_dhcp_host_ip, set_dhcp_client, find_last, set_last, update_dhcp_client,
  delete_dhcp_client,
}

-- Two clients that do not clash; "ignore" is no address.
pub record Apart (c d : Client) : Type 0 where
  pub macs : c.mac ≢ d.mac
  pub hostnames : c.hostname ≢ d.hostname
  pub ips : c.ip ≡ d.ip → c.ip ≡ "ignore"

abbrev pub NoClash : List Client → Type 0
NoClash [] = Unit
NoClash (c ∷ cs) = All (Apart c) cs × NoClash cs

pub Apart-sym : {c d : Client} → Apart c d → Apart d c
Apart-sym a = record {
  macs = λ e. a.macs (sym e);
  hostnames = λ e. a.hostnames (sym e);
  ips = λ e. e ∙ a.ips (sym e);
}

NoClash-append :
    (cs : List Client) (d : Client) → NoClash cs → All (λ c. Apart c d) cs → NoClash (cs ++ d ∷ [])
NoClash-append [] d h a = (tt, tt)
NoClash-append (c ∷ cs) d h a = (at_end cs h.0, NoClash-append cs d h.1 a.1)
  where
    at_end : (xs : List Client) → All (Apart c) xs → All (Apart c) (xs ++ d ∷ [])
    at_end [] h = (a.0, tt)
    at_end (x ∷ xs) h = (h.0, at_end xs h.1)

All-filter :
    (P : Client → Type 0) (p : Client → Bool) (cs : List Client) → All P cs → All P (filter p cs)
All-filter P p [] h = tt
All-filter P p (c ∷ cs) h = elim (Bool-cases (p c)) [
  | inl keep ↦ rw keep (h.0, All-filter P p cs h.1)
  | inr drop ↦ rw drop (All-filter P p cs h.1)
]

pub NoClash-filter : (p : Client → Bool) (cs : List Client) → NoClash cs → NoClash (filter p cs)
NoClash-filter p [] h = tt
NoClash-filter p (c ∷ cs) h = elim (Bool-cases (p c)) [
  | inl keep ↦ rw keep (All-filter (Apart c) p cs h.0, NoClash-filter p cs h.1)
  | inr drop ↦ rw drop (NoClash-filter p cs h.1)
]

-- No client has this text there.
pub none-with :
    (f : Client → String) (t : String) (cs : List Client)
    → any (λ c. f c == t) cs ≡ false
    → All (λ c. f c ≢ t) cs
none-with f t [] h = tt
none-with f t (c ∷ cs) h = (λ e. ground (arith, eq_iff (f c) t), none-with f t cs (ground arith))

pub validate-free :
    (ip : String) (s : LanState)
    → validate_dhcp_host_ip ip s ≡ ok none
    → (ip ≡ "ignore") ⊎ (any (λ c. c.ip == ip) (clients_of s) ≡ false)
unfolding validate_dhcp_host_ip
validate-free ip s h = elim (Bool-cases (ip == "ignore")) [
  | inl same ↦ inl ((eq_iff ip "ignore").0 same)
  | inr other ↦ inr (ground arith)
]

-- What a set_dhcp_client that went through has found and done.
pub record Added (ip mac hostname : String) (s s' : LanState) : Type 0 where
  pub mac_new : client_exists (upper mac) (clients_of s) ≡ false
  pub ip_free : validate_dhcp_host_ip ip s ≡ ok none
  pub hostname_new : any (λ c. c.hostname == hostname) (clients_of s) ≡ false
  pub after : s' ≡ with_clients (clients_of s ++ static_client ip mac hostname ∷ []) s

pub set_dhcp_client-Added :
    (ip mac hostname : String) (s s' : LanState)
    → set_dhcp_client ip mac hostname s ≡ (ok done, s')
    → Added ip mac hostname s s'
unfolding set_dhcp_client
set_dhcp_client-Added ip mac hostname s s' e = record {
  mac_new = ground arith;
  ip_free = ground arith;
  hostname_new = ground arith;
  after = ground arith;
}

-- From three facts on all clients, that a new one clashes with none.
Apart-from :
    (cs : List Client) (d : Client)
    → All (λ c. c.mac ≢ d.mac) cs
    → All (λ c. c.hostname ≢ d.hostname) cs
    → (d.ip ≡ "ignore") ⊎ All (λ c. c.ip ≢ d.ip) cs
    → All (λ c. Apart c d) cs
Apart-from [] d m h i = tt
Apart-from (c ∷ cs) d m h (inl any_ip) = (
  record { macs = m.0; hostnames = h.0; ips = λ e. e ∙ any_ip },
  Apart-from cs d m.1 h.1 (inl any_ip),
)
Apart-from (c ∷ cs) d m h (inr i) = (
  record { macs = m.0; hostnames = h.0; ips = λ e. absurd (i.0 e) },
  Apart-from cs d m.1 h.1 (inr i.1),
)

-- A set_dhcp_client that goes through keeps the clients from clashing.
pub set_dhcp_client-NoClash :
    (ip mac hostname : String) (s s' : LanState)
    → set_dhcp_client ip mac hostname s ≡ (ok done, s')
    → NoClash (clients_of s)
    → NoClash (clients_of s')
set_dhcp_client-NoClash ip mac hostname s s' e h =
    let a = set_dhcp_client-Added ip mac hostname s s' e in
    let cs = clients_of s in
    subst (λ t. NoClash (clients_of t)) (sym a.after)
      (NoClash-append cs _ h (
        Apart-from cs _ (none-with (λ c. c.mac) (upper mac) cs a.mac_new)
          (none-with (λ c. c.hostname) hostname cs a.hostname_new)
          (elim (validate-free ip s a.ip_free) [
            | inl any_ip ↦ inl any_ip
            | inr free ↦ inr (none-with (λ c. c.ip) ip cs free)
          ])))
