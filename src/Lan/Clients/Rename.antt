-- ===== src/Lan/Clients/Rename.antt =====
-- update_dhcp_client of foris_controller_modules/lan/handlers/mock.py, which writes into a client
-- of the list, and the clashes between clients.
use foris_controller.Prelude.{
  ◌⊎◌, String, ◌==◌, ◌≡◌, ◌≢◌, sym, ◌∙◌, true, false, none, some, List, [], ◌∷◌, any, All, upper,
  arith, eq_iff, Bool-cases, Option-cases, inl, inr, subst,
}
use foris_controller.Exceptions.{ok}
use foris_controller.Lan.{Client, LanState, done, with_clients}
use foris_controller.Lan.Hosts.{
  clients_of, client_exists, validate_dhcp_host_ip, find_last, set_last, update_dhcp_client,
}
use foris_controller.Lan.Clients.{Apart, NoClash, Apart-sym, none-with, validate-free}

set_last-cases :
    (mac : String) (d c : Client) (cs : List Client)
    → ((find_last mac cs ≡ none)
        × (((c.mac == mac) ≡ true) × (set_last mac d (c ∷ cs) ≡ d ∷ cs)
            ⊎ (((c.mac == mac) ≡ false) × (set_last mac d (c ∷ cs) ≡ c ∷ cs))))
      ⊎ ((y : Client) × (find_last mac cs ≡ some y)
          × (set_last mac d (c ∷ cs) ≡ c ∷ set_last mac d cs))
unfolding set_last
set_last-cases mac d c cs = elim (Option-cases (find_last mac cs)) [
  | inl last ↦ elim (Bool-cases (c.mac == mac)) [
    | inl hit ↦ inl (last, inl (hit, ground arith))
    | inr miss ↦ inl (last, inr (miss, ground arith))
  ]
  | inr (y, found) ↦ inr (y, found, ground arith)
]

module _ (P : Client → Type 0) (mac : String) where
  All-find_last : (cs : List Client) (c : Client) → find_last mac cs ≡ some c → All P cs → P c
  unfolding find_last
  All-find_last [] c f h = absurd (cc)
  All-find_last (x ∷ cs) c f h = elim (Option-cases (find_last mac cs)) [
    | inl last ↦ let same : x ≡ c = ground arith in subst P same h.0
    | inr (y, found) ↦ All-find_last cs c (ground arith) h.1
  ]

  All-set_last : (d : Client) (cs : List Client) → P d → All P cs → All P (set_last mac d cs)
  unfolding set_last
  All-set_last d [] p h = tt
  All-set_last d (x ∷ cs) p h = elim (set_last-cases mac d x cs) [
    | inl (last, inl q) ↦ subst (All P) (sym q.1) (p, h.1)
    | inl (last, inr q) ↦ subst (All P) (sym q.1) h
    | inr (y, found, q) ↦ subst (All P) (sym q) (h.0, All-set_last d cs p h.1)
  ]

-- The clients stay apart when the last one with this address becomes d, if d clashes with nothing
-- that the old one did not clash with.
set_last-NoClash :
    (mac : String) (current d : Client) (cs : List Client)
    → find_last mac cs ≡ some current
    → All (λ c. Apart c current → Apart c d) cs
    → NoClash cs
    → NoClash (set_last mac d cs)
unfolding find_last set_last
set_last-NoClash mac current d [] f a h = tt
set_last-NoClash mac current d (c ∷ cs) f a h = elim (set_last-cases mac d c cs) [
  | inl (last, inl q) ↦
      let same : c ≡ current = ground arith in
      subst NoClash (sym q.1) (moved cs a.1 (subst (λ x. All (Apart x) cs) same h.0), h.1)
  | inl (last, inr q) ↦ subst NoClash (sym q.1) h
  | inr (y, found, q) ↦
      let below : find_last mac cs ≡ some current = ground arith in
      subst NoClash (sym q) (
        All-set_last (Apart c) mac d cs (a.0 (All-find_last (Apart c) mac cs current below h.0))
            h.0,
        set_last-NoClash mac current d cs below a.1 h.1,
      )
]
  where
    moved :
        (xs : List Client)
        → All (λ x. Apart x current → Apart x d) xs
        → All (Apart current) xs
        → All (Apart d) xs
    moved [] a h = tt
    moved (x ∷ xs) a h = (Apart-sym (a.0 (Apart-sym h.0)), moved xs a.1 h.1)

-- What an update_dhcp_client that went through has found and done.
record Renamed (ip old_mac mac hostname : String) (s s' : LanState) : Type 0 where
  current : Client
  found : find_last (upper old_mac) (clients_of s) ≡ some current
  mac_free : (client_exists (upper mac) (clients_of s) ≡ false) ⊎ (current.mac ≡ upper mac)
  ip_free : validate_dhcp_host_ip ip s ≡ ok none
  hostname_free :
      (any (λ c. c.hostname == hostname) (clients_of s) ≡ false) ⊎ (current.hostname ≡ hostname)
  after :
      s'
      ≡ with_clients
          (set_last
            (upper old_mac)
            (record current { ip = ip; mac = upper mac; hostname = hostname })
            (clients_of s))
          s

update_dhcp_client-Renamed :
    (ip old_mac mac hostname : String) (s s' : LanState)
    → update_dhcp_client ip old_mac mac hostname s ≡ (ok done, s')
    → Renamed ip old_mac mac hostname s s'
unfolding update_dhcp_client
update_dhcp_client-Renamed ip old_mac mac hostname s s' e =
    elim (Option-cases (find_last (upper old_mac) (clients_of s))) [
      | inl missing ↦ absurd (ground arith)
      | inr (current, found) ↦ record {
        current = current;
        found = found;
        mac_free = elim (Bool-cases (current.mac == upper mac)) [
          | inl own ↦ inr ((eq_iff current.mac (upper mac)).0 own)
          | inr other ↦ inl (ground arith)
        ];
        ip_free = ground arith;
        hostname_free = elim (Bool-cases (current.hostname == hostname)) [
          | inl own ↦ inr ((eq_iff current.hostname hostname).0 own)
          | inr other ↦ inl (ground arith)
        ];
        after = ground arith;
      }
    ]

-- From three facts on all clients, that a renamed one clashes with none that the old one spared.
spared-from :
    (cs : List Client) (c d : Client)
    → All (λ x. x.mac ≢ d.mac) cs ⊎ (c.mac ≡ d.mac)
    → All (λ x. x.hostname ≢ d.hostname) cs ⊎ (c.hostname ≡ d.hostname)
    → (d.ip ≡ "ignore") ⊎ All (λ x. x.ip ≢ d.ip) cs
    → All (λ x. Apart x c → Apart x d) cs
spared-from [] c d m h i = tt
spared-from (x ∷ cs) c d m h i = (
  λ a. record {
    macs = elim m [ inl free ↦ free.0 | inr own ↦ λ e. a.macs (e ∙ sym own) ];
    hostnames = elim h [ inl free ↦ free.0 | inr own ↦ λ e. a.hostnames (e ∙ sym own) ];
    ips = elim i [ inl any_ip ↦ λ e. e ∙ any_ip | inr free ↦ λ e. absurd (free.0 e) ];
  },
  spared-from cs c d (elim m [ inl free ↦ inl free.1 | inr own ↦ inr own ])
      (elim h [ inl free ↦ inl free.1 | inr own ↦ inr own ])
      (elim i [ inl any_ip ↦ inl any_ip | inr free ↦ inr free.1 ]),
)

-- An update_dhcp_client that goes through keeps the clients from clashing.
pub update_dhcp_client-NoClash :
    (ip old_mac mac hostname : String) (s s' : LanState)
    → update_dhcp_client ip old_mac mac hostname s ≡ (ok done, s')
    → NoClash (clients_of s)
    → NoClash (clients_of s')
update_dhcp_client-NoClash ip old_mac mac hostname s s' e h =
    let r = update_dhcp_client-Renamed ip old_mac mac hostname s s' e in
    let cs = clients_of s in
    subst (λ t. NoClash (clients_of t)) (sym r.after)
      (set_last-NoClash (upper old_mac) r.current _ cs r.found
        (spared-from cs r.current _
          (elim r.mac_free [
            | inl free ↦ inl (none-with (λ c. c.mac) (upper mac) cs free)
            | inr own ↦ inr own
          ])
          (elim r.hostname_free [
            | inl free ↦ inl (none-with (λ c. c.hostname) hostname cs free)
            | inr own ↦ inr own
          ])
          (elim (validate-free ip s r.ip_free) [
            | inl any_ip ↦ inl any_ip
            | inr free ↦ inr (none-with (λ c. c.ip) ip cs free)
          ]))
        h)
