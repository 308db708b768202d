-- ===== src/Guest/Laws.antt =====
-- The action of foris_controller_modules/guest/__init__.py on the settings of the guest network.
use foris_controller.Prelude.{
  ℕ, String, ◌≡◌, ◌≢◌, ◌⊎◌, inl, inr, refl, sym, ap, ◌∙◌, subst, true, false, Option, none, some,
  List, [], ◌∷◌, arith, Bool-cases,
}
use foris_controller.Exceptions.{ok, Result-cases}
use foris_controller.Ipaddress.{check_dynamic_ranges}
use foris_controller.Guest.{
  GuestState, NewSettings, disable, enable, NewDhcp, NewQos, update_settings, range_of,
  range_accepted, action_update_settings, or_keep,
}

-- The DHCP server of a state has a range that check_dynamic_ranges accepts.
abbrev pub HasRange : GuestState → Type 0
HasRange s = check_dynamic_ranges s.router_ip s.netmask s.dhcp.start s.dhcp.limit ≡ ok true

range_of-some :
    (ip netmask : String) (start limit : Option ℕ) (old_start old_limit : ℕ)
    → range_of ip netmask start limit ≡ ok true
    → check_dynamic_ranges ip netmask (or_keep old_start start) (or_keep old_limit limit) ≡ ok true
unfolding range_of
range_of-some ip netmask none limit a b h = absurd (cc)
range_of-some ip netmask (some start) none a b h = absurd (cc)
range_of-some ip netmask (some start) (some limit) a b h = h

accepted-range :
    (ip netmask : String) (d : NewDhcp) (q : NewQos)
    → range_accepted (enable ip netmask d q) ≡ ok true
    → (d.enabled ≡ false) ⊎ (range_of ip netmask d.start d.limit ≡ ok true)
unfolding range_accepted
accepted-range ip netmask d q h = ground arith

stored-HasRange :
    (new : NewSettings) (s : GuestState)
    → range_accepted new ≡ ok true
    → ((update_settings new s).1 ≡ record s { enabled = false })
      ⊎ ((update_settings new s).1.enabled ≡ true)
        × (((update_settings new s).1.dhcp.enabled ≡ false) ⊎ HasRange (update_settings new s).1)
unfolding update_settings
stored-HasRange disable s h = inl refl
stored-HasRange (enable ip netmask d q) s h = elim (accepted-range ip netmask d q h) [
  | inl off ↦ inr (refl, inl off)
  | inr range ↦
      inr (refl, inr (range_of-some ip netmask d.start d.limit s.dhcp.start s.dhcp.limit range))
]

always_true : (new : NewSettings) (s : GuestState) → (update_settings new s).0 ≡ true
unfolding update_settings
always_true disable s = refl
always_true (enable ip netmask d q) s = refl

-- An action that answers true was accepted and has run the handler; any other changes nothing.
action_update_settings-cases :
    (new : NewSettings) (s : GuestState)
    → (range_accepted new ≡ ok true)
        × (action_update_settings new s ≡ (ok true, (update_settings new s).1, new ∷ []))
      ⊎ ((action_update_settings new s).0 ≢ ok true)
        × ((action_update_settings new s).1 ≡ s)
        × ((action_update_settings new s).2 ≡ [])
unfolding action_update_settings
action_update_settings-cases new s = elim (Result-cases (range_accepted new)) [
  | inr (x, raised) ↦ rw raised (inr (λ e. ground arith, refl, refl))
  | inl (b, decided) ↦ elim (Bool-cases b) [
    | inr out ↦ rw (decided, out) (inr (λ e. ground arith, refl, refl))
    | inl fits ↦ inl (decided ∙ ap ok fits, rw (decided, fits, always_true new s) refl)
  ]
]

-- An action_update_settings that answers true either has disabled the guest network and nothing
-- else, or has stored a network whose DHCP server is off or has a range that check_dynamic_ranges
-- accepts; in both cases it notifies of the request once.
pub action_update_settings-HasRange :
    (new : NewSettings) (s s' : GuestState) (sent : List NewSettings)
    → action_update_settings new s ≡ (ok true, s', sent)
    → (sent ≡ new ∷ [])
      × ((s' ≡ record s { enabled = false })
          ⊎ (s'.enabled ≡ true) × ((s'.dhcp.enabled ≡ false) ⊎ HasRange s'))
action_update_settings-HasRange new s s' sent e = elim (action_update_settings-cases new s) [
  | inr (other, same, silent) ↦ absurd (other (ap (λ x. x.0) e))
  | inl (accepted, q) ↦
      let both = sym q ∙ e in
      (
        ap (λ x. x.2) (sym both),
        subst
            (λ t.
              (t ≡ record s { enabled = false })
              ⊎ (t.enabled ≡ true) × ((t.dhcp.enabled ≡ false) ⊎ HasRange t))
            (ap (λ x. x.1) both) (stored-HasRange new s accepted),
      )
]

-- An action_update_settings that answers false or raises changes nothing and sends nothing.
pub action_update_settings-rejected :
    (new : NewSettings) (s : GuestState)
    → (action_update_settings new s).0 ≢ ok true
    → ((action_update_settings new s).1 ≡ s) × ((action_update_settings new s).2 ≡ [])
action_update_settings-rejected new s n = elim (action_update_settings-cases new s) [
  | inl (accepted, q) ↦ absurd (n (ap (λ x. x.0) q))
  | inr (other, same, silent) ↦ (same, silent)
]
