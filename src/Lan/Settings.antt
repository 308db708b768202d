-- ===== src/Lan/Settings.antt =====
-- What update_settings of foris_controller_modules/lan/handlers/mock.py does to the clients.
use foris_controller.Prelude.{
  ◌==◌, ◌≡◌, ◌⊎◌, refl, sym, ap, ◌∙◌, subst, true, false, List, [], ◌∷◌, All, arith, eq_iff,
  Bool-cases, inl, inr,
}
use foris_controller.Exceptions.{Result-cases, ok}
use foris_controller.Lan.{
  Client, ModeManaged, LanState, NewManaged, NewSettings, NewMode, NewUnmanaged, managed, unmanaged,
  in_range, in_network, stays, staying, set_managed, update_settings,
}
use foris_controller.Lan.Hosts.{clients_of}
use foris_controller.Lan.Clients.{Apart, NoClash}

-- The first client of a list either raises, stays or goes.
staying-cases :
    (m : ModeManaged) (c : Client) (cs kept : List Client)
    → staying m (c ∷ cs) ≡ ok kept
    → (rest : List Client) × (staying m cs ≡ ok rest)
      × ((stays m c ≡ ok true) × (kept ≡ c ∷ rest) ⊎ (stays m c ≡ ok false) × (kept ≡ rest))
unfolding staying
staying-cases m c cs kept e = elim (Result-cases (stays m c)) [
  | inr (x, raised) ↦ absurd (ground arith)
  | inl (keep, decided) ↦ elim (Result-cases (staying m cs)) [
    | inr (x, raised) ↦ absurd (ground arith)
    | inl (rest, done_rest) ↦ elim (Bool-cases keep) [
      | inl keeps ↦ (rest, done_rest, inl (ground arith, ground arith))
      | inr drops ↦ (rest, done_rest, inr (ground arith, ground arith))
    ]
  ]
]

staying-All :
    (P : Client → Type 0) (m : ModeManaged) (cs kept : List Client)
    → staying m cs ≡ ok kept
    → All P cs
    → All (λ c. P c × (stays m c ≡ ok true)) kept
unfolding staying
staying-All P m [] kept e h =
    let q : [] ≡ kept = ground arith in subst (All (λ c. P c × (stays m c ≡ ok true))) q tt
staying-All P m (c ∷ cs) kept e h =
    let (rest, tail, part) = staying-cases m c cs kept e in
    elim part [
      | inl (keep, q) ↦
          subst (All (λ x. P x × (stays m x ≡ ok true))) (sym q)
            ((h.0, keep), staying-All P m cs rest tail h.1)
      | inr (drop, q) ↦
          subst (All (λ x. P x × (stays m x ≡ ok true))) (sym q) (staying-All P m cs rest tail h.1)
    ]

All-map :
    {P Q : Client → Type 0} (cs : List Client) → ((c : Client) → P c → Q c) → All P cs → All Q cs
All-map [] f h = tt
All-map (c ∷ cs) f h = (f c h.0, All-map cs f h.1)

staying-NoClash :
    (m : ModeManaged) (cs kept : List Client) → staying m cs ≡ ok kept → NoClash cs → NoClash kept
unfolding staying
staying-NoClash m [] kept e h = let q : [] ≡ kept = ground arith in subst NoClash q tt
staying-NoClash m (c ∷ cs) kept e h =
    let (rest, tail, part) = staying-cases m c cs kept e in
    elim part [
      | inl (keep, q) ↦ subst NoClash (sym q) (
        All-map rest (λ x p. p.0) (staying-All (Apart c) m cs rest tail h.0),
        staying-NoClash m cs rest tail h.1,
      )
      | inr (drop, q) ↦ subst NoClash (sym q) (staying-NoClash m cs rest tail h.1)
    ]

-- A client whose address fits the settings: any address, or one of the network outside the range.
pub data Fits (m : ModeManaged) (c : Client) : Type 0 where
  any_address : c.ip ≡ "ignore" → Fits m c
  outside_range :
      in_range c.ip m.router_ip m.dhcp.start m.dhcp.limit ≡ ok false
      → in_network c.ip m.router_ip m.netmask ≡ ok true
      → Fits m c

stays-Fits : (m : ModeManaged) (c : Client) → stays m c ≡ ok true → Fits m c
unfolding stays
stays-Fits m c e = elim (Bool-cases (c.ip == "ignore")) [
  | inl same ↦ any_address ((eq_iff c.ip "ignore").0 same)
  | inr other ↦ outside_range (ground arith) (ground arith)
]

-- What an update_settings of the managed mode has done to the clients.
update_settings-managed :
    (new : NewSettings) (s s' : LanState) (n : NewManaged)
    → update_settings new s ≡ (ok true, s')
    → new.mode ≡ managed n
    → staying (set_managed n s.mode_managed) (clients_of s) ≡ ok (clients_of s')
      × ((c : Client) → Fits (set_managed n s.mode_managed) c → Fits s'.mode_managed c)
unfolding update_settings
update_settings-managed new s s' n e q =
    elim (Result-cases (staying (set_managed n s.mode_managed) (clients_of s))) [
      | inr (x, raised) ↦ absurd (cc (rw (q, raised) at e))
      | inl (kept, r) ↦
          let e' = ap (λ x. x.1.mode_managed) (rw (q, r) at e) in
          (
            r ∙ ap ok (ap (λ (m : ModeManaged). m.dhcp.clients) e'),
            λ c f.
                subst (λ m. Fits m c) e'
                  (elim f [
                    | any_address p ↦ any_address p
                    | outside_range p i ↦ outside_range p i
                  ]),
          )
    ]

update_settings-unmanaged :
    (new : NewSettings) (s s' : LanState) (u : NewUnmanaged)
    → update_settings new s ≡ (ok true, s')
    → new.mode ≡ unmanaged u
    → clients_of s ≡ clients_of s'
unfolding update_settings
update_settings-unmanaged new s s' u e q = ap (λ x. clients_of x.1) (rw q at e)

module _ (new : NewSettings) (s s' : LanState) (e : update_settings new s ≡ (ok true, s')) where
  -- After an update_settings to the managed mode that went through, every client is without an
  -- address of its own, or its address is in the new network and outside of the new range.
  pub update_settings-Fits :
      (n : NewManaged) → new.mode ≡ managed n → All (Fits s'.mode_managed) (clients_of s')
  update_settings-Fits n q =
      let (kept, fits) = update_settings-managed new s s' n e q in
      let m = set_managed n s.mode_managed in
      All-map (clients_of s') (λ c p. fits c (stays-Fits m c p.1))
        (staying-All (λ c. Unit {0}) m (clients_of s) (clients_of s') kept
          (anything (clients_of s)))
    where
      anything : (cs : List Client) → All (λ c. Unit {0}) cs
      anything [] = tt
      anything (c ∷ cs) = (tt, anything cs)

  pub update_settings-NoClash : NoClash (clients_of s) → NoClash (clients_of s')
  update_settings-NoClash h = by_mode new.mode refl
    where
      by_mode : (m : NewMode) → new.mode ≡ m → NoClash (clients_of s')
      by_mode (managed n) q =
          staying-NoClash _ (clients_of s) (clients_of s')
            ((update_settings-managed new s s' n e q).0) h
      by_mode (unmanaged u) q = subst NoClash (update_settings-unmanaged new s s' u e q) h
