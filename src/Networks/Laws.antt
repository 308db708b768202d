-- ===== src/Networks/Laws.antt =====
-- update_settings of foris_controller_modules/networks/handlers/mock.py as a whole.
use mathlib.Core.List.Perm
use mathlib.Core.List.{Perm, Nodup, perm_append_comm, append_assoc, append-nil}
use foris_controller.Prelude.{
  String, ◌==◌, ◌≡◌, ◌≢◌, ◌⊎◌, refl, Bool, true, false, Option, none, some, List, [], ◌∷◌, ◌++◌,
  Dict, lookup, any, All, arith, eq_iff, sym, ap, ◌∙◌, subst, Bool-cases, inl, inr,
}
use foris_controller.Exceptions.{Result, ok, err}
use foris_controller.Networks.{
  Port, NetworksState, NewSettings, keys, values, all_ports, index_from, append_none, place_unused,
  store, update_settings,
}
use foris_controller.Networks.Assignment.{ids, Assigned, assign-Assigned}
use foris_controller.Networks.Index.{values-index_from, index_from-IsKeyed, AllNew-nil}

append_none-perm :
    (ps : List Port) (nets : Dict (List Port))
    → any (λ k. k == "none") (keys nets) ≡ true
    → Perm (all_ports nets ++ ps) (all_ports (append_none ps nets))
unfolding append_none
append_none-perm ps [] h = cc
append_none-perm ps ((k, qs) ∷ d) h = elim (Bool-cases (k == "none")) [
  | inl same ↦
      rw (same, append_assoc qs (all_ports d) ps, append_assoc qs ps (all_ports d))
        (Perm.append_left qs (perm_append_comm (all_ports d) ps))
  | inr other ↦
      rw (other, append_assoc qs (all_ports d) ps)
        (Perm.append_left qs (append_none-perm ps d (rw other at h)))
]

keys-append_none :
    (ps : List Port) (nets : Dict (List Port)) → keys (append_none ps nets) ≡ keys nets
unfolding append_none
keys-append_none ps [] = refl
keys-append_none ps ((k, qs) ∷ d) = elim (Bool-cases (k == "none")) [
  | inl same ↦ rw same
  | inr other ↦ rw other (ap (λ ks. k ∷ ks) (keys-append_none ps d))
]

-- Every network but "none" has just the ports that were asked for, and these were configurable.
abbrev pub AsWanted : Dict (List String) → Dict (List Port) → Type 0
AsWanted wanted = All (λ e.
    (e.0 ≡ "none") ⊎ ((lookup e.0 wanted ≡ some (ids e.1)) × All (λ p. p.configurable ≡ true) e.1))

AsWanted-assigned :
    (wanted : Dict (List String)) (nets : Dict (List Port))
    → All (λ e. lookup e.0 wanted ≡ some (ids e.1)) nets
    → All (λ e. All (λ p. p.configurable ≡ true) e.1) nets
    → AsWanted wanted nets
AsWanted-assigned wanted [] h m = tt
AsWanted-assigned wanted ((k, qs) ∷ d) h m = (inr (h.0, m.0), AsWanted-assigned wanted d h.1 m.1)

AsWanted-append_none :
    (wanted : Dict (List String)) (ps : List Port) (nets : Dict (List Port))
    → AsWanted wanted nets
    → AsWanted wanted (append_none ps nets)
unfolding append_none
AsWanted-append_none wanted ps [] h = tt
AsWanted-append_none wanted ps ((k, qs) ∷ d) h = elim (Bool-cases (k == "none")) [
  | inl same ↦ rw same (inl ((eq_iff k "none").0 same), h.1)
  | inr other ↦ rw other (h.0, AsWanted-append_none wanted ps d h.1)
]

-- What is placed is what was assigned, with the ports that are left over.
record Placed (wanted : Dict (List String)) (nets : Dict (List Port)) (unused : Dict Port)
    (placed : Dict (List Port)) : Type 0 where
  names_kept : keys placed ≡ keys nets
  kept : Perm (all_ports nets ++ values unused) (all_ports placed)
  as_wanted : AsWanted wanted placed

place_unused-Placed :
    (wanted : Dict (List String)) (nets : Dict (List Port)) (unused : Dict Port)
    (placed : Dict (List Port))
    → AsWanted wanted nets
    → place_unused unused nets ≡ ok placed
    → Placed wanted nets unused placed
unfolding place_unused
place_unused-Placed wanted nets [] placed h e =
    let same : nets ≡ placed = cc in
    subst (λ ns. Placed wanted nets [] ns) same
      (record {
        names_kept = refl;
        kept = rw (append-nil (all_ports nets)) (Perm.refl _);
        as_wanted = h;
      })
place_unused-Placed wanted nets (u ∷ us) placed h e =
    elim (Bool-cases (any (λ k. k == "none") (keys nets))) [
      | inl there ↦
          let same : append_none (values (u ∷ us)) nets ≡ placed = cc (rw there at e) in
          subst (λ ns. Placed wanted nets (u ∷ us) ns) same
            (record {
              names_kept = keys-append_none _ nets;
              kept = append_none-perm _ nets there;
              as_wanted = AsWanted-append_none wanted _ nets h;
            })
      | inr missing ↦ absurd (ground arith)
    ]

-- What `store` has done when it returns true.
store-cases :
    (new : NewSettings) (s s' : NetworksState) (r : Option (Dict (List Port) × Dict Port))
    → store new s r ≡ (ok true, s')
    → (nets : Dict (List Port)) × (unused : Dict Port) × (r ≡ some (nets, unused))
      × (place_unused unused nets ≡ ok s'.networks)
      × (s'.firewall ≡ new.firewall)
unfolding store
store-cases new s s' none e = absurd (cc)
store-cases new s s' (some (nets, unused)) e =
    elim (Bool-cases (any (λ p. p.configurable) (values unused))) [
      | inl left_over ↦ absurd (cc (rw left_over at e))
      | inr used ↦ stored (place_unused unused nets) refl used
    ]
  where
    stored :
        (r : Result (Dict (List Port)))
        → place_unused unused nets ≡ r
        → any (λ p. p.configurable) (values unused) ≡ false
        → (nets' : Dict (List Port)) × (unused' : Dict Port) × (◌≡◌
            {A = Option (Dict (List Port) × Dict Port)}
            (some (nets, unused))
            (some (nets', unused')))
          × (place_unused unused' nets' ≡ ok s'.networks)
          × (s'.firewall ≡ new.firewall)
    stored (ok placed) q used =
        let e' = rw (used, q) at e in
        (nets, unused, refl, q ∙ ap ok (ap (λ x. x.1.networks) e'), sym (ap (λ x. x.1.firewall) e'))
    stored (err x) q used = absurd (cc (rw (used, q) at e))

-- What a successful update_settings has done, between its loops.
record Updated (new : NewSettings) (s s' : NetworksState) : Type 0 where
  nets : Dict (List Port)
  unused : Dict Port
  assigned :
      Assigned (keys s.networks) new.networks (index_from [] (all_ports s.networks)) nets unused
  placed : Placed new.networks nets unused s'.networks
  firewall_new : s'.firewall ≡ new.firewall

update_settings-Updated :
    (new : NewSettings) (s s' : NetworksState)
    → update_settings new s ≡ (ok true, s')
    → Updated new s s'
unfolding update_settings
update_settings-Updated new s s' e =
    let (nets, unused, done, stored, fire) = store-cases new _ s' _ e in
    let a =
      assign-Assigned (keys s.networks) new.networks _ nets unused
        (index_from-IsKeyed [] (all_ports s.networks) tt) done in
    record {
      nets = nets;
      unused = unused;
      assigned = a;
      placed =
          place_unused-Placed new.networks nets unused s'.networks
            (AsWanted-assigned new.networks nets a.as_wanted a.movable) stored;
      firewall_new = fire;
    }

module _ (new : NewSettings) (s s' : NetworksState)
    (e : update_settings new s ≡ (ok true, s')) where
  -- A successful update_settings of a state whose ports have distinct ids only moves ports: the
  -- networks hold the same ports as before, with distinct ids again.
  pub update_settings-perm :
      Nodup (ids (all_ports s.networks))
      → Perm (all_ports s.networks) (all_ports s'.networks) × Nodup (ids (all_ports s'.networks))
  update_settings-perm distinct =
      let u = update_settings-Updated new s s' e in
      let index = values-index_from [] (all_ports s.networks) (AllNew-nil _) distinct in
      let moved =
        subst (λ ps. Perm ps (all_ports s'.networks)) index
          (Perm.trans u.assigned.kept u.placed.kept) in
      (moved, Perm.nodup (Perm.map (λ p. p.id) moved) distinct)

  -- After a successful update_settings the networks are those of before, each but "none" has the
  -- ports that were asked for, in that order and only configurable ones, and the firewall is the
  -- new one.
  pub update_settings-AsWanted :
      AsWanted new.networks s'.networks
      × (keys s'.networks ≡ keys s.networks)
      × (s'.firewall ≡ new.firewall)
  update_settings-AsWanted =
      let u = update_settings-Updated new s s' e in
      (u.placed.as_wanted, u.placed.names_kept ∙ u.assigned.names_kept, u.firewall_new)

store-rejected :
    (new : NewSettings) (s s' : NetworksState) (r : Result Bool)
    (q : Option (Dict (List Port) × Dict Port))
    → store new s q ≡ (r, s')
    → r ≢ ok true
    → s' ≡ s
unfolding store
store-rejected new s s' r none e h = ap (λ x. x.1) (sym e)
store-rejected new s s' r (some (nets, unused)) e h =
    elim (Bool-cases (any (λ p. p.configurable) (values unused))) [
      | inl left_over ↦ ap (λ x. x.1) (sym (rw left_over at e))
      | inr used ↦ raised (place_unused unused nets) refl used
    ]
  where
    raised :
        (x : Result (Dict (List Port)))
        → place_unused unused nets ≡ x
        → any (λ p. p.configurable) (values unused) ≡ false
        → s' ≡ s
    raised (ok placed) p used = absurd (h (sym (ap (λ x. x.0) (rw (used, p) at e))))
    raised (err x) p used = ap (λ x. x.1) (sym (rw (used, p) at e))

-- An update_settings that returns false or raises leaves the networks and the firewall as they
-- were; only the guide is marked as set.
pub update_settings-rejected :
    (new : NewSettings) (s s' : NetworksState) (r : Result Bool)
    → update_settings new s ≡ (r, s')
    → r ≢ ok true
    → s' ≡ record s { guide_set = true }
unfolding update_settings
update_settings-rejected new s s' r e h = store-rejected new _ s' r _ e h
