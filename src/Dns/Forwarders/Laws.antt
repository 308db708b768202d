-- ===== src/Dns/Forwarders/Laws.antt =====
-- What the methods of foris_controller_modules/dns/handlers/mock.py keep.
use foris_controller.Prelude.{
  sym, subst, String, ◌==◌, eq_refl, ◌≡◌, ◌⊎◌, refl, ap, inl, inr, true, false, not, some, List, [],
  ◌∷◌, ◌++◌, any, filter, arith, Bool-cases, Option-cases,
}
use foris_controller.Dns.{
  stored, Fields, Forwarder, DnsState, get_converted_forwarders, NewSettings, known,
  update_settings,
}
use foris_controller.Dns.Forwarders.{
  added_name, with_forwarders, add_forwarder, write, set_forwarder, take_out, del_forwarder,
}

-- The forwarders that came with the system.
abbrev pub fixed : List Forwarder → List Forwarder
fixed = filter (λ e. not e.editable)

fixed-add :
    (fs : List Forwarder) (e : Forwarder) → e.editable ≡ true → fixed (fs ++ e ∷ []) ≡ fixed fs
fixed-add [] e h = rw h refl
fixed-add (x ∷ fs) e h = ground (arith, fixed-add fs e h)

fixed-write :
    (name : String) (f : Fields) (fs : List Forwarder) → fixed (write name f fs).1 ≡ fixed fs
unfolding write
fixed-write name f [] = refl
fixed-write name f (e ∷ fs) = ground (arith, fixed-write name f fs)

fixed-take_out : (name : String) (fs : List Forwarder) → fixed (take_out name fs).1 ≡ fixed fs
unfolding take_out
fixed-take_out name [] = refl
fixed-take_out name (e ∷ fs) = ground (arith, fixed-take_out name fs)

-- No method on the forwarders changes, adds, moves or removes one that is not editable.
pub forwarders-fixed :
    (name : String) (f : Fields) (s : DnsState)
    → (fixed (add_forwarder f s).1.available_forwarders ≡ fixed s.available_forwarders)
      × (fixed (set_forwarder name f s).1.available_forwarders ≡ fixed s.available_forwarders)
      × (fixed (del_forwarder name s).1.available_forwarders ≡ fixed s.available_forwarders)
unfolding add_forwarder set_forwarder del_forwarder
forwarders-fixed name f s = (
  fixed-add s.available_forwarders _ refl,
  fixed-write name f s.available_forwarders,
  fixed-take_out name s.available_forwarders,
)

write-false :
    (name : String) (f : Fields) (fs : List Forwarder)
    → (write name f fs).0 ≡ false
    → (write name f fs).1 ≡ fs
unfolding write
write-false name f [] h = refl
write-false name f (e ∷ fs) h = ground (arith, write-false name f fs)

take_out-false :
    (name : String) (fs : List Forwarder) → (take_out name fs).0 ≡ false → (take_out name fs).1 ≡ fs
unfolding take_out
take_out-false name [] h = refl
take_out-false name (e ∷ fs) h = ground (arith, take_out-false name fs)

take_out-add :
    (e : Forwarder) (fs : List Forwarder)
    → e.editable ≡ true
    → any (λ x. x.name == e.name) fs ≡ false
    → take_out e.name (fs ++ e ∷ []) ≡ (true, fs)
unfolding take_out
take_out-add e [] h n = rw (eq_refl e.name, h) refl
take_out-add e (x ∷ fs) h n =
    let other : (x.name == e.name) ≡ false = ground arith in
    rw (other, take_out-add e fs h (ground arith)) refl

-- A set_forwarder that returns false changes nothing.
pub set_forwarder-false :
    (name : String) (f : Fields) (s : DnsState)
    → (set_forwarder name f s).0 ≡ false
    → (set_forwarder name f s).1 ≡ s
unfolding set_forwarder
set_forwarder-false name f s h =
    ap (λ fs. with_forwarders fs s) (write-false name f s.available_forwarders h)

pub del_forwarder-false :
    (name : String) (s : DnsState) → (del_forwarder name s).0 ≡ false → (del_forwarder name s).1 ≡ s
unfolding del_forwarder
del_forwarder-false name s h =
    ap (λ fs. with_forwarders fs s) (take_out-false name s.available_forwarders h)

-- Deleting the forwarder that was just added succeeds and gives the state back, if no other one had
-- its name.
pub del_forwarder-add_forwarder :
    (f : Fields) (s : DnsState)
    → any (λ e. e.name == added_name) s.available_forwarders ≡ false
    → del_forwarder added_name (add_forwarder f s).1 ≡ (true, s)
unfolding del_forwarder add_forwarder
del_forwarder-add_forwarder f s h =
    ap (λ r. (r.0, with_forwarders r.1 s))
      (take_out-add (record { name = added_name; fields = f; editable = true })
        s.available_forwarders refl h)

-- An update_settings that returns false changes nothing; one that returns true and enables
-- forwarding has chosen a forwarder that get_settings lists.
pub update_settings-known :
    (new : NewSettings) (s : DnsState)
    → ((update_settings new s).0 ≡ false) × ((update_settings new s).1 ≡ s)
      ⊎ ((update_settings new s).0 ≡ true)
        × (((update_settings new s).1.forwarding_enabled ≡ false)
            ⊎ (known (some (update_settings new s).1.forwarder) (update_settings new s).1 ≡ true))
unfolding update_settings get_converted_forwarders
update_settings-known new s = elim (Bool-cases new.forwarding_enabled) [
  | inr off ↦ rw off (inr (refl, inl refl))
  | inl on ↦ elim (Option-cases new.forwarder) [
    | inl missing ↦ rw (on, missing) (inl (refl, refl))
    | inr (f, chosen) ↦ elim (Bool-cases (known (some f) s)) [
      | inl there ↦
          let q : update_settings new s ≡ (true, stored new f s) = rw (on, chosen, there) refl in
          subst
            (λ r.
              (r.0 ≡ false) × (r.1 ≡ s)
              ⊎ (r.0 ≡ true)
                × ((r.1.forwarding_enabled ≡ false) ⊎ (known (some r.1.forwarder) r.1 ≡ true)))
            (sym q) (inr (refl, inr there))
      | inr unknown ↦ rw (on, chosen, unknown) (inl (refl, refl))
    ]
  ]
]
