-- ===== src/Dns/Actions.antt =====
-- The actions of foris_controller_modules/dns/__init__.py that change something: the handler's
-- method, and a notification if it went through.
use foris_controller.Prelude.{String, ◌≡◌, ◌⊎◌, inl, inr, refl, Bool, true, false, List, [], ◌∷◌}
use foris_controller.Dns.{Fields, DnsState, NewSettings, update_settings}
use foris_controller.Dns.Forwarders.{add_forwarder, set_forwarder, del_forwarder}
use foris_controller.Dns.Forwarders.Laws.{
  set_forwarder-false, del_forwarder-false, update_settings-known,
}

pub data Request : Type 0 where
  settings : NewSettings → Request
  add : Fields → Request
  set : (name : String) → Fields → Request
  del : (name : String) → Request

-- The "name" of an added forwarder is what the handler has returned, a Boolean.
pub data Notice : Type 0 where
  settings_updated : NewSettings → Notice
  forwarder_added : (name : Bool) → Fields → Notice
  forwarder_set : (name : String) → Fields → Notice
  forwarder_deleted : (name : String) → Notice

abbrev pub noticed : (Bool → Notice) → Bool × DnsState → Bool × DnsState × List Notice
noticed f (true, s) = (true, s, f true ∷ [])
noticed f (false, s) = (false, s, [])

unfoldable pub perform : Request → DnsState → Bool × DnsState × List Notice
perform (settings new) s = noticed (λ _. settings_updated new) (update_settings new s)
perform (add f) s = noticed (λ name. forwarder_added name f) (add_forwarder f s)
perform (set name f) s = noticed (λ _. forwarder_set name f) (set_forwarder name f s)
perform (del name) s = noticed (λ _. forwarder_deleted name) (del_forwarder name s)

-- The notification that belongs to a request.
abbrev pub about : Request → Notice
about (settings new) = settings_updated new
about (add f) = forwarder_added true f
about (set name f) = forwarder_set name f
about (del name) = forwarder_deleted name

noticed-cases :
    (f : Bool → Notice) (x : Bool × DnsState) (s : DnsState)
    → (x.0 ≡ true) ⊎ ((x.0 ≡ false) × (x.1 ≡ s))
    → ((noticed f x).0 ≡ true) × ((noticed f x).2 ≡ f true ∷ [])
      ⊎ ((noticed f x).0 ≡ false) × ((noticed f x).1 ≡ s) × ((noticed f x).2 ≡ [])
noticed-cases f (true, t) s h = inl (refl, refl)
noticed-cases f (false, t) s (inl h) = absurd (cc)
noticed-cases f (false, t) s (inr h) = inr (refl, h.1, refl)

unless_false :
    (x : Bool × DnsState) (s : DnsState)
    → (x.0 ≡ false → x.1 ≡ s)
    → (x.0 ≡ true) ⊎ ((x.0 ≡ false) × (x.1 ≡ s))
unless_false (true, t) s h = inl refl
unless_false (false, t) s h = inr (refl, h refl)

-- A request either is answered with true and notified of once, or is answered with false, changes
-- nothing and sends nothing.
pub perform-notifies :
    (r : Request) (s : DnsState)
    → ((perform r s).0 ≡ true) × ((perform r s).2 ≡ about r ∷ [])
      ⊎ ((perform r s).0 ≡ false) × ((perform r s).1 ≡ s) × ((perform r s).2 ≡ [])
unfolding perform add_forwarder
perform-notifies (settings new) s =
    noticed-cases (λ name. settings_updated new) (update_settings new s) s
      (elim (update_settings-known new s) [ inl h ↦ inr h | inr h ↦ inl h.0 ])
perform-notifies (add f) s = inl (refl, refl)
perform-notifies (set name f) s =
    noticed-cases (λ b. forwarder_set name f) (set_forwarder name f s) s
      (unless_false (set_forwarder name f s) s (set_forwarder-false name f s))
perform-notifies (del name) s =
    noticed-cases (λ b. forwarder_deleted name) (del_forwarder name s) s
      (unless_false (del_forwarder name s) s (del_forwarder-false name s))
