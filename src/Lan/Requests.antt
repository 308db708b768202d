-- ===== src/Lan/Requests.antt =====
-- Requests to the LAN module (foris_controller_modules/lan/__init__.py): the clients, the state and
-- the notifications.
use foris_controller.Prelude.{
  String, ◌==◌, ◌≡◌, ◌≢◌, ◌⊎◌, refl, sym, ap, subst, Bool, true, false, not, [], ◌∷◌, filter, arith,
  Bool-cases, inl, inr,
}
use foris_controller.Exceptions.{Result-cases, Raised, Result, ok, err}
use foris_controller.Lan.{
  LanState, NewSettings, NewMode, managed, unmanaged, Reply, done, refused, staying, set_managed,
  update_settings,
}
use foris_controller.Lan.Hosts.{clients_of, set_dhcp_client, update_dhcp_client, delete_dhcp_client}
use foris_controller.Lan.Actions.{
  Request, update_settings_request, set_dhcp_client_request, update_dhcp_client_request,
  delete_dhcp_client_request, range_accepted, notified, reply_of, action_update_settings, action,
}
use foris_controller.Lan.Clients.{NoClash, NoClash-filter, set_dhcp_client-NoClash}
use foris_controller.Lan.Clients.Rename.{update_dhcp_client-NoClash}
use foris_controller.Lan.Settings.{update_settings-NoClash}

-- A client method that does not answer {"result": True} changes nothing.
abbrev pub Refusing : (LanState → Result Reply × LanState) → LanState → Type 0
Refusing op s = ((op s).0 ≡ ok done) ⊎ ((op s).1 ≡ s)

set_dhcp_client-Refusing :
    (ip mac hostname : String) (s : LanState) → Refusing (set_dhcp_client ip mac hostname) s
unfolding set_dhcp_client
set_dhcp_client-Refusing ip mac hostname s = ground arith

update_dhcp_client-Refusing :
    (ip old_mac mac hostname : String) (s : LanState)
    → Refusing (update_dhcp_client ip old_mac mac hostname) s
unfolding update_dhcp_client
update_dhcp_client-Refusing ip old_mac mac hostname s = ground arith

delete_dhcp_client-Refusing : (mac : String) (s : LanState) → Refusing (delete_dhcp_client mac) s
unfolding delete_dhcp_client
delete_dhcp_client-Refusing mac s = ground arith

-- The handler's answer and state are the action's; the notification is the request.
notified-parts :
    (r : Request) (x : Result Reply × LanState)
    → ((notified r x).1 ≡ x.1)
      × (((notified r x).0 ≡ ok done) × ((notified r x).2 ≡ r ∷ [])
          ⊎ (((notified r x).0 ≢ ok done) × ((notified r x).2 ≡ [])))
notified-parts r (ok done, s) = (refl, inl (refl, refl))
notified-parts r (ok (refused reason), s) = (refl, inr (λ e. ground arith, refl))
notified-parts r (err e, s) = (refl, inr (λ e. ground arith, refl))

-- What action_update_settings does: it refuses, raises, or lets the handler update.
action_update_settings-cases :
    (new : NewSettings) (s : LanState)
    → ((action_update_settings new s).1 ≡ s)
        × ((action_update_settings new s).0 ≢ ok done)
        × ((action_update_settings new s).2 ≡ [])
      ⊎ (action_update_settings new s
          ≡ notified (update_settings_request new) (reply_of (update_settings new s)))
unfolding action_update_settings
action_update_settings-cases new s = by_mode new.mode refl
  where
    by_mode :
        (m : NewMode)
        → new.mode ≡ m
        → ((action_update_settings new s).1 ≡ s)
            × ((action_update_settings new s).0 ≢ ok done)
            × ((action_update_settings new s).2 ≡ [])
          ⊎ (action_update_settings new s
              ≡ notified (update_settings_request new) (reply_of (update_settings new s)))
    by_mode (unmanaged u) q = rw q (inr refl)
    by_mode (managed m) q = elim (Result-cases (range_accepted m)) [
      | inr (x, raised) ↦ rw (q, raised) (inl (refl, λ e. ground arith, refl))
      | inl (b, decided) ↦ elim (Bool-cases b) [
        | inl fits ↦ rw (q, decided, fits) (inr refl)
        | inr out ↦ rw (q, decided, out) (inl (refl, λ e. ground arith, refl))
      ]
    ]

-- An action of the LAN module notifies of its request just when it answers {"result": True}, and
-- sends nothing else.
pub action-notifies :
    (r : Request) (s : LanState)
    → ((action r s).0 ≡ ok done) × ((action r s).2 ≡ r ∷ [])
      ⊎ ((action r s).0 ≢ ok done) × ((action r s).2 ≡ [])
unfolding action
action-notifies (update_settings_request new) s = elim (action_update_settings-cases new s) [
  | inl (same, refusal, silent) ↦ inr (refusal, silent)
  | inr q ↦ rw q ((notified-parts (update_settings_request new) _).1)
]
action-notifies (set_dhcp_client_request ip mac hostname) s = (notified-parts _ _).1
action-notifies (update_dhcp_client_request ip old_mac mac hostname) s = (notified-parts _ _).1
action-notifies (delete_dhcp_client_request mac) s = (notified-parts _ _).1

delete_dhcp_client-clients :
    (mac : String) (s : LanState)
    → (clients_of (delete_dhcp_client mac s).1 ≡ clients_of s)
      ⊎ (clients_of (delete_dhcp_client mac s).1 ≡ filter (λ c. not (c.mac == mac)) (clients_of s))
unfolding delete_dhcp_client
delete_dhcp_client-clients mac s = ground arith

update_settings-never_false :
    (new : NewSettings) (s s' : LanState) → update_settings new s ≡ (ok false, s') → ⊥
unfolding update_settings
update_settings-never_false new s s' e = by_mode new.mode refl
  where
    by_mode : (m : NewMode) → new.mode ≡ m → ⊥
    by_mode (unmanaged u) q = cc (rw q at e)
    by_mode (managed n) q =
        elim (Result-cases (staying (set_managed n s.mode_managed) (clients_of s))) [
          | inl (kept, r) ↦ cc (rw (q, r) at e)
          | inr (x, r) ↦ cc (rw (q, r) at e)
        ]

update_settings-raised :
    (new : NewSettings) (s s' : LanState) (x : Raised)
    → update_settings new s ≡ (err x, s')
    → clients_of s ≡ clients_of s'
unfolding update_settings set_managed
update_settings-raised new s s' x e = by_mode new.mode refl
  where
    by_mode : (m : NewMode) → new.mode ≡ m → clients_of s ≡ clients_of s'
    by_mode (unmanaged u) q = absurd (cc (rw q at e))
    by_mode (managed n) q =
        elim (Result-cases (staying (set_managed n s.mode_managed) (clients_of s))) [
          | inl (kept, r) ↦ absurd (cc (rw (q, r) at e))
          | inr (y, r) ↦ ap (λ z. clients_of z.1) (rw (q, r) at e)
        ]

update_settings-clients :
    (new : NewSettings) (s : LanState)
    → NoClash (clients_of s)
    → NoClash (clients_of (update_settings new s).1)
update_settings-clients new s h = by_result (update_settings new s) refl
  where
    by_result : (x : Result Bool × LanState) → update_settings new s ≡ x → NoClash (clients_of x.1)
    by_result (ok true, t) e = update_settings-NoClash new s t e h
    by_result (ok false, t) e = absurd (update_settings-never_false new s t e)
    by_result (err x, t) e = subst NoClash (update_settings-raised new s t x e) h

handled :
    (r : Request) (x : Result Reply × LanState)
    → NoClash (clients_of x.1)
    → NoClash (clients_of (notified r x).1)
handled r x h = subst (λ s. NoClash (clients_of s)) (sym (notified-parts r x).0) h

-- A method that changes nothing unless it answers {"result": True}, and then keeps the clients apart.
kept-apart :
    (op : LanState → Result Reply × LanState) (s : LanState)
    → Refusing op s
    → ((s' : LanState) → op s ≡ (ok done, s') → NoClash (clients_of s'))
    → NoClash (clients_of s)
    → NoClash (clients_of (op s).1)
kept-apart op s (inl went) f h = f (op s).1 (ap (λ r. (r, (op s).1)) went)
kept-apart op s (inr same) f h = subst (λ t. NoClash (clients_of t)) (sym same) h

reply_of-state : (x : Result Bool × LanState) → (reply_of x).1 ≡ x.1
reply_of-state (ok true, s) = refl
reply_of-state (ok false, s) = refl
reply_of-state (err e, s) = refl

-- Whatever a request does, clients with different MAC addresses, host names and IP addresses
-- ("ignore" is none) stay so.
pub action-NoClash :
    (r : Request) (s : LanState) → NoClash (clients_of s) → NoClash (clients_of (action r s).1)
unfolding action
action-NoClash (update_settings_request new) s h = elim (action_update_settings-cases new s) [
  | inl (same, refusal, silent) ↦ subst (λ t. NoClash (clients_of t)) (sym same) h
  | inr q ↦ rw q (
      handled _ _ (
        subst (λ t. NoClash (clients_of t)) (sym (reply_of-state (update_settings new s)))
          (update_settings-clients new s h)))
]
action-NoClash (set_dhcp_client_request ip mac hostname) s h = handled _ _ (
    kept-apart (set_dhcp_client ip mac hostname) s (set_dhcp_client-Refusing ip mac hostname s)
      (λ s' e. set_dhcp_client-NoClash ip mac hostname s s' e h) h)
action-NoClash (update_dhcp_client_request ip old_mac mac hostname) s h = handled _ _ (
    kept-apart (update_dhcp_client ip old_mac mac hostname) s
      (update_dhcp_client-Refusing ip old_mac mac hostname s)
      (λ s' e. update_dhcp_client-NoClash ip old_mac mac hostname s s' e h) h)
action-NoClash (delete_dhcp_client_request mac) s h =
    handled _ _ (elim (delete_dhcp_client-clients mac s) [
      | inl same ↦ subst NoClash (sym same) h
      | inr some_left ↦ subst NoClash (sym some_left) (NoClash-filter _ (clients_of s) h)
    ])

abbrev pub on_client : Request → Bool
on_client (update_settings_request new) = false
on_client _ = true

quiet :
    (r : Request) (x : Result Reply × LanState) (s : LanState)
    → (x.0 ≡ ok done) ⊎ (x.1 ≡ s)
    → (notified r x).0 ≢ ok done
    → (notified r x).1 ≡ s
quiet r (ok done, t) s h n = absurd (n refl)
quiet r (ok (refused reason), t) s (inl h) n = absurd (ground arith)
quiet r (ok (refused reason), t) s (inr h) n = h
quiet r (err e, t) s (inl h) n = absurd (ground arith)
quiet r (err e, t) s (inr h) n = h

-- A request on a single client that does not answer {"result": True} leaves the state as it was.
pub action-unchanged :
    (r : Request) (s : LanState)
    → on_client r ≡ true
    → (action r s).0 ≢ ok done
    → (action r s).1 ≡ s
unfolding action
action-unchanged (update_settings_request new) s c n = absurd (cc)
action-unchanged (set_dhcp_client_request ip mac hostname) s c n =
    quiet _ _ s (set_dhcp_client-Refusing ip mac hostname s) n
action-unchanged (update_dhcp_client_request ip old_mac mac hostname) s c n =
    quiet _ _ s (update_dhcp_client-Refusing ip old_mac mac hostname s) n
action-unchanged (delete_dhcp_client_request mac) s c n =
    quiet _ _ s (delete_dhcp_client-Refusing mac s) n
