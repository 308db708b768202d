-- ===== src/Wan/Handler/Laws.antt =====
-- update_settings and get_settings of foris_controller_modules/wan/handlers/mock.py together.
use foris_controller.Prelude.{
  ◌==◌, ℕ, ◌≡◌, refl, sym, ◌∙◌, subst, true, false, Option, none, some, arith, Bool-cases, inl, inr,
  if◌then◌else◌, ap,
}
use foris_controller.Exceptions.{key_error, Result, ok, err}
use foris_controller.Networks.{NetworksState, interface_count, interface_up_count}
use foris_controller.Wan.{
  WanState, WanSettings, wan_none, dhcp, static, pppoe, Wan6Settings, wan6_none, static6, dhcpv6,
  six_to_four, six_in_four, NewVlan, vlan_off, vlan_on, NewSettings, Settings, Qos, VlanSettings,
  hardware_mac_address,
}
use foris_controller.Wan.Handler.{
  cleanup, set_wan, set_wan6, set_qos, set_vlan, update_settings, show_wan, show_wan6, get_settings,
}

-- The settings of a request as they are shown: an empty hostname is left out.
abbrev pub shown_wan : WanSettings → WanSettings
shown_wan (dhcp none) = dhcp none
shown_wan (dhcp (some hostname)) = if hostname == "" then dhcp none else dhcp (some hostname)
shown_wan w = w

show_wan-set_wan6 : (x : Wan6Settings) (s : WanState) → show_wan (set_wan6 x s) ≡ show_wan s
unfolding show_wan set_wan6
show_wan-set_wan6 wan6_none s = refl
show_wan-set_wan6 (static6 a) s = refl
show_wan-set_wan6 (dhcpv6 duid) s = refl
show_wan-set_wan6 (six_to_four a) s = refl
show_wan-set_wan6 (six_in_four t) s = refl

show_wan-set_wan : (w : WanSettings) (s : WanState) → show_wan (set_wan w s) ≡ shown_wan w
unfolding show_wan set_wan
show_wan-set_wan wan_none s = refl
show_wan-set_wan (dhcp none) s = refl
show_wan-set_wan (dhcp (some hostname)) s = elim (Bool-cases (hostname == "")) [
  | inl e ↦ rw e refl
  | inr e ↦ rw e refl
]
show_wan-set_wan (static a) s = refl
show_wan-set_wan (pppoe q) s = refl

show_wan6-set_wan6 : (x : Wan6Settings) (s : WanState) → show_wan6 (set_wan6 x s) ≡ ok x
unfolding show_wan6 set_wan6
show_wan6-set_wan6 wan6_none s = refl
show_wan6-set_wan6 (static6 a) s = refl
show_wan6-set_wan6 (dhcpv6 duid) s = refl
show_wan6-set_wan6 (six_to_four a) s = refl
show_wan6-set_wan6 (six_in_four t) s = refl

-- set_wan and set_wan6 leave the address of the device as _cleanup has set it.
mac_address-stored :
    (w : WanSettings) (x : Wan6Settings) (s : WanState)
    → (set_wan6 x (set_wan w (cleanup s))).mac_address ≡ some hardware_mac_address
unfolding set_wan set_wan6 cleanup
mac_address-stored w x s = ground arith

-- get_settings from its parts.
get_settings-parts :
    (nets : NetworksState) (t : WanState) (count up : ℕ) (x : Wan6Settings)
    → interface_count "wan" nets ≡ ok count
    → interface_up_count "wan" nets ≡ ok up
    → show_wan6 t ≡ ok x
    → (get_settings nets t).0
      ≡ ok (record {
        wan_settings = show_wan t;
        wan6_settings = x;
        custom_mac_enabled = t.custom_mac_enabled;
        custom_mac = if t.custom_mac_enabled then t.custom_mac else none;
        mac_address = if t.custom_mac_enabled then t.custom_mac else t.mac_address;
        interface_count = count;
        interface_up_count = up;
        qos = t.qos;
        vlan_settings = t.vlan_settings;
      })
unfolding get_settings
get_settings-parts nets t count up x c u w = rw (c, u, w) refl

-- What get_settings shows of the settings of a request.
abbrev pub shown : NewSettings → Qos → VlanSettings → ℕ → ℕ → Settings
shown new q v count up = record {
  wan_settings = shown_wan new.wan_settings;
  wan6_settings = new.wan6_settings;
  custom_mac_enabled = new.custom_mac_enabled;
  custom_mac = if new.custom_mac_enabled then new.custom_mac else none;
  mac_address = if new.custom_mac_enabled then new.custom_mac else some hardware_mac_address;
  interface_count = count;
  interface_up_count = up;
  qos = q;
  vlan_settings = v;
}

-- The state that an update_settings which went through has stored.
abbrev stored : NewSettings → WanState → VlanSettings → WanState
stored new s v = record (set_wan6 new.wan6_settings (set_wan new.wan_settings (cleanup s))) {
  custom_mac_enabled = new.custom_mac_enabled;
  custom_mac = new.custom_mac;
  qos = set_qos new.qos s.qos;
  vlan_settings = v;
  guide_set = true;
}

update_settings-stored :
    (new : NewSettings) (s s' : WanState)
    → update_settings new s ≡ (ok true, s')
    → (v : VlanSettings) × (s' ≡ stored new s v)
      × (set_vlan new.vlan_settings s.vlan_settings ≡ (ok tt, v))
unfolding update_settings
update_settings-stored new s s' e = by_vlan _ refl
  where
    by_vlan :
        (v : Result (Unit {0}) × VlanSettings)
        → set_vlan new.vlan_settings s.vlan_settings ≡ v
        → (v' : VlanSettings) × (s' ≡ stored new s v')
          × (set_vlan new.vlan_settings s.vlan_settings ≡ (ok tt, v'))
    by_vlan (ok _, v) q = (v, sym (ap (λ x. x.1) (rw q at e)), q)
    by_vlan (err x, v) q = absurd (cc (rw q at e))

stored-shown :
    (new : NewSettings) (s : WanState) (v : VlanSettings) (nets : NetworksState) (count up : ℕ)
    → interface_count "wan" nets ≡ ok count
    → interface_up_count "wan" nets ≡ ok up
    → (get_settings nets (stored new s v)).0 ≡ ok (shown new (set_qos new.qos s.qos) v count up)
unfolding show_wan show_wan6
stored-shown new s v nets count up c u =
    let base = set_wan new.wan_settings (cleanup s) in
    let full = set_wan6 new.wan6_settings base in
    let w : show_wan (stored new s v) ≡ shown_wan new.wan_settings =
      show_wan-set_wan6 new.wan6_settings base ∙ show_wan-set_wan new.wan_settings (cleanup s) in
    let m = mac_address-stored new.wan_settings new.wan6_settings s in
    get_settings-parts nets (stored new s v) count up new.wan6_settings c u
      (show_wan6-set_wan6 new.wan6_settings base)
    ∙ rw (w, m) refl

-- The QoS settings q after the old ones: what a request has that switches them on, and the old rates
-- after one that switches them off.
abbrev pub ShowsQos : Option Qos → Qos → Qos → Type 0
ShowsQos none old q = q ≡ old
ShowsQos (some new) old q =
    (q.enabled ≡ new.enabled)
    × (new.enabled ≡ true → (q.upload ≡ new.upload) × (q.download ≡ new.download))
    × (new.enabled ≡ false → (q.upload ≡ old.upload) × (q.download ≡ old.download))

-- The VLAN settings v after the old ones.
abbrev pub ShowsVlan : Option NewVlan → VlanSettings → VlanSettings → Type 0
ShowsVlan none old v = v ≡ old
ShowsVlan (some (vlan_on i)) old v = (v.enabled ≡ true) × (v.vlan_id ≡ some i)
ShowsVlan (some vlan_off) old v = (v.enabled ≡ false) × (v.vlan_id ≡ none)

set_qos-ShowsQos : (new : Option Qos) (old : Qos) → ShowsQos new old (set_qos new old)
unfolding set_qos
set_qos-ShowsQos none old = refl
set_qos-ShowsQos (some new) old = elim (Bool-cases new.enabled) [
  | inl on ↦ rw on (refl, λ _. (refl, refl), λ off. absurd cc)
  | inr off ↦ rw off (refl, λ on. absurd cc, λ _. (refl, refl))
]

set_vlan-ShowsVlan :
    (new : Option NewVlan) (old v : VlanSettings)
    → set_vlan new old ≡ (ok tt, v)
    → ShowsVlan new old v
unfolding set_vlan
set_vlan-ShowsVlan none old v e = sym (ap (λ x. x.1) e)
set_vlan-ShowsVlan (some (vlan_on i)) old v e =
    (sym (ap (λ x. x.1.enabled) e), sym (ap (λ x. x.1.vlan_id) e))
set_vlan-ShowsVlan (some vlan_off) old v e = ground arith

-- After an update_settings that went through, get_settings shows the WAN settings of the request,
-- without an empty hostname, its IPv6 settings, its MAC settings, and the counts of the network; its
-- QoS settings when they are enabled, the old rates as disabled when they are not, and the old QoS
-- settings when it has none; and its VLAN, no VLAN when it switches it off, and the old VLAN settings
-- when it has none.
pub get_settings-update_settings :
    (new : NewSettings) (s s' : WanState) (nets : NetworksState) (count up : ℕ)
    → update_settings new s ≡ (ok true, s')
    → interface_count "wan" nets ≡ ok count
    → interface_up_count "wan" nets ≡ ok up
    → (q : Qos) × (v : VlanSettings) × ((get_settings nets s').0 ≡ ok (shown new q v count up))
      × ShowsQos new.qos s.qos q
      × ShowsVlan new.vlan_settings s.vlan_settings v
get_settings-update_settings new s s' nets count up e c u =
    let (v, same, went) = update_settings-stored new s s' e in
    let q = set_qos new.qos s.qos in
    (
      q,
      v,
      subst (λ (t : WanState). (get_settings nets t).0 ≡ ok (shown new q v count up)) (sym same)
          (stored-shown new s v nets count up c u),
      set_qos-ShowsQos new.qos s.qos,
      set_vlan-ShowsVlan new.vlan_settings s.vlan_settings v went,
    )

-- Switching the VLAN off when no vlan_id is set raises KeyError, with the guide not marked as set.
pub update_settings-vlan_off :
    (new : NewSettings) (s : WanState)
    → new.vlan_settings ≡ some vlan_off
    → s.vlan_settings.vlan_id ≡ none
    → ((update_settings new s).0 ≡ err (key_error "vlan_id"))
      × ((update_settings new s).1.guide_set ≡ s.guide_set)
unfolding update_settings set_vlan set_wan set_wan6 cleanup
update_settings-vlan_off new s off missing = rw (off, missing) (refl, ground arith)
