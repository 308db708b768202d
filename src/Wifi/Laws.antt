-- ===== src/Wifi/Laws.antt =====
-- What an update of the devices keeps.
use foris_controller.Prelude.{
  ℕ, ◌⊎◌, eq_iff, arith, filter, String, ◌==◌, ◌≡◌, refl, Bool, true, false, ◌||◌, Option, none,
  some, List, [], ◌∷◌, any, All, if◌then◌else◌, Bool-cases, inl, inr,
}
use foris_controller.Wifi.{
  Band, Device, Wanted, Update, same, allowed, band_allows, store_settings, set_device,
  update_device, update_devices, update_settings,
}

-- Somewhere in the list stands an element with the property.
abbrev pub Some {ℓ} : {A : Type ℓ} → (A → Type 0) → List A → Type 0
Some P [] = ⊥
Some P (x ∷ xs) = P x ⊎ Some P xs

-- The band is the only one of those found, and has the htmode and the channel, or the channel is 0.
abbrev pub IsFit : ℕ → String → List Band → Band → Type 0
IsFit channel htmode found band =
    (found ≡ band ∷ [])
    × (Some (λ c. c.number ≡ channel) band.available_channels ⊎ (channel ≡ 0))
    × Some (λ m. m ≡ htmode) band.available_htmodes

-- An enabled device has a channel, or the channel 0, and an htmode of its only band with its hwmode.
abbrev pub IsAllowed : Device → Type 0
IsAllowed dev =
    dev.enabled ≡ true
    → (band : Band) × IsFit dev.channel dev.htmode
        (filter (λ b. b.hwmode == dev.hwmode) dev.available_bands) band

any-Some {ℓ} :
    {A : Type ℓ} {P : A → Type 0} (f : A → Bool)
    → ((x : A) → f x ≡ true → P x)
    → (xs : List A) → any f xs ≡ true
    → Some P xs
any-Some f g [] e = absurd cc
any-Some f g (x ∷ xs) e = elim (Bool-cases (f x)) [
  | inl t ↦ inl (g x t)
  | inr n ↦ inr (any-Some f g xs (ground (arith, n, e)))
]

same-eq : (a b : ℕ) → same a b ≡ true → a ≡ b
same-eq a b e = ground arith

allowed-IsFit :
    (hwmode : String) (channel : ℕ) (htmode : String) (bands : List Band)
    → allowed hwmode channel htmode bands ≡ true
    → (band : Band) × IsFit channel htmode (filter (λ b. b.hwmode == hwmode) bands) band
unfolding allowed
allowed-IsFit hwmode channel htmode bands = by_bands (filter (λ b. b.hwmode == hwmode) bands)
  where
    by_band :
        (band : Band)
        → band_allows channel htmode (band ∷ []) ≡ true
        → (Some (λ c. c.number ≡ channel) band.available_channels ⊎ (channel ≡ 0))
          × Some (λ m. m ≡ htmode) band.available_htmodes
    by_band band e =
        let listed = any (λ c. same c.number channel) band.available_channels in
        let modes = any (λ m. m == htmode) band.available_htmodes in
        let on : (listed || same channel 0) ≡ true = ground (arith, e) in
        let m : modes ≡ true = ground (arith, e) in
        (
          elim (Bool-cases listed) [
            | inl t ↦ inl (
                any-Some (λ c. same c.number channel) (λ c. same-eq c.number channel)
                  band.available_channels t)
            | inr f ↦ inr (same-eq channel 0 (ground (arith, on, f)))
          ],
          any-Some (λ m. m == htmode) (λ m q. ground (arith, eq_iff m htmode, q))
              band.available_htmodes m,
        )

    by_bands :
        (found : List Band)
        → band_allows channel htmode found ≡ true
        → (band : Band) × IsFit channel htmode found band
    by_bands [] e = absurd cc
    by_bands (band ∷ []) e = let fit = by_band band e in (band, (refl, fit.0, fit.1))
    by_bands (band ∷ b ∷ bands) e = absurd cc

-- Of a result that is not refused.
abbrev KeepsDevice : Bool × Device → Type 0
KeepsDevice r = r.0 ≡ true → IsAllowed r.1

abbrev KeepsDevices : Bool × List Device → Type 0
KeepsDevices r = r.0 ≡ true → All IsAllowed r.1

if-all {ℓ κ} :
    {A : Type ℓ} (P : A → Type κ) (b : Bool) (x y : A) → P x → P y → P (if b then x else y)
if-all P true x y hx hy = hx
if-all P false x y hx hy = hy

store_settings-KeepsDevice :
    (w : Wanted) (e : Option String) (dev : Device)
    → allowed w.hwmode w.channel w.htmode dev.available_bands ≡ true
    → KeepsDevice (store_settings w e dev)
store_settings-KeepsDevice w none dev h = λ k. absurd cc
store_settings-KeepsDevice w (some e) dev h =
    let fit = allowed-IsFit w.hwmode w.channel w.htmode dev.available_bands h in
    if-all KeepsDevice (e == "WPA2/3" || e == "WPA3") _ _ (λ k on. fit)
      (if-all KeepsDevice (e == "WPA2") _ _ (λ k on. fit) (λ k. absurd cc))

set_device-KeepsDevice : (w : Option Wanted) (dev : Device) → KeepsDevice (set_device w dev)
unfolding set_device
set_device-KeepsDevice none dev = λ k on. absurd cc
set_device-KeepsDevice (some w) dev =
    by_check (allowed w.hwmode w.channel w.htmode dev.available_bands) refl
  where
    by_check :
        (b : Bool)
        → allowed w.hwmode w.channel w.htmode dev.available_bands ≡ b
        → KeepsDevice (elim b [
          | false ↦ (false, record dev { enabled = true })
          | true ↦ store_settings w w.encryption dev
        ])
    by_check false e = λ k. absurd cc
    by_check true e = store_settings-KeepsDevice w w.encryption dev e

update_device-KeepsDevices :
    (new : Update) (devices : List Device)
    → All IsAllowed devices
    → KeepsDevices (update_device new devices)
unfolding update_device
update_device-KeepsDevices new [] h = λ k. tt
update_device-KeepsDevices new (dev ∷ devices) h =
    if-all KeepsDevices (any (λ d. same new.id d.id) devices) _ _
      (λ k. (h.0, update_device-KeepsDevices new devices h.1 k))
      (if-all KeepsDevices (same new.id dev.id) _ _
        (λ k. (set_device-KeepsDevice new.wanted dev k, h.1)) (λ k. absurd cc))

update_devices-KeepsDevices :
    (news : List Update) (devices : List Device)
    → All IsAllowed devices
    → KeepsDevices (update_devices news devices)
unfolding update_devices
update_devices-KeepsDevices [] devices h = λ k. h
update_devices-KeepsDevices (new ∷ news) devices h =
    elim (Bool-cases (update_device new devices).0) [
      | inl t ↦ rw t (
          update_devices-KeepsDevices news (update_device new devices).1
            (update_device-KeepsDevices new devices h t))
      | inr f ↦ rw f (λ k. absurd cc)
    ]

-- An update, whether it goes through or not, keeps every device that is enabled on a channel and an
-- htmode of its only band with its hwmode, where the channel may also be 0, which stands for an
-- automatic one; one that is refused changes no device.
pub update_settings-AllAllowed :
    (news : List Update) (devices : List Device)
    → All IsAllowed devices
    → All IsAllowed (update_settings news devices).1
      × ((update_settings news devices).0 ≡ false → (update_settings news devices).1 ≡ devices)
unfolding update_settings
update_settings-AllAllowed news devices h = elim (Bool-cases (update_devices news devices).0) [
  | inl t ↦ rw t (update_devices-KeepsDevices news devices h t, λ k. absurd cc)
  | inr f ↦ rw f (h, λ k. refl)
]
