-- ===== src/Wifi.antt =====
-- foris_controller_modules/wifi/handlers/mock.py: the devices and their update. A request enables a
-- device with its settings, which the schema requires, or disables it.
pub mod Laws
mod Tests
use Prim.Native.Nat.{compare, Ordering}
use foris_controller.Prelude.{
  ℕ, String, ◌==◌, Bool, true, false, ◌&&◌, ◌||◌, Option, none, some, List, [], ◌∷◌, any, filter,
  if◌then◌else◌,
}

abbrev pub same : ℕ → ℕ → Bool
same a b = elim (compare a b) [ Ordering.eq ↦ true | _ ↦ false ]

pub record Channel : Type 0 where
  pub number : ℕ
  pub frequency : ℕ
  pub radar : Bool

pub record Band : Type 0 where
  pub hwmode : String
  pub available_htmodes : List String
  pub available_channels : List Channel

pub record GuestWifi : Type 0 where
  pub enabled : Bool
  pub ssid : String
  pub password : String
  pub encryption : String

pub record Device : Type 0 where
  pub id : ℕ
  pub enabled : Bool
  pub ssid : String
  pub hidden : Bool
  pub channel : ℕ
  pub htmode : String
  pub hwmode : String
  pub encryption : String
  pub ieee80211w_disabled : Option Bool
  pub password : String
  pub guest_wifi : GuestWifi
  pub available_bands : List Band

-- guest_wifi of the request is `none` when it is not enabled.
pub record Wanted : Type 0 where
  pub ssid : String
  pub hidden : Bool
  pub channel : ℕ
  pub htmode : String
  pub hwmode : String
  pub encryption : Option String
  pub ieee80211w_disabled : Option Bool
  pub password : String
  pub guest_wifi : Option GuestWifi

pub record Update : Type 0 where
  pub id : ℕ
  -- `none`: disabled
  pub wanted : Option Wanted

abbrev pub band_allows : ℕ → String → List Band → Bool
band_allows channel htmode (band ∷ []) =
    (any (λ c. same c.number channel) band.available_channels || same channel 0)
    && any (λ m. m == htmode) band.available_htmodes
band_allows channel htmode _ = false

-- The one corresponding band, its channels and its htmodes.
unfoldable pub allowed : String → ℕ → String → List Band → Bool
allowed hwmode channel htmode bands =
    band_allows channel htmode (filter (λ band. band.hwmode == hwmode) bands)

abbrev pub guest_of : GuestWifi → Option GuestWifi → GuestWifi
guest_of old none = record old { enabled = false }
guest_of old (some guest) = guest

abbrev pub with_settings : Wanted → String → Device → Device
with_settings w encryption dev = record dev {
  enabled = true;
  ssid = w.ssid;
  hidden = w.hidden;
  channel = w.channel;
  htmode = w.htmode;
  hwmode = w.hwmode;
  encryption = encryption;
}

abbrev pub with_secrets : Wanted → Option Bool → Device → Device
with_secrets w disabled dev = record dev {
  ieee80211w_disabled = disabled;
  password = w.password;
  guest_wifi = guest_of dev.guest_wifi w.guest_wifi;
}

-- By the encryption: without one, the default is stored, and then the device is refused.
abbrev pub store_settings : Wanted → Option String → Device → Bool × Device
store_settings w none dev = (false, with_settings w "WPA2/3" dev)
store_settings w (some e) dev =
    let stored = with_settings w e dev in
    if e == "WPA2/3" || e == "WPA3"
    then (true, with_secrets w w.ieee80211w_disabled stored)
    else if e == "WPA2"
    then (true, with_secrets w (some false) stored)
    else (false, stored)

-- What _update_device makes of the device that it has found.
unfoldable pub set_device : Option Wanted → Device → Bool × Device
set_device none dev = (true, record dev { enabled = false })
set_device (some w) dev = elim (allowed w.hwmode w.channel w.htmode dev.available_bands) [
  | false ↦ (false, record dev { enabled = true })
  | true ↦ store_settings w w.encryption dev
]

-- The last device with the id.
unfoldable pub update_device : Update → List Device → Bool × List Device
update_device new [] = (false, [])
update_device new (dev ∷ devices) =
    let (done, rest) = update_device new devices in
    let (set, changed) = set_device new.wanted dev in
    if any (λ d. same new.id d.id) devices
    then (done, dev ∷ rest)
    else if same new.id dev.id
    then (set, changed ∷ devices)
    else (false, dev ∷ devices)

-- for device in new_settings["devices"], until one is refused
unfoldable pub update_devices : List Update → List Device → Bool × List Device
update_devices [] devices = (true, devices)
update_devices (new ∷ news) devices =
    let (done, changed) = update_device new devices in
    let rest = update_devices news changed in if done then rest else (false, changed)

unfoldable pub update_settings : List Update → List Device → Bool × List Device
update_settings news devices =
    let (done, changed) = update_devices news devices in
    if done then (true, changed) else (false, devices)
