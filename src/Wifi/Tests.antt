-- ===== src/Wifi/Tests.antt =====
-- Updates of a radio with one band: two that go through, and one with a channel of another band.
use foris_controller.Prelude.{◌≡◌, refl, inl, true, false, none, some, List, [], ◌∷◌, All}
use foris_controller.Wifi.{
  Band, GuestWifi, Device, Wanted, Update, allowed, set_device, update_device, update_devices,
  update_settings,
}
use foris_controller.Wifi.Laws.{IsAllowed, update_settings-AllAllowed}

abbrev band : Band
band = record {
  hwmode = "11g";
  available_htmodes = "NOHT" ∷ "HT20" ∷ [];
  available_channels =
      record { number = 1; frequency = 2412; radar = false }
      ∷ record { number = 2; frequency = 2417; radar = false }
      ∷ [];
}

abbrev guest : GuestWifi
guest = record { enabled = false; ssid = "Turris-guest"; password = ""; encryption = "WPA2/3" }

abbrev radio : Device
radio = record {
  id = 0;
  enabled = false;
  ssid = "Turris";
  hidden = false;
  channel = 36;
  htmode = "HE80";
  hwmode = "11a";
  encryption = "WPA2/3";
  ieee80211w_disabled = some false;
  password = "";
  guest_wifi = guest;
  available_bands = band ∷ [];
}

abbrev wanted : Wanted
wanted = record {
  ssid = "Home";
  hidden = false;
  channel = 2;
  htmode = "HT20";
  hwmode = "11g";
  encryption = some "WPA3";
  ieee80211w_disabled = some true;
  password = "good-password";
  guest_wifi = none;
}

abbrev enable : List Update
enable = record { id = 0; wanted = some wanted } ∷ []

abbrev wrong_channel : List Update
wrong_channel = record { id = 0; wanted = some (record wanted { channel = 36 }) } ∷ []

enabled : (update_settings enable (radio ∷ [])).0 ≡ true
unfolding update_settings update_devices update_device set_device allowed
enabled = refl

refused : update_settings wrong_channel (radio ∷ []) ≡ (false, radio ∷ [])
unfolding enabled
refused = refl

-- The radio runs on channel 1, and is to run on channel 2.
abbrev running : Device
running = record radio { enabled = true; channel = 1; htmode = "NOHT"; hwmode = "11g" }

moved : update_settings enable (running ∷ []) ≡ (
  true,
  record running {
    ssid = "Home";
    channel = 2;
    htmode = "HT20";
    encryption = "WPA3";
    ieee80211w_disabled = some true;
    password = "good-password";
  }
      ∷ [],
)
unfolding enabled
moved = refl

running-IsAllowed : All IsAllowed (running ∷ [])
running-IsAllowed = (λ on. (band, (refl, inl (inl refl), inl refl)), tt)

update_settings-AllAllowed_example :
    All IsAllowed (update_settings enable (running ∷ [])).1
    × ((update_settings enable (running ∷ [])).0 ≡ false
        → (update_settings enable (running ∷ [])).1 ≡ running ∷ [])
update_settings-AllAllowed_example =
    update_settings-AllAllowed enable (running ∷ []) running-IsAllowed
