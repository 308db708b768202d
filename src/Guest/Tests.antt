-- ===== src/Guest/Tests.antt =====
-- A guest network with a range of addresses, and one whose range reaches over the network.
use foris_controller.Prelude.{◌≡◌, ◌≢◌, ◌⊎◌, refl, true, false, some, [], ◌∷◌, arith}
use foris_controller.Exceptions.{ok}
use foris_controller.Ipaddress.{
  ip_address, read_mask, ip_network, contains, plus, dynamic_range, check_dynamic_ranges,
}
use foris_controller.Guest.{
  GuestState, initial, NewSettings, enable, qos_off, set_qos, update_settings, range_of,
  range_accepted, action_update_settings,
}
use foris_controller.Guest.Laws.{HasRange, action_update_settings-HasRange}

abbrev fitting : NewSettings
fitting =
    enable "10.1.1.1" "255.255.255.0"
      (record { enabled = true; start = some 100; limit = some 50; lease_time = some 3600 }) qos_off

abbrev too_long : NewSettings
too_long =
    enable "10.1.1.1" "255.255.255.0"
      (record { enabled = true; start = some 100; limit = some 200; lease_time = some 3600 })
      qos_off

abbrev after : GuestState
after = (update_settings fitting initial).1

runs : Unit {0}
unfolding ip_address read_mask ip_network contains plus dynamic_range check_dynamic_ranges range_of
    range_accepted set_qos update_settings action_update_settings
runs = tt

fitting-run : action_update_settings fitting initial ≡ (ok true, after, fitting ∷ [])
unfolding runs
fitting-run = refl

action_update_settings-HasRange_example :
    (fitting ∷ [] ≡ fitting ∷ [])
    × ((after ≡ record initial { enabled = false })
        ⊎ (after.enabled ≡ true) × ((after.dhcp.enabled ≡ false) ⊎ HasRange after))
action_update_settings-HasRange_example =
    action_update_settings-HasRange fitting initial after (fitting ∷ []) fitting-run

too_long-refused : (action_update_settings too_long initial).0 ≢ ok true
unfolding runs
too_long-refused e = ground arith
