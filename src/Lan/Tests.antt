-- ===== src/Lan/Tests.antt =====
-- Requests to the LAN module in its default settings, with the DHCP server switched on.
use foris_controller.Prelude.{upper, ◌≡◌, ◌≢◌, ◌⊎◌, refl, true, none, some, [], ◌∷◌, All, arith}
use foris_controller.Exceptions.{ok}
use foris_controller.Ipaddress.{
  ip_address, read_mask, ip_network, contains, plus, dynamic_range, check_dynamic_ranges,
}
use foris_controller.Lan.{
  LanState, NewManaged, NewSettings, managed, done, refused, in_range, in_network, stays, staying,
  set_managed, update_settings,
}
use foris_controller.Lan.Hosts.{
  clients_of, validate_dhcp_host_ip, set_dhcp_client, find_last, set_last, update_dhcp_client,
  delete_dhcp_client,
}
use foris_controller.Lan.Actions.{
  Request, update_settings_request, set_dhcp_client_request, range_accepted, action_update_settings,
  action,
}
use foris_controller.Lan.Clients.{NoClash}
use foris_controller.Lan.Settings.{Fits, update_settings-Fits}
use foris_controller.Lan.Requests.{action-notifies}
use foris_controller.Lan.Deletion.{delete_dhcp_client-set_dhcp_client}
use foris_controller.Lan.Defaults.{prvni, initial, serve, serve-NoClash}

runs : Unit {0}
unfolding ip_address read_mask ip_network contains plus dynamic_range check_dynamic_ranges in_range
    in_network stays staying set_managed update_settings validate_dhcp_host_ip set_dhcp_client
    find_last set_last update_dhcp_client delete_dhcp_client range_accepted action_update_settings
    action upper serve
runs = tt

abbrev on : NewManaged
on = record {
  router_ip = "192.168.1.1";
  netmask = "255.255.255.0";
  enabled = true;
  start = some 100;
  limit = some 100;
  lease_time = some 120;
}

abbrev switch_on : NewSettings
switch_on = record { lan_redirect = none; qos = none; mode = managed on }

-- The settings are accepted, and drop the client that is not in the network.
abbrev switched : LanState
switched = (update_settings switch_on initial).1

switched-clients : clients_of switched ≡ prvni ∷ []
unfolding runs
switched-clients = refl

abbrev with_printer : LanState
with_printer = (set_dhcp_client "192.168.1.9" "aa:bb:cc:dd:ee:ff" "printer" switched).1

printer-set :
    set_dhcp_client "192.168.1.9" "aa:bb:cc:dd:ee:ff" "printer" switched ≡ (ok done, with_printer)
unfolding runs
printer-set = refl

in_use :
    set_dhcp_client "192.168.1.1" "aa:bb:cc:dd:ee:ff" "printer" switched
    ≡ (ok (refused "ip-exists"), switched)
unfolding runs
in_use = refl

serve-NoClash_example : NoClash (
    clients_of (
      serve
        (update_settings_request switch_on
          ∷ set_dhcp_client_request "192.168.1.9" "aa:bb:cc:dd:ee:ff" "printer"
          ∷ [])
        initial))
serve-NoClash_example = serve-NoClash (
    update_settings_request switch_on
    ∷ set_dhcp_client_request "192.168.1.9" "aa:bb:cc:dd:ee:ff" "printer"
    ∷ [])

accepted : update_settings switch_on initial ≡ (ok true, switched)
unfolding runs
accepted = refl

update_settings-Fits_example : All (Fits switched.mode_managed) (clients_of switched)
update_settings-Fits_example = update_settings-Fits switch_on initial switched accepted on refl

delete_dhcp_client-set_dhcp_client_example :
    delete_dhcp_client (upper "aa:bb:cc:dd:ee:ff") with_printer ≡ (ok done, switched)
delete_dhcp_client-set_dhcp_client_example =
    delete_dhcp_client-set_dhcp_client "192.168.1.9" "aa:bb:cc:dd:ee:ff" "printer" switched
      with_printer printer-set

-- In the default settings the DHCP server is off.
abbrev early : Request
early = set_dhcp_client_request "192.168.1.9" "aa:bb:cc:dd:ee:ff" "printer"

early-refused : (action early initial).0 ≢ ok done
unfolding runs
early-refused e = ground arith

action-notifies_example :
    ((action early initial).0 ≡ ok done) × ((action early initial).2 ≡ early ∷ [])
    ⊎ ((action early initial).0 ≢ ok done) × ((action early initial).2 ≡ [])
action-notifies_example = action-notifies early initial
