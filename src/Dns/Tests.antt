-- ===== src/Dns/Tests.antt =====
-- The methods of the DNS handler on its default forwarders.
use foris_controller.Prelude.{◌≡◌, refl, true, false, none, some, [], ◌∷◌}
use foris_controller.Dns.{Fields, initial, NewSettings, get_converted_forwarders, update_settings}
use foris_controller.Dns.Forwarders.{
  added_name, add_forwarder, write, set_forwarder, take_out, del_forwarder,
}
use foris_controller.Dns.Forwarders.Laws.{fixed, forwarders-fixed, del_forwarder-add_forwarder}

abbrev own : Fields
own = record {
  description = "own";
  ipaddresses = record { ipv4 = "10.0.0.53" ∷ []; ipv6 = [] };
  tls_type = "no";
  tls_hostname = "";
  tls_pin = "";
}

abbrev unknown : NewSettings
unknown = record {
  forwarding_enabled = true;
  dnssec_enabled = false;
  dns_from_dhcp_enabled = false;
  forwarder = some "00_none";
  dns_from_dhcp_domain = none;
}

runs : Unit {0}
unfolding add_forwarder write set_forwarder take_out del_forwarder update_settings
    get_converted_forwarders
runs = tt

unknown-run : update_settings unknown initial ≡ (false, initial)
unfolding runs
unknown-run = refl

google-refused : (set_forwarder "99_google" own initial).0 ≡ false
unfolding runs
google-refused = refl

forwarders-fixed_example :
    (fixed (add_forwarder own initial).1.available_forwarders ≡ fixed initial.available_forwarders)
    × (fixed (set_forwarder "99_google" own initial).1.available_forwarders
        ≡ fixed initial.available_forwarders)
    × (fixed (del_forwarder "99_google" initial).1.available_forwarders
        ≡ fixed initial.available_forwarders)
forwarders-fixed_example = forwarders-fixed "99_google" own initial

del_forwarder-add_forwarder_example :
    del_forwarder added_name (add_forwarder own initial).1 ≡ (true, initial)
del_forwarder-add_forwarder_example = del_forwarder-add_forwarder own initial refl
