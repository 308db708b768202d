-- ===== src/Wan/Tests.antt =====
-- A static address and a VLAN on a device without ports.
use foris_controller.Prelude.{◌≡◌, refl, true, false, none, some, [], ◌∷◌, lookup}
use foris_controller.Exceptions.{ok}
use foris_controller.Networks.{NetworksState, interface_count, interface_up_count}
use foris_controller.Wan.{
  WanState, initial, static, dhcpv6, vlan_on, vlan_off, NewSettings, Qos, VlanSettings,
}
use foris_controller.Wan.Handler.{
  cleanup, set_wan, set_wan6, set_qos, set_vlan, update_settings, show_wan, show_wan6, get_settings,
}
use foris_controller.Wan.Handler.Laws.{shown, ShowsQos, ShowsVlan, get_settings-update_settings}

abbrev device : NetworksState
device = record {
  guide_set = false;
  model = "turris";
  version = "4.0";
  firewall = record { ssh_on_wan = false; http_on_wan = false; https_on_wan = false };
  networks = ("wan", []) ∷ [];
}

abbrev tagged : NewSettings
tagged = record {
  wan_settings = static (record {
    ip = some "10.0.0.2";
    netmask = some "255.0.0.0";
    gateway = some "10.0.0.1";
    dns1 = none;
    dns2 = none;
  });
  wan6_settings = dhcpv6 "";
  custom_mac_enabled = true;
  custom_mac = some "11:22:33:44:55:66";
  qos = some (record { enabled = true; upload = 10; download = 20 });
  vlan_settings = some (vlan_on 100);
}

abbrev untagged : NewSettings
untagged = record tagged { vlan_settings = some vlan_off }

abbrev after : WanState
after = (update_settings tagged initial).1

runs : Unit {0}
unfolding cleanup set_wan set_wan6 set_qos set_vlan update_settings show_wan show_wan6 get_settings
    lookup interface_count interface_up_count
runs = tt

tagged-run : update_settings tagged initial ≡ (ok true, after)
unfolding runs
tagged-run = refl

counts : (interface_count "wan" device ≡ ok 0) × (interface_up_count "wan" device ≡ ok 0)
unfolding runs
counts = (refl, refl)

get_settings-update_settings_example :
    (q : Qos) × (v : VlanSettings) × ((get_settings device after).0 ≡ ok (shown tagged q v 0 0))
    × ShowsQos tagged.qos initial.qos q
    × ShowsVlan tagged.vlan_settings initial.vlan_settings v
get_settings-update_settings_example =
    get_settings-update_settings tagged initial after device 0 0 tagged-run counts.0 counts.1
