-- ===== src/Backends/Wan/Tests.antt =====
-- A VLAN on a device that has another one, and what is set for the zone of the firewall. Numbers are
-- written in strokes.
use foris_controller.Prelude.{
  ℕ, zero, suc, String, ◌≡◌, refl, true, [], ◌∷◌, split_on, without, lookup,
}
use foris_controller.Exceptions.{ok}
use foris_controller.Uci.{text, UciSection}
use foris_controller.Wan.{vlan_off, vlan_on}
use foris_controller.Backends.Strokes.{strokes, unary}
use foris_controller.Backends.Wan.{vlan_device, wan_zone}
use foris_controller.Backends.Wan.Reading.{vlan_of}
use foris_controller.Backends.Wan.Shown.{vlan_of-vlan_device}

abbrev zone : String → String → UciSection
zone section_name name = record {
  type = "zone";
  name = section_name;
  options = ("name", text name) ∷ [];
  anonymous = true;
}

second_zone : wan_zone (zone "cfg02" "lan" ∷ zone "cfg03" "wan" ∷ []) ≡ ok "cfg03"
unfolding wan_zone lookup
second_zone = refl

cleared : vlan_device unary "eth0.100.7" vlan_off ≡ "eth0"
unfolding vlan_device split_on
cleared = refl

without-strokes : (n : ℕ) → without b'.' (strokes n) ≡ true
unfolding strokes
without-strokes zero = refl
without-strokes (suc n) = without-strokes n

vlan_of-vlan_device_example :
    vlan_of unary (vlan_device unary "eth0.100" (vlan_on 3)) ≡ ok (vlan_on 3)
vlan_of-vlan_device_example = vlan_of-vlan_device unary "eth0.100" (vlan_on 3) without-strokes
