-- ===== src/Networks/Tests.antt =====
-- The update of a device with two configurable ports and one that is not.
use mathlib.Core.Logic.{∥∥₁_elim}
use mathlib.Core.HLevel.{⊥_prop}
use mathlib.Core.List.{Nodup, Nodup-cons, Nodup-nil, Perm, Mem, mem-cons, not-mem-nil}
use foris_controller.Prelude.{
  ◌==◌, eq_iff, ◌≡◌, ◌≢◌, refl, true, false, [], ◌∷◌, lookup, insert, arith, String, List, inl, inr,
}
use foris_controller.Exceptions.{ok}
use foris_controller.Networks.{
  Port, Firewall, NetworksState, NewSettings, keys, all_ports, index_from, remove, take_ports,
  assign, append_none, place_unused, store, update_settings,
}
use foris_controller.Networks.Assignment.{ids}
use foris_controller.Networks.Laws.{
  AsWanted, update_settings-perm, update_settings-AsWanted, update_settings-rejected,
}

abbrev lan1 : Port
lan1 = record {
  id = "lan1";
  kind = "eth";
  slot = "LAN1";
  state = "up";
  link_speed = 1000;
  bus = "eth";
  module_id = 0;
  configurable = true;
  macaddr = "00:00:00:00:00:01";
  extra = [];
}

abbrev lan2 : Port
lan2 = record {
  id = "lan2";
  kind = "eth";
  slot = "LAN2";
  state = "down";
  link_speed = 0;
  bus = "eth";
  module_id = 0;
  configurable = true;
  macaddr = "00:00:00:00:00:02";
  extra = [];
}

abbrev wlan0 : Port
wlan0 = record {
  id = "wlan0";
  kind = "wifi";
  slot = "1";
  state = "down";
  link_speed = 0;
  bus = "pci";
  module_id = 2;
  configurable = false;
  macaddr = "00:00:00:00:00:03";
  extra = [];
}

abbrev closed : Firewall
closed = record { ssh_on_wan = false; http_on_wan = false; https_on_wan = false }

abbrev opened : Firewall
opened = record { ssh_on_wan = true; http_on_wan = false; https_on_wan = false }

abbrev start : NetworksState
start = record {
  guide_set = false;
  model = "turris";
  version = "4.0";
  firewall = closed;
  networks = ("wan", lan1 ∷ []) ∷ ("lan", lan2 ∷ wlan0 ∷ []) ∷ ("none", []) ∷ [];
}

-- The two ports change places.
abbrev swapped : NewSettings
swapped = record {
  networks = ("wan", "lan2" ∷ []) ∷ ("lan", "lan1" ∷ []) ∷ ("none", []) ∷ [];
  firewall = opened;
}

abbrev after : NetworksState
after = record {
  guide_set = true;
  model = "turris";
  version = "4.0";
  firewall = opened;
  networks = ("wan", lan2 ∷ []) ∷ ("lan", lan1 ∷ []) ∷ ("none", wlan0 ∷ []) ∷ [];
}

-- A port that cannot be moved is asked for.
abbrev greedy : NewSettings
greedy = record {
  networks = ("wan", "wlan0" ∷ []) ∷ ("lan", "lan1" ∷ []) ∷ ("none", []) ∷ [];
  firewall = opened;
}

runs : Unit {0}
unfolding update_settings store assign lookup take_ports index_from insert remove place_unused
    append_none
runs = tt

swapped-run : update_settings swapped start ≡ (ok true, after)
unfolding runs
swapped-run = refl

greedy-run : update_settings greedy start ≡ (ok false, record start { guide_set = true })
unfolding runs
greedy-run = refl

fresh-cons : {a b : String} {l : List String} → a ≢ b → ¬ Mem a l → ¬ Mem a (b ∷ l)
fresh-cons n h m = ∥∥₁_elim (mem-cons.0 m) ⊥_prop (λ c. elim c [ inl e ↦ n e | inr k ↦ h k ])

distinct : {a b : String} → a ≡ b → (a == b) ≡ false → ⊥
distinct {a} {b} e n = cc ((eq_iff a b).1 e)

start-Nodup : Nodup (ids (all_ports start.networks))
start-Nodup = Nodup-cons.1 (
  fresh-cons (λ e. distinct e refl) (fresh-cons (λ e. distinct e refl) not-mem-nil),
  Nodup-cons.1
      (fresh-cons (λ e. distinct e refl) not-mem-nil, Nodup-cons.1 (not-mem-nil, Nodup-nil)),
)

update_settings-perm_example :
    Perm (all_ports start.networks) (all_ports after.networks)
    × Nodup (ids (all_ports after.networks))
update_settings-perm_example = update_settings-perm swapped start after swapped-run start-Nodup

update_settings-AsWanted_example :
    AsWanted swapped.networks after.networks
    × (keys after.networks ≡ keys start.networks)
    × (after.firewall ≡ swapped.firewall)
update_settings-AsWanted_example = update_settings-AsWanted swapped start after swapped-run

update_settings-rejected_example :
    record start { guide_set = true } ≡ record start { guide_set = true }
update_settings-rejected_example =
    update_settings-rejected greedy start _ (ok false) greedy-run (λ e. ground arith)
