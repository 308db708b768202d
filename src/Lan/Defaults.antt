-- ===== src/Lan/Defaults.antt =====
-- The state with which foris_controller_modules/lan/handlers/mock.py starts, and
-- the states that requests lead to from there.
use foris_controller.Prelude.{
  String, ◌==◌, ◌≡◌, ◌≢◌, refl, true, false, none, List, [], ◌∷◌, eq_iff,
}
use foris_controller.Lan.{Client, LanState}
use foris_controller.Lan.Hosts.{clients_of}
use foris_controller.Lan.Actions.{Request, action}
use foris_controller.Lan.Clients.{Apart, NoClash}
use foris_controller.Lan.Requests.{action-NoClash}

abbrev pub prvni : Client
prvni = record {
  ip = "192.168.1.1";
  mac = "11:22:33:44:55:66";
  expires = 1539350186;
  active = true;
  hostname = "prvni";
  static = false;
}

abbrev pub druhy : Client
druhy = record {
  ip = "192.168.2.1";
  mac = "99:88:77:66:55:44";
  expires = 1539350188;
  active = false;
  hostname = "*";
  static = true;
}

abbrev pub initial : LanState
initial = record {
  guide_set = false;
  mode = "managed";
  mode_managed = record {
    router_ip = "192.168.1.1";
    netmask = "255.255.255.0";
    dhcp = record {
      enabled = false;
      start = 100;
      limit = 150;
      lease_time = 120;
      clients = prvni ∷ druhy ∷ [];
    };
  };
  mode_unmanaged = record {
    lan_type = "none";
    hostname = none;
    lan_static = record {
      ip = "192.168.1.10";
      netmask = "255.255.255.0";
      gateway = "192.168.1.1";
      dns1 = none;
      dns2 = none;
    };
  };
  qos = record { download = 1024; enabled = false; upload = 1024 };
  lan_redirect = true;
}

-- The state after a list of requests.
unfoldable pub serve : List Request → LanState → LanState
serve [] s = s
serve (r ∷ rs) s = serve rs (action r s).1

differ : {a b : String} → (a == b) ≡ false → a ≢ b
differ {a} {b} n e = cc ((eq_iff a b).1 e)

initial-NoClash : NoClash (clients_of initial)
initial-NoClash = ((two, tt), (tt, tt))
  where
    two : Apart prvni druhy
    two = record { macs = differ refl; hostnames = differ refl; ips = λ e. absurd (differ refl e) }

serve-keeps :
    (rs : List Request) (s : LanState) → NoClash (clients_of s) → NoClash (clients_of (serve rs s))
unfolding serve
serve-keeps [] s h = h
serve-keeps (r ∷ rs) s h = serve-keeps rs (action r s).1 (action-NoClash r s h)

-- Whatever requests come after the start, no two DHCP clients have the same MAC address, the same
-- host name, or the same IP address other than "ignore".
pub serve-NoClash : (rs : List Request) → NoClash (clients_of (serve rs initial))
serve-NoClash rs = serve-keeps rs initial initial-NoClash
