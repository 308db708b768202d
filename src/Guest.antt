-- ===== src/Guest.antt =====
-- foris_controller_modules/guest/handlers/mock.py and the action on the settings of
-- foris_controller_modules/guest/__init__.py. A request that enables the guest network brings its
-- other settings, as the schema requires; a notification repeats the request.
pub mod Laws
mod Tests
use foris_controller.Prelude.{
  ℕ, String, Bool, true, false, Option, none, some, List, [], ◌∷◌, if◌then◌else◌,
}
use foris_controller.Exceptions.{Raised, key_error, Result, ok, err}
use foris_controller.Ipaddress.{check_dynamic_ranges}

pub record Client : Type 0 where
  pub ip : String
  pub mac : String
  pub expires : ℕ
  pub active : Bool
  pub hostname : String
  pub static : Bool

pub record Dhcp : Type 0 where
  pub enabled : Bool
  pub start : ℕ
  pub limit : ℕ
  pub lease_time : ℕ
  pub clients : List Client

pub record Qos : Type 0 where
  pub enabled : Bool
  pub download : ℕ
  pub upload : ℕ

pub record GuestState : Type 0 where
  pub enabled : Bool
  pub router_ip : String
  pub netmask : String
  pub dhcp : Dhcp
  pub qos : Qos

abbrev pub initial : GuestState
initial = record {
  enabled = false;
  router_ip = "192.168.1.1";
  netmask = "255.255.255.0";
  dhcp = record {
    enabled = false;
    start = 100;
    limit = 150;
    lease_time = 43200;
    clients =
        record {
          ip = "10.10.2.1";
          mac = "16:25:34:43:52:61";
          expires = 1539350286;
          active = true;
          hostname = "first";
          static = false;
        }
        ∷ record {
          ip = "10.10.1.1";
          mac = "94:85:76:67:58:49";
          expires = 1539350388;
          active = false;
          hostname = "";
          static = false;
        }
        ∷ [];
  };
  qos = record { enabled = false; download = 1200; upload = 1200 };
}

-- The "dhcp" of a request; the last three keys may be missing.
pub record NewDhcp : Type 0 where
  pub enabled : Bool
  pub start : Option ℕ
  pub limit : Option ℕ
  pub lease_time : Option ℕ

pub data NewQos : Type 0 where
  qos_off : NewQos
  qos_on : (download upload : ℕ) → NewQos

pub data NewSettings : Type 0 where
  disable : NewSettings
  enable : (ip netmask : String) → NewDhcp → NewQos → NewSettings

-- d.get(k, default)
abbrev pub or_keep : ℕ → Option ℕ → ℕ
or_keep old none = old
or_keep old (some new) = new

unfoldable pub set_qos : NewQos → Qos → Qos
set_qos qos_off old = record old { enabled = false }
set_qos (qos_on download upload) old = record {
  enabled = true;
  download = download;
  upload = upload;
}

unfoldable pub update_settings : NewSettings → GuestState → Bool × GuestState
update_settings disable s = (true, record s { enabled = false })
update_settings (enable ip netmask d q) s = (
  true,
  record {
    enabled = true;
    router_ip = ip;
    netmask = netmask;
    dhcp = record {
      enabled = d.enabled;
      start = or_keep s.dhcp.start d.start;
      limit = or_keep s.dhcp.limit d.limit;
      lease_time = or_keep s.dhcp.lease_time d.lease_time;
      clients = s.dhcp.clients;
    };
    qos = set_qos q s.qos;
  },
)

-- check_dynamic_ranges on a request that enables the DHCP server; a missing key raises.
unfoldable pub range_of : String → String → Option ℕ → Option ℕ → Result Bool
range_of ip netmask none limit = err (key_error "start")
range_of ip netmask (some start) none = err (key_error "limit")
range_of ip netmask (some start) (some limit) = check_dynamic_ranges ip netmask start limit

unfoldable pub range_accepted : NewSettings → Result Bool
range_accepted disable = ok true
range_accepted (enable ip netmask d q) = elim d.enabled [
  | false ↦ ok true
  | true ↦ range_of ip netmask d.start d.limit
]

-- The result, the state after it and the notifications.
unfoldable pub action_update_settings :
    NewSettings → GuestState → Result Bool × GuestState × List NewSettings
action_update_settings new s = guarded (range_accepted new)
  where
    notified : Bool × GuestState → Result Bool × GuestState × List NewSettings
    notified (true, t) = (ok true, t, new ∷ [])
    notified (false, t) = (ok false, t, [])

    guarded : Result Bool → Result Bool × GuestState × List NewSettings
    guarded (err e) = (err e, s, [])
    guarded (ok false) = (ok false, s, [])
    guarded (ok true) = notified (update_settings new s)
