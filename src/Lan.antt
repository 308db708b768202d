-- ===== src/Lan.antt =====
-- foris_controller_modules/lan/handlers/mock.py: the LAN settings and the DHCP clients with a
-- configured address.
-- The settings that a request brings have passed the schema, which lets three kinds of unmanaged
-- settings through. Class attributes are the fields of one state that the methods thread through.
pub mod Hosts
pub mod Actions
pub mod Clients
pub mod Settings
pub mod Requests
pub mod Deletion
pub mod Defaults
mod Tests
use foris_controller.Prelude.{
  ℕ, ◌+◌, String, ◌==◌, Bool, true, false, not, ◌&&◌, ◌||◌, leb, Option, none, some, List, [], ◌∷◌,
  ◌++◌, any, filter, upper, if◌then◌else◌,
}
use foris_controller.Exceptions.{Raised, value_error, type_error, Result, ok, err, ◌>>=◌}
use foris_controller.Ipaddress.{
  ip_address, ip_network, contains, plus, check_dynamic_ranges, Network,
}

pub record Client : Type 0 where
  pub ip : String
  pub mac : String
  pub expires : ℕ
  pub active : Bool
  pub hostname : String
  pub static : Bool

pub record Dhcp : Type 0 where
  pub enabled : Bool
  pub start : ℕ
  pub limit : ℕ
  pub lease_time : ℕ
  pub clients : List Client

pub record ModeManaged : Type 0 where
  pub router_ip : String
  pub netmask : String
  pub dhcp : Dhcp

pub record LanStatic : Type 0 where
  pub ip : String
  pub netmask : String
  pub gateway : String
  pub dns1 : Option String
  pub dns2 : Option String

pub record ModeUnmanaged : Type 0 where
  pub lan_type : String
  pub hostname : Option String
  pub lan_static : LanStatic

pub record Qos : Type 0 where
  pub download : ℕ
  pub enabled : Bool
  pub upload : ℕ

pub record LanState : Type 0 where
  pub guide_set : Bool
  pub mode : String
  pub mode_managed : ModeManaged
  pub mode_unmanaged : ModeUnmanaged
  pub qos : Qos
  pub lan_redirect : Bool

pub record NewManaged : Type 0 where
  pub router_ip : String
  pub netmask : String
  pub enabled : Bool
  pub start : Option ℕ
  pub limit : Option ℕ
  pub lease_time : Option ℕ

pub data NewUnmanaged : Type 0 where
  type_none : NewUnmanaged
  type_dhcp : (hostname : Option String) → NewUnmanaged
  type_static : LanStatic → NewUnmanaged

pub data NewMode : Type 0 where
  managed : NewManaged → NewMode
  unmanaged : NewUnmanaged → NewMode

pub record NewSettings : Type 0 where
  pub lan_redirect : Option Bool
  pub qos : Option Qos
  pub mode : NewMode

-- {"result": True}, or {"result": False, "reason": reason}
pub data Reply : Type 0 where
  done : Reply
  refused : (reason : String) → Reply

-- d.get(k, default)
abbrev pub or_default {ℓ} : {A : Type ℓ} → A → Option A → A
or_default a none = a
or_default a (some b) = b

abbrev pub or_raise : Option ℕ → Result ℕ
or_raise none = err (value_error "IP overflow")
or_raise (some a) = ok a

unfoldable pub in_range : String → String → ℕ → ℕ → Result Bool
in_range ip router_ip start limit = do
  router ← ip_address router_ip
  dynamic_first ← or_raise (plus router start)
  dynamic_last ← or_raise (plus dynamic_first limit)
  address ← ip_address ip
  ok (leb dynamic_first address && leb address dynamic_last)

unfoldable pub in_network : String → String → String → Result Bool
in_network ip ip_root netmask = do
  root ← ip_address ip_root
  network ← ip_network root netmask
  address ← ip_address ip
  ok (contains network address)

-- The condition under which update_settings keeps a client.
unfoldable pub stays : ModeManaged → Client → Result Bool
stays m c =
    if c.ip == "ignore"
    then ok true
    else in_range c.ip m.router_ip m.dhcp.start m.dhcp.limit >>= λ inside.
        if inside then ok false else in_network c.ip m.router_ip m.netmask

unfoldable pub staying : ModeManaged → List Client → Result (List Client)
staying m [] = ok []
staying m (c ∷ cs) = do keep ← stays m c; rest ← staying m cs; ok (if keep then c ∷ rest else rest)

unfoldable pub set_managed : NewManaged → ModeManaged → ModeManaged
set_managed new old = record {
  router_ip = new.router_ip;
  netmask = new.netmask;
  dhcp = record {
    enabled = new.enabled;
    start = or_default old.dhcp.start new.start;
    limit = or_default old.dhcp.limit new.limit;
    lease_time = or_default old.dhcp.lease_time new.lease_time;
    clients = old.dhcp.clients;
  };
}

unfoldable pub set_unmanaged : NewUnmanaged → ModeUnmanaged → ModeUnmanaged
set_unmanaged type_none old = record old { lan_type = "none" }
set_unmanaged (type_dhcp none) old = record old { lan_type = "dhcp" }
set_unmanaged (type_dhcp (some h)) old =
    if h == ""
    then record old { lan_type = "dhcp" }
    else record old { lan_type = "dhcp"; hostname = some h }
set_unmanaged (type_static s) old = record old { lan_type = "static"; lan_static = s }

abbrev pub with_clients : List Client → LanState → LanState
with_clients cs s = record s {
  mode_managed = record (s.mode_managed) { dhcp = record (s.mode_managed.dhcp) { clients = cs } };
}

-- A text that is no address raises; what was assigned before stays assigned.
unfoldable pub update_settings : NewSettings → LanState → Result Bool × LanState
update_settings new s = apply new.mode
  where
    common : LanState
    common = record s {
      lan_redirect = or_default s.lan_redirect new.lan_redirect;
      qos = or_default s.qos new.qos;
    }

    finish : ModeManaged → Result (List Client) → LanState → Result Bool × LanState
    finish m (err e) t = (err e, t)
    finish m (ok cs) t = (ok true, record (with_clients cs t) { guide_set = true })

    apply : NewMode → Result Bool × LanState
    apply (managed n) =
        let m = set_managed n s.mode_managed in
        finish m (staying m s.mode_managed.dhcp.clients)
          (record common { mode = "managed"; mode_managed = m })
    apply (unmanaged n) = (
      ok true,
      record common {
        mode = "unmanaged";
        mode_unmanaged = set_unmanaged n s.mode_unmanaged;
        guide_set = true;
      },
    )
