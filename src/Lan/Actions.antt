-- ===== src/Lan/Actions.antt =====
-- The actions of foris_controller_modules/lan/__init__.py and their notifications.
use foris_controller.Prelude.{String, Bool, true, false, none, some, List, [], ◌∷◌, if◌then◌else◌}
use foris_controller.Exceptions.{key_error, Result, ok, err}
use foris_controller.Ipaddress.{check_dynamic_ranges}
use foris_controller.Lan.{
  LanState, NewManaged, NewSettings, managed, unmanaged, Reply, done, refused, update_settings,
}
use foris_controller.Lan.Hosts.{set_dhcp_client, update_dhcp_client, delete_dhcp_client}

pub data Request : Type 0 where
  update_settings_request : NewSettings → Request
  set_dhcp_client_request : (ip mac hostname : String) → Request
  update_dhcp_client_request : (ip old_mac mac hostname : String) → Request
  delete_dhcp_client_request : (mac : String) → Request

-- What an action returns, the state after it and the notifications it sends.
abbrev pub Acted : Type 0
Acted = Result Reply × LanState × List Request

-- The test of action_update_settings on the range of the DHCP server; a missing key raises.
unfoldable pub range_accepted : NewManaged → Result Bool
range_accepted m =
    if m.enabled
    then (elim m.start [
      | none ↦ err (key_error "start")
      | some start ↦ elim m.limit [
        | none ↦ err (key_error "limit")
        | some limit ↦ check_dynamic_ranges m.router_ip m.netmask start limit
      ]
    ])
    else ok true

-- `if res["result"]: self.notify(...)`
abbrev pub notified : Request → Result Reply × LanState → Acted
notified r (ok done, s) = (ok done, s, r ∷ [])
notified r (ok (refused reason), s) = (ok (refused reason), s, [])
notified r (err e, s) = (err e, s, [])

-- {"result": res}, where res is the handler's Boolean
abbrev pub reply_of : Result Bool × LanState → Result Reply × LanState
reply_of (ok true, s) = (ok done, s)
reply_of (ok false, s) = (ok (refused ""), s)
reply_of (err e, s) = (err e, s)

unfoldable pub action_update_settings : NewSettings → LanState → Acted
action_update_settings new s = guarded (accepted new.mode)
  where
    accepted : foris_controller.Lan.NewMode → Result Bool
    accepted (managed m) = range_accepted m
    accepted (unmanaged u) = ok true

    guarded : Result Bool → Acted
    guarded (err e) = (err e, s, [])
    guarded (ok false) = (ok (refused ""), s, [])
    guarded (ok true) = notified (update_settings_request new) (reply_of (update_settings new s))

-- One of the actions, by the request that it serves.
unfoldable pub action : Request → LanState → Acted
action (update_settings_request new) s = action_update_settings new s
action (set_dhcp_client_request ip mac hostname) s =
    notified (set_dhcp_client_request ip mac hostname) (set_dhcp_client ip mac hostname s)
action (update_dhcp_client_request ip old_mac mac hostname) s =
    notified (update_dhcp_client_request ip old_mac mac hostname)
      (update_dhcp_client ip old_mac mac hostname s)
action (delete_dhcp_client_request mac) s =
    notified (delete_dhcp_client_request mac) (delete_dhcp_client mac s)
