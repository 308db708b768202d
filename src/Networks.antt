-- ===== src/Networks.antt =====
-- foris_controller_modules/networks/handlers/mock.py: which port belongs to which network.
-- The manager's shared dict, its lock and the deep copies are plain values here: every method runs
-- under the lock from its first read to its last write.
pub mod Assignment
pub mod Index
pub mod Laws
mod Tests
use foris_controller.Prelude.{
  ℕ, String, ◌==◌, Bool, true, false, ◌&&◌, Option, none, some, List, [], ◌∷◌, ◌++◌, Dict, lookup,
  insert, any, filter, length, if◌then◌else◌,
}
use foris_controller.Exceptions.{Raised, key_error, Result, ok, err, ◌>>=◌}

pub record Port : Type 0 where
  pub id : String
  pub kind : String
  pub slot : String
  pub state : String
  pub link_speed : ℕ
  pub bus : String
  pub module_id : ℕ
  pub configurable : Bool
  pub macaddr : String
  -- the keys that some ports have only: qmi_device, ssid, slot_path
  pub extra : Dict String

pub record Firewall : Type 0 where
  pub ssh_on_wan : Bool
  pub http_on_wan : Bool
  pub https_on_wan : Bool

pub record NetworksState : Type 0 where
  pub guide_set : Bool
  pub model : String
  pub version : String
  pub firewall : Firewall
  pub networks : Dict (List Port)

pub record NewSettings : Type 0 where
  pub networks : Dict (List String)
  pub firewall : Firewall

abbrev pub keys {ℓ} : {V : Type ℓ} → Dict V → List String
keys [] = []
keys ((k, v) ∷ d) = k ∷ keys d

abbrev pub values {ℓ} : {V : Type ℓ} → Dict V → List V
values [] = []
values ((k, v) ∷ d) = v ∷ values d

-- ports += networks[net_name] for each network
abbrev pub all_ports : Dict (List Port) → List Port
all_ports [] = []
all_ports ((k, ps) ∷ d) = ps ++ all_ports d

-- {e["id"]: e for e in ports}, on top of a dict
unfoldable pub index_from : Dict Port → List Port → Dict Port
index_from d [] = d
index_from d (p ∷ ps) = index_from (insert p.id p d) ps

-- what ports_map.pop(k) leaves
unfoldable pub remove {ℓ} : {V : Type ℓ} → String → Dict V → Dict V
remove k [] = []
remove k ((j, v) ∷ d) = let rest = remove k d in if j == k then d else (j, v) ∷ rest

-- The inner loop, for the ids that one network asks for: `none` is `return False`.
unfoldable pub take_ports : List String → Dict Port → Option (List Port × Dict Port)
take_ports [] ports_map = some ([], ports_map)
take_ports (port_id ∷ ids) ports_map =
    let rest = take_ports ids (remove port_id ports_map) in
    elim (lookup port_id ports_map) [
      | none ↦ none
      | some p ↦
          if p.configurable
          then elim rest [ none ↦ none | some (ps, left) ↦ some (p ∷ ps, left) ]
          else none
    ]

-- The outer loop, over the names of the networks.
unfoldable pub assign :
    List String → Dict (List String) → Dict Port → Option (Dict (List Port) × Dict Port)
assign [] wanted ports_map = some ([], ports_map)
assign (net_name ∷ names) wanted ports_map = elim (lookup net_name wanted) [
  | none ↦ none
  | some ids ↦ elim (take_ports ids ports_map) [
    | none ↦ none
    | some (ps, left) ↦ elim (assign names wanted left) [
      | none ↦ none
      | some (nets, unused) ↦ some ((net_name, ps) ∷ nets, unused)
    ]
  ]
]

-- new_nets["none"].append(v) for each port that is left
unfoldable pub append_none : List Port → Dict (List Port) → Dict (List Port)
append_none ps [] = []
append_none ps ((k, qs) ∷ d) =
    let rest = append_none ps d in if k == "none" then (k, qs ++ ps) ∷ d else (k, qs) ∷ rest

-- A dict without "none" raises when a port is left over.
unfoldable pub place_unused : Dict Port → Dict (List Port) → Result (Dict (List Port))
place_unused [] nets = ok nets
place_unused (p ∷ ps) nets =
    if any (λ k. k == "none") (keys nets)
    then ok (append_none (values (p ∷ ps)) nets)
    else err (key_error "none")

unfoldable pub store :
    NewSettings
    → NetworksState
    → Option (Dict (List Port) × Dict Port)
    → Result Bool × NetworksState
store new s none = (ok false, s)
store new s (some (nets, unused)) =
    if any (λ p. p.configurable) (values unused)
    then (ok false, s)
    else elim (place_unused unused nets) [
      | ok placed ↦ (ok true, record s { networks = placed; firewall = new.firewall })
      | err e ↦ (err e, s)
    ]

unfoldable pub update_settings : NewSettings → NetworksState → Result Bool × NetworksState
update_settings new s =
    let marked = record s { guide_set = true } in
    store new marked (assign (keys s.networks) new.networks (index_from [] (all_ports s.networks)))

-- len of a network, and of its ports that are up, as the other modules' get_settings count them
unfoldable pub interface_count : String → NetworksState → Result ℕ
interface_count net s = elim (lookup net s.networks) [
  | none ↦ err (key_error net)
  | some ps ↦ ok (length ps)
]

unfoldable pub interface_up_count : String → NetworksState → Result ℕ
interface_up_count net s = elim (lookup net s.networks) [
  | none ↦ err (key_error net)
  | some ps ↦ ok (length (filter (λ p. p.state == "up") ps))
]
