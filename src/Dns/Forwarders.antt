-- ===== src/Dns/Forwarders.antt =====
-- The methods on the forwarders of foris_controller_modules/dns/handlers/mock.py.
pub mod Laws
use foris_controller.Prelude.{String, ◌==◌, Bool, true, false, List, [], ◌∷◌, ◌++◌, if◌then◌else◌}
use foris_controller.Dns.{Fields, Forwarder, DnsState}

abbrev pub added_name : String
added_name = "myforward_6842e9378ffb5c6be0b97309a48f6bc4"

abbrev pub with_forwarders : List Forwarder → DnsState → DnsState
with_forwarders fs s = record s { available_forwarders = fs }

unfoldable pub add_forwarder : Fields → DnsState → Bool × DnsState
add_forwarder f s = (
  true,
  with_forwarders
      (s.available_forwarders ++ record { name = added_name; fields = f; editable = true } ∷ []) s,
)

-- The first forwarder of the name that is editable is written.
unfoldable pub write : String → Fields → List Forwarder → Bool × List Forwarder
write name f [] = (false, [])
write name f (e ∷ fs) =
    let rest = write name f fs in
    if e.name == name
    then (if e.editable then (true, record e { fields = f } ∷ fs) else (rest.0, e ∷ rest.1))
    else (rest.0, e ∷ rest.1)

unfoldable pub set_forwarder : String → Fields → DnsState → Bool × DnsState
set_forwarder name f s = let r = write name f s.available_forwarders in (r.0, with_forwarders r.1 s)

-- The first forwarder of the name goes if it is editable.
unfoldable pub take_out : String → List Forwarder → Bool × List Forwarder
take_out name [] = (false, [])
take_out name (e ∷ fs) =
    let rest = take_out name fs in
    if e.name == name
    then (if e.editable then (true, fs) else (false, e ∷ fs))
    else (rest.0, e ∷ rest.1)

unfoldable pub del_forwarder : String → DnsState → Bool × DnsState
del_forwarder name s = let r = take_out name s.available_forwarders in (r.0, with_forwarders r.1 s)
