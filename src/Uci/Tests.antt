-- ===== src/Uci/Tests.antt =====
-- The readers on the data of a small export.
use foris_controller.Prelude.{◌≡◌, refl, true, false, none, some, [], ◌∷◌}
use foris_controller.Exceptions.{ok}
use foris_controller.Uci.{
  text, UciSection, UciData, parse_bool, word, store_bool, section_exists, get_option_named,
  get_sections_by_type, get_option_anonymous,
}

abbrev lan : UciSection
lan = record {
  type = "interface";
  name = "lan";
  options = ("proto", text "static") ∷ [];
  anonymous = false;
}

abbrev export : UciData
export = ("network", lan ∷ []) ∷ []

readers : Unit {0}
unfolding get_option_named get_sections_by_type get_option_anonymous section_exists store_bool
readers = tt

lookups :
    (get_option_named export "network" "lan" "proto" none ≡ ok (text "static"))
    × (get_option_named export "network" "wan" "proto" (some (text "none")) ≡ ok (text "none"))
    × (section_exists export "firewall" "lan" ≡ ok false)
    × (parse_bool "enabled" ≡ ok true)
unfolding readers
lookups = (refl, refl, refl, refl)

stored_on : store_bool (word "on") ≡ ok "on"
unfolding readers
stored_on = refl

interfaces : get_sections_by_type export "network" "interface" ≡ ok (lan ∷ [])
unfolding readers
interfaces = refl
