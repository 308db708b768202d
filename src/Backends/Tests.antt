-- ===== src/Backends/Tests.antt =====
-- A guest network on a configuration that takes over what is set. Numbers are written in strokes.
use foris_controller.Prelude.{
  String, ◌==◌, ◌&&◌, ◌≡◌, refl, Bool, true, false, Option, none, some, List, [], ◌∷◌, All, ap,
  arith, eq_iff, if◌then◌else◌,
}
use foris_controller.Exceptions.{Result, ok, err}
use foris_controller.Uci.{OptionValue, text, UciSection, UciData, get_option_named}
use foris_controller.Exceptions.{Raised, uci_exception}
use foris_controller.Uci.Backend.{
  exited, Oracle, Backend, add_section, set_option, run_uci_command, cmdline_args, handle_command,
  check_retval, affect,
}
use foris_controller.Uci.Backend.Transaction.{opened}
use foris_controller.Backends.Guest.{Request}
use foris_controller.Backends.Guest.Transaction.{set_guest_network, update_block}
use foris_controller.Backends.{run_call, run_calls, Call, section, option, replaced, lease_option}
use foris_controller.Backends.Strokes.{strokes, unary}
use foris_controller.Backends.Calls.{Shows}
use foris_controller.Backends.Guest.{Range, network_settings, limits_settings}
use foris_controller.Backends.Guest.Reading.{get_guest_network_settings}
use foris_controller.Backends.Guest.Shown.{
  full, limits_of, settings_of, get_guest_network_settings-request,
}

-- A section's option is set, where the sections are told by their names.
abbrev placed : List UciSection → String → String → String → List UciSection
placed [] name o v =
    record { type = ""; name = name; options = (o, text v) ∷ []; anonymous = false } ∷ []
placed (s ∷ rest) name o v =
    let later = placed rest name o v in
    if s.name == name then record s { options = (o, text v) ∷ s.options } ∷ rest else s ∷ later

abbrev taken_over : String → List Call → List UciSection
taken_over config [] = []
taken_over config (option c s o v ∷ calls) =
    let sections = taken_over config calls in
    if c == config then placed sections s o v else sections
taken_over config (_ ∷ calls) = taken_over config calls

abbrev range : Range
range = record { start = 2; limit = 3; lease_time = 0 }

abbrev network_set : List Call
network_set = network_settings unary (some (full "10.1.1.1" "255.255.255.0" range 5 7))

abbrev limits_set : List Call
limits_set = limits_settings unary (limits_of 5 7)

abbrev read_back : String → UciData
read_back config =
    (
      config,
      if config == "sqm" then taken_over config limits_set else taken_over config network_set,
    )
    ∷ []

is_shown : Call → Bool
is_shown (option c s o v) = elim (get_option_named (read_back c) c s o none) [
  | ok (text w) ↦ w == v
  | _ ↦ false
]
is_shown _ = true

abbrev all_shown : List Call → Bool
all_shown [] = true
all_shown (call ∷ calls) = is_shown call && all_shown calls

value_shown :
    (r : Result OptionValue) (v : String)
    → elim r [ ok (text w) ↦ w == v | _ ↦ false ] ≡ true
    → r ≡ ok (text v)
value_shown (ok (text w)) v h = ap (λ u. ok (text u)) ((eq_iff w v).0 h)
value_shown (ok _) v h = cc
value_shown (err e) v h = cc

is_shown-Shows : (call : Call) → is_shown call ≡ true → Shows read_back call
unfolding is_shown
is_shown-Shows (section _ _ _) h = tt
is_shown-Shows (replaced _ _ _ _) h = tt
is_shown-Shows (option c s o v) h = value_shown (get_option_named (read_back c) c s o none) v h

all_shown-All : (calls : List Call) → all_shown calls ≡ true → All (Shows read_back) calls
all_shown-All [] h = tt
all_shown-All (call ∷ calls) h =
    (is_shown-Shows call (ground (arith, h)), all_shown-All calls (ground (arith, h)))

network_shown : all_shown network_set ≡ true
unfolding is_shown network_settings get_option_named strokes lease_option
network_shown = refl

limits_shown : all_shown limits_set ≡ true
unfolding is_shown limits_settings get_option_named strokes
limits_shown = refl

get_guest_network_settings-request_example :
    get_guest_network_settings unary
      (read_back "network")
      (read_back "firewall")
      (read_back "dhcp")
      (read_back "sqm")
    ≡ ok (settings_of "10.1.1.1" "255.255.255.0" range 5 7)
get_guest_network_settings-request_example =
    get_guest_network_settings-request unary read_back "10.1.1.1" "255.255.255.0" range 5 7
      (all_shown-All network_set network_shown) (all_shown-All limits_set limits_shown)

-- The program fails when it is to make the zone of the guests.
abbrev zone_line : List String → Bool
zone_line (a ∷ b ∷ c ∷ d ∷ e ∷ verb ∷ line ∷ rest) = line == "firewall.guest_turris=zone"
zone_line _ = false

abbrev no_zone : Oracle
no_zone t args input = if zone_line args then exited 1 "" "Entry not found" else exited 0 "" ""

abbrev guests : Request
guests = some (full "10.1.1.1" "255.255.255.0" range 5 7)

abbrev trimmed : String → String
trimmed s = s

abbrev at_zone : Result (Option String) × Backend
at_zone = update_block unary trimmed no_zone guests (opened "/etc/config" [])

abbrev zone_error : Raised
zone_error =
    uci_exception (cmdline_args "/etc/config" ("set" ∷ "firewall.guest_turris=zone" ∷ []))
      "Entry not found"

zone_raises : at_zone ≡ (err zone_error, at_zone.1)
unfolding update_block set_guest_network run_calls run_call network_settings add_section set_option
    run_uci_command handle_command check_retval affect
zone_raises = refl
