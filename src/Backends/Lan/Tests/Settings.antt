-- ===== src/Backends/Lan/Tests/Settings.antt =====
-- Settings of a network that a router gives out addresses in, and transactions of LanUci that are
-- refused or raise. Numbers are written in strokes.
use foris_controller.Prelude.{
  String, ◌==◌, ◌≡◌, refl, false, none, List, [], ◌∷◌, ◌++◌, All, split_on, if◌then◌else◌,
}
use foris_controller.Exceptions.{Raised, uci_exception, Result, ok, err}
use foris_controller.Ipaddress.{ip_address, read_mask}
use foris_controller.Ipaddress.Printing.{
  ip_interface, interface_of, show_address, show_octet, show_interface,
}
use foris_controller.Lan.{NewSettings, managed}
use foris_controller.Uci.{OptionValue, text, items, UciSection, UciData, get_option_named}
use foris_controller.Uci.Backend.{
  acquired, released, cleaned, exited, Trace, Oracle, Backend, run_uci_command, handle_command,
  check_retval, cmdline_args, affect, add_section, set_option,
}
use foris_controller.Uci.Backend.Quiet.{AllStaging}
use foris_controller.Uci.Backend.Transaction.{opened}
use foris_controller.Backends.{lease_option, run_calls, run_call}
use foris_controller.Backends.Calls.{Shows}
use foris_controller.Backends.Strokes.{strokes, unary}
use foris_controller.Backends.Lan.{get_interface}
use foris_controller.Backends.Lan.Reading.{Managed, get_managed}
use foris_controller.Backends.Lan.Shown.{IsAddress, served_calls, IsManaged, get_managed-request}
use foris_controller.Backends.Lan.Update.{update_block, update_settings}
use foris_controller.Backends.Lan.Atomic.{update_settings-stages}

abbrev lan_section : List (String × OptionValue) → UciSection
lan_section options = record { type = ""; name = "lan"; options = options; anonymous = false }

abbrev read_of : String → UciData
read_of config =
    (
      config,
      lan_section (
            if config == "network"
            then ("_turris_mode", text "managed") ∷ ("ipaddr", items ("10.0.0.1/8" ∷ [])) ∷ []
            else ("ignore", text "0")
              ∷ ("start", text "11")
              ∷ ("limit", text "111")
              ∷ ("leasetime", text "infinite")
              ∷ [])
          ∷ [],
    )
    ∷ []

ten : IsAddress "10.0.0.1" "255.0.0.0" (record { ip = 167772161; bits = 24 })
unfolding ip_address read_mask split_on
ten = record { plain = refl; plain_mask = refl; ip = refl; bits = refl }

ten_shown : All (Shows read_of) (served_calls unary "10.0.0.1" "255.0.0.0" 2 3 0)
unfolding get_option_named strokes lease_option
ten_shown = (tt, (refl, (tt, (refl, (refl, (refl, (refl, (tt, tt))))))))

ten_made : get_interface "10.0.0.1" "255.0.0.0" ≡ ok "10.0.0.1/8"
unfolding get_interface ip_interface interface_of ip_address read_mask split_on show_interface
    show_address show_octet
ten_made = refl

ten_listed :
    get_option_named (read_of "network") "network" "lan" "ipaddr" none
    ≡ ok (items ("10.0.0.1/8" ∷ []))
unfolding get_option_named
ten_listed = refl

get_managed-request_example :
    (m : Managed) × (get_managed unary (read_of "network") (read_of "dhcp") ≡ ok m)
    × IsManaged "10.0.0.1" "255.0.0.0" 2 3 0 m
get_managed-request_example =
    get_managed-request unary read_of "10.0.0.1" "255.0.0.0" "10.0.0.1/8"
      (record { ip = 167772161; bits = 24 }) 2 3 0 ten ten_shown ten_made ten_listed

-- The program fails when the mode is to be set.
abbrev no_mode : Oracle
no_mode t (a ∷ b ∷ c ∷ d ∷ e ∷ verb ∷ line ∷ rest) input =
    if line == "network.lan._turris_mode=managed"
    then exited 1 "" "Entry not found"
    else exited 0 "" ""
no_mode t args input = exited 0 "" ""

abbrev trimmed : String → String
trimmed s = s

abbrev wanted : NewSettings
wanted = record {
  lan_redirect = none;
  qos = none;
  mode = managed (record {
    router_ip = "10.0.0.1";
    netmask = "255.0.0.0";
    enabled = false;
    start = none;
    limit = none;
    lease_time = none;
  });
}

abbrev at_mode : Result (Unit {0}) × Backend
at_mode = update_block unary trimmed no_mode wanted (opened "/etc/config" [])

abbrev mode_error : Raised
mode_error =
    uci_exception (cmdline_args "/etc/config" ("set" ∷ "network.lan._turris_mode=managed" ∷ []))
      "Entry not found"

mode_raises : at_mode ≡ (err mode_error, at_mode.1)
unfolding update_block run_calls run_call add_section set_option run_uci_command handle_command
    check_retval affect cmdline_args
mode_raises = refl

update_settings-stages_example :
    (staged : Trace) × AllStaging staged
    × (update_settings unary trimmed no_mode "/etc/config" wanted []
        ≡ (err mode_error, released ∷ staged ++ cleaned ∷ acquired ∷ []))
update_settings-stages_example =
    update_settings-stages unary trimmed no_mode "/etc/config" wanted [] mode_error at_mode.1
      mode_raises
