-- ===== src/Backends/Lan/Tests/Refused.antt =====
-- A host that is not configured is to be changed.
use foris_controller.Prelude.{
  String, ◌==◌, ◌≡◌, refl, none, some, [], ◌∷◌, split_on, upper, lookup, insert, if◌then◌else◌,
}
use foris_controller.Exceptions.{Result, ok}
use foris_controller.Uci.{get_option_named, get_sections_by_type}
use foris_controller.Uci.Backend.{
  acquired, released, cleaned, ran, exited, Oracle, Backend, with_backend, run_uci_command,
  handle_command, check_retval, cmdline_args, export_data,
}
use foris_controller.Uci.Backend.Transaction.{opened}
use foris_controller.Uci.Export.{splitlines, is_break, is_space}
use foris_controller.Uci.Export.Matching.{after, package_line, word}
use foris_controller.Uci.Export.Parser.{read, parse_packages, parse_package}
use foris_controller.Backends.{read_config}
use foris_controller.Backends.Strokes.{unary}
use foris_controller.Backends.Lan.{get_network_combo, combo_of}
use foris_controller.Backends.Lan.Hosts.{Refusal, find_host}
use foris_controller.Backends.Lan.Changes.{update_plan, update_dhcp_client}
use foris_controller.Backends.Lan.Unchanged.{export_line, update_dhcp_client-refused}

-- Both configurations are empty.
abbrev empty : Oracle
empty t (a ∷ b ∷ c ∷ d ∷ e ∷ f ∷ verb ∷ config ∷ rest) input =
    if config == "dhcp" then exited 0 "package dhcp" "" else exited 0 "package network" ""
empty t args input = exited 0 "" ""

abbrev trimmed : String → String
trimmed s = s

abbrev outcome : Result Refusal × Backend
outcome =
    update_dhcp_client unary trimmed empty "ignore" "aa:01" "aa:02" "tv" (opened "/etc/config" [])

unknown : outcome ≡ (ok (some "mac-not-exists"), outcome.1)
unfolding update_dhcp_client read_config export_data run_uci_command handle_command check_retval
    cmdline_args read update_plan get_network_combo combo_of get_option_named get_sections_by_type
    split_on find_host lookup upper parse_packages splitlines is_break after parse_package
    package_line word is_space insert
unknown = refl

update_dhcp_client-refused_example :
    with_backend trimmed empty "/etc/config"
      (update_dhcp_client unary trimmed empty "ignore" "aa:01" "aa:02" "tv")
      []
    ≡ (
      ok (some "mac-not-exists"),
      released
          ∷ ran (export_line "/etc/config" "network") none
          ∷ ran (export_line "/etc/config" "dhcp") none
          ∷ cleaned
          ∷ acquired
          ∷ [],
    )
update_dhcp_client-refused_example =
    update_dhcp_client-refused unary trimmed empty "/etc/config" "ignore" "aa:01" "aa:02" "tv" []
      "mac-not-exists" outcome.1 unknown
