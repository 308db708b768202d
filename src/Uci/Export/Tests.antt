-- ===== src/Uci/Export/Tests.antt =====
-- The parser on a small export, with a quote in a value and an anonymous section.
use package.text.Mathlib.TextBridge.{of_list}
use foris_controller.Prelude.{◌≡◌, refl, true, some, [], ◌∷◌, All, lookup, insert}
use foris_controller.Exceptions.{Result, ok}
use foris_controller.Uci.{text, items, UciSection, UciData}
use foris_controller.Uci.Export.{
  chars, is_space, is_break, convert_value, splitlines, split, join, strip, lstrip, rstrip,
}
use foris_controller.Uci.Export.Quoting.{quote, body}
use foris_controller.Uci.Export.Splitting.{IsLine, unlines}
use foris_controller.Uci.Export.Matching.{
  after, word, skip_spaces, ends_quoted, assignment, drop_quote, config_line, package_line, hex,
  anonymous_name,
}
use foris_controller.Uci.Export.Parser.{
  append_to, with_line, parse_section, parse_package, parse_packages, read,
}
use foris_controller.Uci.Export.Parser.Total.{read_total}
use foris_controller.Uci.Export.Parser.RoundTrip.{export_lines, IsSection, read-export_lines}

abbrev guest : UciSection
guest = record {
  type = "wifi-iface";
  name = "cfg0a3f2b";
  options = ("ssid", text "Tom'sNet") ∷ ("maclist", items ("AA" ∷ "BB" ∷ [])) ∷ [];
  anonymous = true;
}

abbrev wireless : UciData
wireless = ("wireless", guest ∷ []) ∷ []

unquoted : convert_value (chars "'Tom'\\''sNet'") ≡ chars "Tom'sNet"
unfolding convert_value split join strip lstrip rstrip
unquoted = refl

parsed :
    read
      "package wireless\n\nconfig wifi-iface 'cfg0a3f2b'\n\toption ssid 'Tom'\\''sNet'\n\tlist maclist 'AA'\n\tlist maclist 'BB'\n\n"
    ≡ some (ok wireless)
unfolding read after word skip_spaces ends_quoted assignment append_to with_line parse_section
    drop_quote config_line package_line hex anonymous_name parse_package parse_packages splitlines
    is_space is_break convert_value split join strip lstrip rstrip lookup insert
parsed = refl

guest-IsSection : IsSection guest
unfolding is_space anonymous_name hex after
guest-IsSection = record {
  type_IsName = (refl, refl);
  name_IsName = (refl, refl);
  printed = (((refl, refl), refl), (((refl, refl), (refl, (refl, tt))), tt));
  distinct = ((refl, tt), (tt, tt));
  by_name = refl;
}

wireless_lines : All IsLine (export_lines wireless)
unfolding is_break quote body
wireless_lines = (refl, (refl, (refl, (refl, (refl, (refl, (refl, tt)))))))

read-export_lines_example : read (of_list (unlines (export_lines wireless))) ≡ some (ok wireless)
read-export_lines_example =
    read-export_lines wireless (((refl, unfold is_space in refl), (guest-IsSection, tt)), tt)
      (tt, tt) wireless_lines

read_total_example : (out : Result UciData) × (read "package a b\n" ≡ some out)
read_total_example = read_total "package a b\n"
