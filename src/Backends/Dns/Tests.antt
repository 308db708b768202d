-- ===== src/Backends/Dns/Tests.antt =====
-- The settings of a resolver on a configuration that takes over what is set.
use foris_controller.Prelude.{String, ◌==◌, ◌≡◌, refl, true, false, [], ◌∷◌, All, if◌then◌else◌}
use foris_controller.Exceptions.{ok}
use foris_controller.Uci.{text, UciSection, UciData, get_option_named, get_option_anonymous}
use foris_controller.Uci.Export.{strip, lstrip, rstrip}
use foris_controller.Backends.Strokes.{unary}
use foris_controller.Backends.Dns.{strip_slashes, update_calls, get_settings}
use foris_controller.Backends.Dns.Slashes.{slashes, IsSlashed}
use foris_controller.Backends.Dns.Shown.{Reads, request_of, settings_of, get_settings-request}

abbrev common : UciSection
common = record {
  type = "resolver";
  name = "common";
  options =
      ("forward_upstream", text "1")
      ∷ ("ignore_root_key", text "0")
      ∷ ("dynamic_domains", text "1")
      ∷ ("forward_custom", text "99_google")
      ∷ [];
  anonymous = false;
}

abbrev dnsmasq : UciSection
dnsmasq = record {
  type = "dnsmasq";
  name = "cfg01411c";
  options = ("local", text "/lan/") ∷ ("domain", text "lan") ∷ [];
  anonymous = true;
}

abbrev read_of : String → UciData
read_of config =
    if config == "dhcp" then ("dhcp", dnsmasq ∷ []) ∷ [] else ("resolver", common ∷ []) ∷ []

request_shown : All (Reads read_of) (update_calls (request_of true true true "99_google" "/lan/"))
unfolding get_option_named get_option_anonymous strip_slashes strip lstrip rstrip
request_shown = (refl, (refl, (refl, (refl, (refl, (refl, tt))))))

lan-IsSlashed : IsSlashed "/lan/" "lan"
unfolding slashes
lan-IsSlashed = (1, 1, refl)

get_settings-request_example :
    get_settings unary (read_of "resolver") (read_of "dhcp")
    ≡ ok (settings_of true true true "99_google" "lan")
get_settings-request_example =
    get_settings-request unary read_of true true true "99_google" "/lan/" "lan" refl lan-IsSlashed
      refl request_shown
