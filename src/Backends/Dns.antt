-- ===== src/Backends/Dns.antt =====
-- foris_controller_backends/dns/__init__.py, the class DnsUciCommands. The names of the forwarders,
-- which come from files, are a parameter; the wizard and the restart of the resolver, which follow on
-- the transaction, are left out.
pub mod Slashes
pub mod Shown
mod Tests
use Prim.Native.String.{◌++◌ as append}
use package.text.Mathlib.TextBridge.{of_list}
use foris_controller.Prelude.{
  ℕ, String, ◌==◌, ◌&&◌, Bool, true, false, not, Option, none, some, List, [], ◌∷◌, ◌++◌, any,
  if◌then◌else◌,
}
use foris_controller.Exceptions.{
  Raised, attribute_error, uci_record_not_found, Result, ok, err, ◌>>=◌,
}
use foris_controller.Uci.{
  OptionValue, text, items, num, UciData, get_option_named, get_option_anonymous,
}
use foris_controller.Uci.Backend.{Trace, Oracle, with_backend}
use foris_controller.Uci.Export.{chars, strip}
use foris_controller.Backends.{Call, option, run_calls, Numerals}
use foris_controller.Backends.Guest.{stored}
use foris_controller.Backends.Guest.Reading.{parse_value}

pub record Request : Type 0 where
  pub forwarding_enabled : Bool
  pub dnssec_enabled : Bool
  pub dns_from_dhcp_enabled : Bool
  pub forwarder : Option String
  pub dns_from_dhcp_domain : Option String

pub record Settings : Type 0 where
  pub forwarding_enabled : Bool
  pub forwarder : OptionValue
  pub dnssec_enabled : Bool
  pub dns_from_dhcp_enabled : Bool
  pub dns_from_dhcp_domain : Option String

-- domain.strip("/")
unfoldable pub strip_slashes : String → String
strip_slashes s = of_list (strip 47 (chars s))

abbrev pub domain_calls : Option String → List Call
domain_calls none = []
domain_calls (some domain) =
    if domain == ""
    then []
    else option "dhcp" "@dnsmasq[0]" "local" (append "/" (append (strip_slashes domain) "/"))
      ∷ option "dhcp" "@dnsmasq[0]" "domain" (strip_slashes domain)
      ∷ []

abbrev pub forwarder_calls : Option String → List Call
forwarder_calls none = []
forwarder_calls (some forwarder) = option "resolver" "common" "forward_custom" forwarder ∷ []

abbrev pub common_calls : Request → List Call
common_calls request =
    option "resolver" "common" "forward_upstream" (stored request.forwarding_enabled)
    ∷ option "resolver" "common" "ignore_root_key" (stored (not request.dnssec_enabled))
    ∷ option "resolver" "common" "dynamic_domains" (stored request.dns_from_dhcp_enabled)
    ∷ []

abbrev pub update_calls : Request → List Call
update_calls request =
    common_calls request
    ++ domain_calls request.dns_from_dhcp_domain
    ++ forwarder_calls request.forwarder

-- forwarder and forwarder not in names
abbrev pub is_unknown : List String → Option String → Bool
is_unknown names none = false
is_unknown names (some forwarder) =
    not (forwarder == "") && not (any (λ name. name == forwarder) names)

abbrev pub answered : Result (Unit {0}) × Trace → Result Bool × Trace
answered (ok done, t) = (ok true, t)
answered (err e, t) = (err e, t)

module _ (strip_text : String → String) (oracle : Oracle) where
  unfoldable pub update_settings :
      (names : List String) (config_dir : String) → Request → Trace → Result Bool × Trace
  update_settings names config_dir request trace =
      let updated =
        with_backend strip_text oracle config_dir
          (run_calls strip_text oracle (update_calls request)) trace in
      if is_unknown names request.forwarder then (ok false, trace) else answered updated

-- try: ... strip("/"); except UciRecordNotFound: pass. Only a text has a strip.
abbrev pub domain_of : Result OptionValue → Result (Option String)
domain_of (ok (text s)) = ok (some (strip_slashes s))
domain_of (ok _) = err (attribute_error "object has no attribute 'strip'")
domain_of (err (uci_record_not_found _ _ _ _ _)) = ok none
domain_of (err e) = err e

unfoldable pub get_settings : Numerals → (resolver_data dhcp_data : UciData) → Result Settings
get_settings numerals resolver_data dhcp_data = do
  forwarding_text ← get_option_named resolver_data "resolver" "common" "forward_upstream" none
  forwarding_enabled ← parse_value numerals forwarding_text
  forwarder ← get_option_named resolver_data "resolver" "common" "forward_custom" (some (text ""))
  ignore_text ←
      get_option_named resolver_data "resolver" "common" "ignore_root_key" (some (text "0"))
  ignored ← parse_value numerals ignore_text
  dynamic_text ←
      get_option_named resolver_data "resolver" "common" "dynamic_domains" (some (text "0"))
  dns_from_dhcp_enabled ← parse_value numerals dynamic_text
  domain ← domain_of (get_option_anonymous dhcp_data "dhcp" "dnsmasq" 0 "local" none)
  ok record {
    forwarding_enabled = forwarding_enabled;
    forwarder = forwarder;
    dnssec_enabled = not ignored;
    dns_from_dhcp_enabled = dns_from_dhcp_enabled;
    dns_from_dhcp_domain = domain;
  }
