-- ===== src/Backends/Dns/Shown.antt =====
-- What is read of a configuration that has the options of a request.
use foris_controller.Prelude.{
  String, ◌==◌, ◌≡◌, refl, ap, subst, Bool, true, false, not, none, some, [], ◌∷◌, ◌++◌, All, any,
  if◌then◌else◌,
}
use foris_controller.Exceptions.{ok}
use foris_controller.Uci.{text, UciData, parse_bool, get_option_named, get_option_anonymous}
use foris_controller.Uci.Export.{chars, is}
use foris_controller.Backends.{Call, section, option, replaced, Numerals}
use foris_controller.Backends.Calls.{Shows, value_of, shown, shown_default}
use foris_controller.Backends.Guest.{stored}
use foris_controller.Backends.Dns.{
  Request, Settings, strip_slashes, common_calls, forwarder_calls, update_calls, get_settings,
}
use foris_controller.Backends.Dns.Slashes.{
  IsSlashed, strip_slashes-IsSlashed, local, strip_slashes-local,
}

-- The data that are read of each configuration have the value that a call has set: "@dnsmasq[0]" is
-- the first section of type dnsmasq.
abbrev pub Reads : (String → UciData) → Call → Type 0
Reads read_of (section _ _ _) = Unit
Reads read_of (replaced _ _ _ _) = Unit
Reads read_of (option config section_name option_name value) =
    elim (section_name == "@dnsmasq[0]") [
      | true ↦
          get_option_anonymous (read_of config) config "dnsmasq" 0 option_name none
          ≡ ok (text value)
      | false ↦
          get_option_named (read_of config) config section_name option_name none ≡ ok (text value)
    ]

abbrev pub request_of : Bool → Bool → Bool → String → String → Request
request_of forwarding dnssec from_dhcp forwarder domain = record {
  forwarding_enabled = forwarding;
  dnssec_enabled = dnssec;
  dns_from_dhcp_enabled = from_dhcp;
  forwarder = some forwarder;
  dns_from_dhcp_domain = some domain;
}

abbrev pub settings_of : Bool → Bool → Bool → String → String → Settings
settings_of forwarding dnssec from_dhcp forwarder name = record {
  forwarding_enabled = forwarding;
  forwarder = text forwarder;
  dnssec_enabled = dnssec;
  dns_from_dhcp_enabled = from_dhcp;
  dns_from_dhcp_domain = some name;
}

parse_bool-stored : (b : Bool) → parse_bool (stored b) ≡ ok b
unfolding parse_bool
parse_bool-stored true = refl
parse_bool-stored false = refl

not-not : (b : Bool) → not (not b) ≡ b
not-not true = refl
not-not false = refl

-- What the calls of an update with a forwarder and a domain set in the section common and as the
-- local domain.
update_calls-parts :
    (read_of : String → UciData) (forwarding dnssec from_dhcp : Bool) (forwarder domain : String)
    → (domain == "") ≡ false
    → All (Reads read_of) (update_calls (request_of forwarding dnssec from_dhcp forwarder domain))
    → All (Shows read_of) (
        common_calls (request_of forwarding dnssec from_dhcp forwarder domain)
        ++ forwarder_calls (some forwarder))
      × (get_option_anonymous (read_of "dhcp") "dhcp" "dnsmasq" 0 "local" none
          ≡ ok (text (local (strip_slashes domain))))
update_calls-parts read_of forwarding dnssec from_dhcp forwarder domain given h =
    let set =
      subst
        (λ b. All (Reads read_of) (
          common_calls (request_of forwarding dnssec from_dhcp forwarder domain)
          ++ (if b
              then []
              else option "dhcp" "@dnsmasq[0]" "local" (local (strip_slashes domain))
                ∷ option "dhcp" "@dnsmasq[0]" "domain" (strip_slashes domain)
                ∷ [])
          ++ forwarder_calls (some forwarder)))
        given h in
    let after = set.1.1.1 in ((set.0, (set.1.0, (set.1.1.0, (after.1.1.0, tt)))), after.0)

-- After an update with a forwarder and a domain, a name with slashes around it or without them, when
-- the configuration has every option that the update has set, those of the domain in the first section
-- of type dnsmasq, the settings read are those of the request, the domain as the name. The name has no
-- slash inside.
pub get_settings-request :
    (numerals : Numerals) (read_of : String → UciData) (forwarding dnssec from_dhcp : Bool)
    (forwarder domain name : String)
    → (domain == "") ≡ false
    → IsSlashed domain name
    → any (is 47) (chars name) ≡ false
    → All (Reads read_of) (update_calls (request_of forwarding dnssec from_dhcp forwarder domain))
    → get_settings numerals (read_of "resolver") (read_of "dhcp")
      ≡ ok (settings_of forwarding dnssec from_dhcp forwarder name)
unfolding value_of
get_settings-request numerals read_of forwarding dnssec from_dhcp forwarder domain name given
      slashed plain set =
    let (h, l) =
      update_calls-parts read_of forwarding dnssec from_dhcp forwarder domain given set in
    let calls =
      common_calls (request_of forwarding dnssec from_dhcp forwarder domain)
      ++ forwarder_calls (some forwarder) in
    let common = shown_default read_of calls "resolver" "common" in
    unfold get_settings in
    rw
      (
        shown read_of calls "resolver" "common" "forward_upstream" (stored forwarding) h refl,
        parse_bool-stored forwarding,
        common "forward_custom" forwarder (text "") h refl,
        common "ignore_root_key" (stored (not dnssec)) (text "0") h refl,
        parse_bool-stored (not dnssec),
        common "dynamic_domains" (stored from_dhcp) (text "0") h refl,
        parse_bool-stored from_dhcp,
        l,
        strip_slashes-IsSlashed domain name plain slashed,
        strip_slashes-local name plain,
      )
      (ap
        (λ b.
          ok (record (settings_of forwarding dnssec from_dhcp forwarder name) {
            dnssec_enabled = b;
          }))
        (not-not dnssec))
