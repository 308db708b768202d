-- ===== src/Dns.antt =====
-- foris_controller_modules/dns/handlers/mock.py: the resolver's settings and its forwarders. The
-- forwarders are one list of objects; a method that writes into one changes it in the list.
pub mod Forwarders
pub mod Actions
mod Tests
use foris_controller.Prelude.{
  String, ◌==◌, Bool, true, false, Option, none, some, List, [], ◌∷◌, ◌++◌, any, map, if◌then◌else◌,
}

pub record Ipaddresses : Type 0 where
  pub ipv4 : List String
  pub ipv6 : List String

-- What add_forwarder and set_forwarder write into a forwarder.
pub record Fields : Type 0 where
  pub description : String
  pub ipaddresses : Ipaddresses
  pub tls_type : String
  pub tls_hostname : String
  pub tls_pin : String

pub record Forwarder : Type 0 where
  pub name : String
  pub fields : Fields
  pub editable : Bool

pub record DnsState : Type 0 where
  pub guide_set : Bool
  pub forwarding_enabled : Bool
  pub forwarder : String
  pub available_forwarders : List Forwarder
  pub dnssec_enabled : Bool
  pub dns_from_dhcp_enabled : Bool
  pub dns_from_dhcp_domain : Option String

abbrev pub initial : DnsState
initial = record {
  guide_set = false;
  forwarding_enabled = true;
  forwarder = "";
  available_forwarders =
      record {
        name = "99_google";
        fields = record {
          description = "Google";
          ipaddresses = record {
            ipv4 = "8.8.8.8" ∷ "1.1.1.1" ∷ [];
            ipv6 = "2001:4860:4860::8888" ∷ "2001:148f:fffe::1" ∷ [];
          };
          tls_type = "no";
          tls_hostname = "";
          tls_pin = "";
        };
        editable = false;
      }
      ∷ record {
        name = "99_cloudflare";
        fields = record {
          description = "Cloudflare (TLS)";
          ipaddresses = record { ipv4 = "1.1.1.1" ∷ []; ipv6 = [] };
          tls_type = "pin";
          tls_hostname = "";
          tls_pin = "yioEpqeR4WtDwE9YxNVnCEkTxIjx6EEIwFSQW+lJsbc=";
        };
        editable = false;
      }
      ∷ record {
        name = "99_quad9";
        fields = record {
          description = "Quad9 (TLS)";
          ipaddresses = record { ipv4 = []; ipv6 = "2620:fe::10" ∷ [] };
          tls_type = "hostname";
          tls_hostname = "dns.quad9.net";
          tls_pin = "";
        };
        editable = false;
      }
      ∷ [];
  dnssec_enabled = true;
  dns_from_dhcp_enabled = false;
  dns_from_dhcp_domain = none;
}

-- get_converted_forwarders; the first one is the provider's.
pub record Converted : Type 0 where
  pub name : String
  pub description : String
  pub editable : Bool

unfoldable pub get_converted_forwarders : DnsState → List Converted
get_converted_forwarders s =
    record { name = ""; description = ""; editable = false }
    ∷ map (λ e. record { name = e.name; description = e.fields.description; editable = e.editable })
        s.available_forwarders

pub record DnsSettings : Type 0 where
  pub forwarding_enabled : Bool
  pub forwarder : String
  pub available_forwarders : List Converted
  pub dnssec_enabled : Bool
  pub dns_from_dhcp_enabled : Bool
  pub dns_from_dhcp_domain : Option String

-- An empty domain is left out, as None is.
abbrev pub named : Option String → Option String
named none = none
named (some d) = if d == "" then none else some d

unfoldable pub get_settings : DnsState → DnsSettings
get_settings s = record {
  forwarding_enabled = s.forwarding_enabled;
  forwarder = s.forwarder;
  available_forwarders = get_converted_forwarders s;
  dnssec_enabled = s.dnssec_enabled;
  dns_from_dhcp_enabled = s.dns_from_dhcp_enabled;
  dns_from_dhcp_domain = named s.dns_from_dhcp_domain;
}

pub record NewSettings : Type 0 where
  pub forwarding_enabled : Bool
  pub dnssec_enabled : Bool
  pub dns_from_dhcp_enabled : Bool
  pub forwarder : Option String
  pub dns_from_dhcp_domain : Option String

-- forwarder in [e["name"] for e in self.get_converted_forwarders()]
abbrev pub known : Option String → DnsState → Bool
known none s = false
known (some f) s = any (λ (e : Converted). f == e.name) (get_converted_forwarders s)

abbrev pub or_keep {ℓ} : {A : Type ℓ} → A → Option A → A
or_keep old none = old
or_keep old (some new) = new

-- The assignments of update_settings, with the forwarder that is kept or chosen.
abbrev pub stored : NewSettings → String → DnsState → DnsState
stored new f s = record s {
  guide_set = true;
  forwarding_enabled = new.forwarding_enabled;
  forwarder = f;
  dnssec_enabled = new.dnssec_enabled;
  dns_from_dhcp_enabled = new.dns_from_dhcp_enabled;
  dns_from_dhcp_domain = elim new.dns_from_dhcp_domain [
    | none ↦ s.dns_from_dhcp_domain
    | some d ↦ some d
  ];
}

unfoldable pub update_settings : NewSettings → DnsState → Bool × DnsState
update_settings new s =
    if new.forwarding_enabled
    then (if known new.forwarder s
        then (true, stored new (or_keep s.forwarder new.forwarder) s)
        else (false, s))
    else (true, stored new s.forwarder s)
