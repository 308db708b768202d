-- ===== src/Backends/Lan/Tests.antt =====
-- Two hosts on a router, and a change of its settings. Numbers are written in strokes.
mod Settings
mod Refused
use foris_controller.Prelude.{
  String, ◌==◌, ◌≡◌, refl, Bool, true, false, not, inl, inr, Option, none, some, List, [], ◌∷◌,
  ◌++◌, map, All, any, lookup, upper, split_on, if◌then◌else◌,
}
use foris_controller.Exceptions.{Raised, Result, ok, err}
use foris_controller.Ipaddress.{ip_address, read_mask, ip_network, contains}
use foris_controller.Ipaddress.Printing.{
  Interface, ip_interface, interface_of, show_address, show_octet, show_interface, show_netmask,
}
use foris_controller.Lan.{
  Client, LanState, Reply, Dhcp, ModeManaged, ModeUnmanaged, LanStatic, NewSettings, managed,
  in_network,
}
use foris_controller.Lan.Hosts as Mock
use foris_controller.Uci.{
  OptionValue, text, items, UciSection, UciData, get_option_named, get_sections_by_type, parse_bool,
}
use foris_controller.Backends.Strokes.{strokes, unary}
use foris_controller.Backends.{lease_option}
use foris_controller.Backends.Lan.{
  get_network_combo, get_interface, combo_of, in_lan, process_uci_mac_addresses, strip_space,
}
use foris_controller.Backends.Lan.Hosts.{
  find_host, record_macs, ip_is_unique, hostname_is_unique, is_ignored, serves_dhcp,
  validate_dhcp_host_ip, set_refusal, is_text,
}
use foris_controller.Backends.Lan.Agreement.{
  IsHost, AllHosts, Represents, refusal_of, set_refusal-mock,
}
use foris_controller.Backends.Lan.Changes.{refuse, update_plan, update_found, names_free}
use foris_controller.Backends.Lan.Refusals.{update_plan-ip_exists}
use foris_controller.Backends.Lan.Leases.{get_client_list}
use foris_controller.Backends.Lan.Leases.Static.{
  Fits, Distinct, lease_of_client, get_client_list-clients,
}

abbrev client : String → String → String → Client
client ip mac hostname = record {
  ip = ip;
  mac = mac;
  expires = 0;
  active = false;
  hostname = hostname;
  static = true;
}

abbrev printer : Client
printer = client "192.168.1.7" "AA:00" "printer"

abbrev phone : Client
phone = client "ignore" "AA:01" "phone"

abbrev lan : LanState
lan = record {
  guide_set = true;
  mode = "managed";
  mode_managed = record {
    router_ip = "192.168.1.1";
    netmask = "255.255.255.0";
    dhcp = record {
      enabled = true;
      start = 10;
      limit = 20;
      lease_time = 0;
      clients = printer ∷ phone ∷ [];
    };
  };
  mode_unmanaged = record {
    lan_type = "none";
    hostname = none;
    lan_static = record {
      ip = "192.168.1.1";
      netmask = "255.255.255.0";
      gateway = "192.168.1.1";
      dns1 = none;
      dns2 = none;
    };
  };
  qos = record { download = 0; enabled = false; upload = 0 };
  lan_redirect = false;
}

abbrev host : String → Client → UciSection
host name c = record {
  type = "host";
  name = name;
  options = ("mac", text c.mac) ∷ ("ip", text c.ip) ∷ ("name", text c.hostname) ∷ [];
  anonymous = true;
}

abbrev hosts : List UciSection
hosts = host "cfg01" printer ∷ host "cfg02" phone ∷ []

abbrev dhcp_data : UciData
dhcp_data = ("dhcp", hosts) ∷ []

abbrev network_data : UciData
network_data =
    (
      "network",
      record {
        type = "interface";
        name = "lan";
        options = ("ipaddr", items ("192.168.1.1/24" ∷ [])) ∷ [];
        anonymous = false;
      }
          ∷ [],
    )
    ∷ []

printer-IsHost : IsHost printer (host "cfg01" printer)
unfolding lookup process_uci_mac_addresses split_on strip_space upper
printer-IsHost = record { mac = refl; one = refl; ip = refl; name = refl }

phone-IsHost : IsHost phone (host "cfg02" phone)
unfolding lookup process_uci_mac_addresses split_on strip_space upper
phone-IsHost = record { mac = refl; one = refl; ip = refl; name = refl }

lan_held : Represents unary network_data dhcp_data hosts lan
unfolding get_network_combo get_option_named get_sections_by_type is_ignored parse_bool combo_of
    split_on ip_interface interface_of ip_address read_mask show_address show_octet show_netmask
lan_held = record {
  gateway = text "192.168.1.1";
  address = refl;
  plain = refl;
  mode = refl;
  ignored = refl;
  sections = refl;
  listed = (printer-IsHost, (phone-IsHost, tt));
}

set_refusal-mock_example :
    set_refusal unary network_data dhcp_data "192.168.1.7" "aa:02" "tv"
    ≡ refusal_of (Mock.set_dhcp_client "192.168.1.7" "aa:02" "tv" lan).0
set_refusal-mock_example =
    set_refusal-mock unary network_data dhcp_data hosts lan lan_held "192.168.1.7" "aa:02" "tv"
      (inl refl)

-- The phone is to get the address of the printer.
taken :
    update_plan unary network_data dhcp_data "192.168.1.7" "aa:01" "aa:01" "phone"
    ≡ ok (refuse "ip-exists")
unfolding update_plan update_found get_network_combo get_option_named get_sections_by_type
    is_ignored parse_bool combo_of split_on ip_interface interface_of ip_address read_mask
    show_address show_octet show_netmask find_host process_uci_mac_addresses strip_space upper
    lookup record_macs validate_dhcp_host_ip in_lan in_network ip_network contains serves_dhcp
    ip_is_unique
taken = refl

update_plan-ip_exists_example :
    (found : List UciSection) × (section : UciSection) × (macs : List String)
    × (get_sections_by_type dhcp_data "dhcp" "host" ≡ ok found)
    × (find_host (upper "aa:01") found ≡ ok (some (section, macs)))
    × (is_text "192.168.1.7" (lookup "ip" section.options) ≡ false)
    × (ip_is_unique "192.168.1.7" found ≡ false)
update_plan-ip_exists_example =
    update_plan-ip_exists unary network_data dhcp_data "192.168.1.7" "aa:01" "aa:01" "phone" taken

printer_fits : in_lan "192.168.1.7" "192.168.1.1" "255.255.255.0" ≡ ok true
unfolding in_lan in_network split_on ip_address ip_network read_mask contains
printer_fits = refl

hosts_found : get_sections_by_type dhcp_data "dhcp" "host" ≡ ok hosts
unfolding get_sections_by_type
hosts_found = refl

get_client_list-clients_example :
    get_client_list unary (λ s. false) "" none dhcp_data "192.168.1.1" "255.255.255.0"
    ≡ ok (map lease_of_client (printer ∷ phone ∷ []))
get_client_list-clients_example =
    get_client_list-clients unary (λ s. false) "" dhcp_data "192.168.1.1" "255.255.255.0"
      (printer ∷ phone ∷ []) hosts hosts_found (printer-IsHost, (phone-IsHost, tt))
      (inr (refl, printer_fits), (inl refl, tt)) ((refl, tt), (tt, tt))
