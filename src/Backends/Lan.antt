-- ===== src/Backends/Lan.antt =====
-- foris_controller_backends/lan/__init__.py, the class LanUci: the address of the network, the tests
-- on addresses and the MAC addresses of a host; unwrap_list and parse_to_list of
-- foris_controller/utils.py. Values that a text is formatted with are rendered by the parameter.
pub mod Hosts
pub mod Changes
pub mod Agreement
pub mod Refusals
pub mod Update
pub mod Reading
pub mod Shown
pub mod Atomic
pub mod Unchanged
pub mod Leases
pub mod Macs
mod Tests
use Prim.Native.Char.{Char}
use Prim.Native.String.{◌++◌ as append}
use package.text.Mathlib.TextBridge.{of_list}
use foris_controller.Prelude.{
  ℕ, zero, suc, ◌+◌, String, ◌==◌, Bool, true, false, Option, none, some, List, [], ◌∷◌, map, upper,
  split_on, if◌then◌else◌,
}
use foris_controller.Exceptions.{Raised, value_error, attribute_error, Result, ok, err, ◌>>=◌}
use foris_controller.Ipaddress.{ip_address, contains, Network}
use foris_controller.Ipaddress.Printing.{
  Interface, ip_interface, show_address, show_interface, show_netmask,
}
use foris_controller.Lan.{in_network}
use foris_controller.Uci.{OptionValue, text, items, num, UciData, get_option_named}
use foris_controller.Uci.Export.{Line, chars, is_space}
use foris_controller.Backends.{Numerals, str_of}

abbrev pub unwrap_list : OptionValue → OptionValue
unwrap_list (text s) = text s
unwrap_list (items []) = text ""
unwrap_list (items (value ∷ values)) = text value
unwrap_list (num zero) = text ""
unwrap_list (num (suc n)) = num (suc n)

abbrev pub parse_to_list : OptionValue → List OptionValue
parse_to_list (text s) = text s ∷ []
parse_to_list (items []) = text "" ∷ []
parse_to_list (items (value ∷ values)) = map text (value ∷ values)
parse_to_list (num zero) = text "" ∷ []
parse_to_list (num (suc n)) = num (suc n) ∷ []

-- _get_interface
unfoldable pub get_interface : String → String → Result String
get_interface ip netmask = do
  interface ← ip_interface (append ip (append "/" netmask))
  ok (show_interface interface)

abbrev pub default_router_ip : String
default_router_ip = "192.168.1.1"

abbrev pub default_netmask : String
default_netmask = "255.255.255.0"

-- router_ip, netmask, gateway
pub record Combo : Type 0 where
  pub router_ip : String
  pub netmask : OptionValue
  pub gateway : OptionValue

module _ (network_data : UciData) (gateway : OptionValue) where
  -- The test count("/") == 1 on the address is that it has two parts around slashes.
  unfoldable pub combo_of : String → List String → Result Combo
  combo_of s (address ∷ mask ∷ []) = do
    interface ← ip_interface s
    ok record {
      router_ip = show_address interface.ip;
      netmask = text (show_netmask interface);
      gateway = gateway;
    }
  combo_of s _ = do
    netmask ← get_option_named network_data "network" "lan" "netmask" (some (text default_netmask))
    ok record { router_ip = s; netmask = netmask; gateway = gateway }

  -- A number has no count.
  abbrev pub combo : OptionValue → Result Combo
  combo (text s) = combo_of s (split_on b'/' s)
  combo _ = err (attribute_error "object has no attribute 'count'")

unfoldable pub get_network_combo : UciData → Result Combo
get_network_combo network_data = do
  ipaddr ← get_option_named network_data "network" "lan" "ipaddr" (some (text default_router_ip))
  gateway ← get_option_named network_data "network" "lan" "gateway" (some (text default_router_ip))
  combo network_data gateway (unwrap_list ipaddr)

-- The network of an address with a prefix is that of the interface, and the netmask is not used.
abbrev pub in_network_of : List String → String → String → String → Result Bool
in_network_of (address ∷ mask ∷ []) ip ip_root netmask = do
  interface ← ip_interface ip_root
  in_network ip (show_address interface.ip) (show_netmask interface)
in_network_of _ ip ip_root netmask = in_network ip ip_root netmask

unfoldable pub in_lan : String → String → String → Result Bool
in_lan ip ip_root netmask = in_network_of (split_on b'/' ip_root) ip ip_root netmask

-- text.strip()
lstrip_space : Line → Line
unfolding is_space
lstrip_space [] = []
lstrip_space (c ∷ s) = let rest = lstrip_space s in if is_space c then rest else c ∷ s

abbrev without_space : Char → Line → Line
without_space c [] = if is_space c then [] else c ∷ []
without_space c (d ∷ s) = c ∷ d ∷ s

rstrip_space : Line → Line
rstrip_space [] = []
rstrip_space (c ∷ s) = without_space c (rstrip_space s)

unfoldable pub strip_space : String → String
unfolding lstrip_space rstrip_space
strip_space s = of_list (rstrip_space (lstrip_space (chars s)))

unfoldable pub process_uci_mac_addresses : OptionValue → Result (List String)
process_uci_mac_addresses (text s) = ok (map (λ e. upper (strip_space e)) (split_on 32 s))
process_uci_mac_addresses (items macs) = ok (map (λ e. upper (strip_space e)) macs)
process_uci_mac_addresses (num n) = err (value_error "Unexpected datatype of mac address record")
