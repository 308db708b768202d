-- ===== src/Backends/Lan/Shown.antt =====
-- What is read of a configuration that has the address and the options of managed settings.
use foris_controller.Prelude.{
  ℕ, ◌^◌, ◌<◌, String, ◌≡◌, refl, ap, sym, ◌∙◌, true, false, none, some, List, [], ◌∷◌, ◌++◌, All,
  without, arith,
}
use foris_controller.Exceptions.{ok, err}
use foris_controller.Ipaddress.{ip_address, read_mask}
use foris_controller.Ipaddress.Printing.{
  Interface, interface_of, ip_interface, show_address, show_interface, show_netmask, split_on-slash,
  split_on-show_interface, ip_interface-show_interface, ip_address-show_address,
  read_mask-show_netmask,
}
use foris_controller.Ipaddress.Bounds.{ip_address-bound, read_mask-bound}
use foris_controller.Lan.{managed}
use foris_controller.Uci.{OptionValue, text, items, num, UciData, parse_bool, get_option_named}
use foris_controller.Uci.Laws.{get_option_named-default}
use foris_controller.Backends.{Call, Numerals, int_of, lease_option, normalize_lease-lease_option}
use foris_controller.Backends.Calls.{Shows, value_of, shown_default}
use foris_controller.Backends.Lan.{Combo, combo_of, get_network_combo, get_interface}
use foris_controller.Backends.Lan.Hosts.{is_ignored}
use foris_controller.Backends.Lan.Update.{
  mode_calls, ignore_calls, start_calls, limit_calls, lease_calls,
}
use foris_controller.Backends.Lan.Reading.{Managed, get_managed}

-- An address and a netmask as texts, and what they stand for.
pub record IsAddress (router_ip netmask : String) (i : Interface) : Type 0 where
  pub plain : without b'/' router_ip ≡ true
  pub plain_mask : without b'/' netmask ≡ true
  pub ip : ip_address router_ip ≡ ok i.ip
  pub bits : read_mask netmask ≡ ok i.bits

module _ (router_ip netmask : String) (i : Interface) (given : IsAddress router_ip netmask i) where
  pub get_interface-IsAddress : get_interface router_ip netmask ≡ ok (show_interface i)
  unfolding get_interface ip_interface interface_of
  get_interface-IsAddress =
      rw (split_on-slash router_ip netmask given.plain given.plain_mask, given.ip, given.bits) refl

  is_address : i.ip < 2 ^ 32
  is_address = ip_address-bound router_ip i.ip given.ip

  is_length : i.bits < 33
  is_length = read_mask-bound netmask i.bits given.bits

  -- What is read of the list that set_lan adds.
  abbrev pub shown_combo : OptionValue → Combo
  shown_combo gateway = record {
    router_ip = show_address i.ip;
    netmask = text (show_netmask i);
    gateway = gateway;
  }

  get_network_combo-interface :
      (network_data : UciData)
      → get_option_named network_data "network" "lan" "ipaddr" none
        ≡ ok (items (show_interface i ∷ []))
      → (gateway : OptionValue) × (get_network_combo network_data ≡ ok (shown_combo gateway))
  get_network_combo-interface network_data h = (
    elim (get_option_named network_data "network" "lan" "gateway" none) [
      | ok x ↦ x
      | err _ ↦ text "192.168.1.1"
    ],
    unfold get_network_combo in
        unfold combo_of in
        rw
          (
            get_option_named-default network_data "network" "lan" "ipaddr" (text "192.168.1.1"),
            h,
            get_option_named-default network_data "network" "lan" "gateway" (text "192.168.1.1"),
            split_on-show_interface i is_address is_length,
            ip_interface-show_interface i is_address is_length,
          )
          refl,
  )

-- The options of an update that makes the router give out addresses.
abbrev pub served_calls :
    Numerals → (router_ip netmask : String) (start limit lease_time : ℕ) → List Call
served_calls numerals router_ip netmask start limit lease_time =
    mode_calls (
      managed (record {
        router_ip = router_ip;
        netmask = netmask;
        enabled = true;
        start = some start;
        limit = some limit;
        lease_time = some lease_time;
      }))
    ++ ignore_calls false
    ++ start_calls numerals start
    ++ limit_calls numerals limit
    ++ lease_calls numerals router_ip lease_time

-- What is read of the managed mode says what was requested: the texts may be written in another way.
pub record IsManaged (router_ip netmask : String) (start limit lease_time : ℕ) (m : Managed)
    : Type 0 where
  pub is_mode : m.mode ≡ text "managed"
  pub same_address : ip_address m.router_ip ≡ ip_address router_ip
  pub mask : String
  pub is_mask : m.netmask ≡ text mask
  pub same_mask : read_mask mask ≡ read_mask netmask
  pub is_enabled : m.enabled ≡ true
  pub is_start : m.start ≡ start
  pub is_limit : m.limit ≡ limit
  pub is_lease_time : m.lease_time ≡ lease_time

-- After an update to the managed mode with addresses given out, when the configuration has the options
-- that were set and the interface as the list of addresses, the settings read are the managed mode
-- with the same address, the same netmask, the same range and the same lease time. The address and the
-- netmask are valid and have no slash.
pub get_managed-request :
    (numerals : Numerals) (read_of : String → UciData) (router_ip netmask interface : String)
    (i : Interface) (start limit lease_time : ℕ)
    → IsAddress router_ip netmask i
    → All (Shows read_of) (served_calls numerals router_ip netmask start limit lease_time)
    → get_interface router_ip netmask ≡ ok interface
    → get_option_named (read_of "network") "network" "lan" "ipaddr" none
      ≡ ok (items (interface ∷ []))
    → (m : Managed) × (get_managed numerals (read_of "network") (read_of "dhcp") ≡ ok m)
      × IsManaged router_ip netmask start limit lease_time m
unfolding value_of int_of
get_managed-request numerals read_of router_ip netmask interface i start limit lease_time given h
      made l =
    let calls = served_calls numerals router_ip netmask start limit lease_time in
    let dhcp = shown_default read_of calls "dhcp" "lan" in
    let same : interface ≡ show_interface i =
      ground (arith, made, get_interface-IsAddress router_ip netmask i given) in
    let (gateway, combo) =
      get_network_combo-interface router_ip netmask i given (read_of "network")
        (l ∙ ap (λ t. ok (items (t ∷ []))) same) in
    let ignored : is_ignored numerals (read_of "network") (read_of "dhcp") ≡ ok false =
      unfold is_ignored in unfold parse_bool in rw (dhcp "ignore" "0" (text "0") h refl) refl in
    (
      record {
        mode = text "managed";
        router_ip = show_address i.ip;
        netmask = text (show_netmask i);
        gateway = gateway;
        enabled = true;
        start = start;
        limit = limit;
        lease_time = lease_time;
      },
      unfold get_managed in
          rw
            (
              shown_default read_of calls "network" "lan" "_turris_mode" "managed" (text "managed")
                  h refl,
              combo,
              ignored,
              dhcp "start" (numerals.show start) (num 100) h refl,
              numerals.int-show start,
              dhcp "limit" (numerals.show limit) (num 150) h refl,
              numerals.int-show limit,
              dhcp "leasetime" (lease_option numerals lease_time) (num 43200) h refl,
              normalize_lease-lease_option numerals lease_time,
            )
            refl,
      record {
        is_mode = refl;
        same_address =
            ip_address-show_address i.ip (is_address router_ip netmask i given) ∙ sym given.ip;
        mask = show_netmask i;
        is_mask = refl;
        same_mask =
            read_mask-show_netmask i (is_address router_ip netmask i given)
              (is_length router_ip netmask i given)
            ∙ sym given.bits;
        is_enabled = refl;
        is_start = refl;
        is_limit = refl;
        is_lease_time = refl;
      },
    )
