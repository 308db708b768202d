-- ===== src/Backends/Wan/Update.antt =====
-- update_settings of the class WanUci in foris_controller_backends/wan/__init__.py, as a block of a
-- transaction, and set_wan_firewall_zone_interfaces of NetworksWanUci in
-- foris_controller_backends/networks/__init__.py. The wizard and the restart of the network, which
-- follow on it, are left out.
use foris_controller.Prelude.{
  String, ◌==◌, false, not, Option, none, some, List, [], ◌∷◌, ◌++◌, map, if◌then◌else◌,
}
use foris_controller.Exceptions.{Result, ◌>>=◌}
use foris_controller.Uci.{OptionValue, text, UciData, get_option_named, get_sections_by_type}
use foris_controller.Uci.Backend.{
  Trace, Oracle, Uci, ◌>>=◌ as ◌>>>=◌, ◌>>◌, pure, set_option, del_option, add_to_list,
  replace_list, with_backend,
}
use foris_controller.Wan.{
  DynamicIpv4, Tunnel, Qos, WanSettings, wan_none, dhcp, static, pppoe, Wan6Settings, wan6_none,
  static6, dhcpv6, six_to_four, six_in_four, NewVlan, NewSettings,
}
use foris_controller.Backends.{
  Call, section, option, run_calls, read_config, except_uci, Numerals, str_of,
}
use foris_controller.Backends.Guest.{stored}
use foris_controller.Backends.Guest.Transaction.{lift}
use foris_controller.Backends.Lan.{parse_to_list}
use foris_controller.Backends.Lan.Update.{dns_of, is_truthy}
use foris_controller.Backends.Wan.{
  key_text, wan_type, wan6_type, rule_6in4, rule_6to4, rule_calls, device_text, wan_zone,
  vlan_device, vlan_calls, qos_calls,
}

module _ (numerals : Numerals) (strip : String → String) (oracle : Oracle) where
  -- del_option with fail_on_error=False
  abbrev pub drop_option : String → String → Uci (Unit {0})
  drop_option section_name name = del_option strip oracle "network" section_name name false

  unfoldable pub drop_options : String → List String → Uci (Unit {0})
  drop_options section_name [] = pure tt
  drop_options section_name (name ∷ names) =
      drop_option section_name name >> drop_options section_name names

  -- An option that is set when there is a value for it and deleted otherwise.
  abbrev pub set_or_drop : (section_name name value : String) → Uci (Unit {0})
  set_or_drop section_name name value =
      if value == ""
      then drop_option section_name name
      else set_option strip oracle "network" section_name name value

  abbrev pub set_key : (section_name name key : String) → Option String → Uci (Unit {0})
  set_key section_name name key value =
      lift (key_text key value) >>>= set_option strip oracle "network" section_name name

  abbrev pub move_macaddr : OptionValue → Uci (Unit {0})
  move_macaddr macaddr =
      if is_truthy macaddr
      then drop_option "wan" "macaddr"
        >> set_option strip oracle "network" "dev_wan" "macaddr" (str_of numerals macaddr)
      else pure tt

  abbrev pub migrate_from : UciData → OptionValue → Uci (Unit {0})
  migrate_from network_data ifname =
      if is_truthy ifname
      then drop_option "wan" "ifname"
        >> run_calls strip oracle (
            option "network" "wan" "device" (str_of numerals ifname)
            ∷ section "network" "device" "dev_wan"
            ∷ option "network" "dev_wan" "name" (str_of numerals ifname)
            ∷ [])
        >> (lift (get_option_named network_data "network" "wan" "macaddr" (some (text "")))
            >>>= move_macaddr)
      else pure tt

  -- _migrate_old_config
  unfoldable pub migrate_old_config : Uci (Unit {0})
  migrate_old_config = read_config strip oracle "network" >>>= λ network_data.
      lift (get_option_named network_data "network" "wan" "ifname" (some (text "")))
      >>>= migrate_from network_data

  unfoldable pub set_wan : WanSettings → Uci (Unit {0})
  set_wan wan_none = pure tt
  set_wan (dhcp (some hostname)) = set_option strip oracle "network" "wan" "hostname" hostname
  set_wan (dhcp none) = drop_option "wan" "hostname"
  set_wan (static address) =
      set_key "wan" "ipaddr" "ip" address.ip
      >> set_key "wan" "netmask" "netmask" address.netmask
      >> set_key "wan" "gateway" "gateway" address.gateway
      >> replace_list strip oracle "network" "wan" "dns"
          (dns_of address.dns2 ++ dns_of address.dns1)
  set_wan (pppoe account) =
      set_key "wan" "username" "username" account.username
      >> set_key "wan" "password" "password" account.password

  abbrev pub added : String → String → Uci (Unit {0})
  added name value =
      add_to_list strip oracle "network" "wan6" name
        (map (str_of numerals) (parse_to_list (text value)))

  abbrev pub set_dynamic : DynamicIpv4 → Uci (Unit {0})
  set_dynamic account =
      if account.enabled
      then set_key "wan6" "tunnelid" "tunnel_id" account.tunnel_id
        >> set_key "wan6" "username" "username" account.username
        >> set_key "wan6" "password" "password_or_key" account.password_or_key
      else drop_options "wan6" ("tunnelid" ∷ "username" ∷ "password" ∷ [])

  abbrev pub address_of : Option String → String
  address_of none = ""
  address_of (some address) = address

  abbrev pub set_tunnel : Tunnel → Uci (Unit {0})
  set_tunnel tunnel =
      set_option strip oracle "network" "wan6" "mtu" (numerals.show tunnel.mtu)
      >> set_option strip oracle "network" "wan6" "peeraddr" tunnel.server_ipv4
      >> replace_list strip oracle "network" "wan6" "ip6addr"
          (map (str_of numerals) (parse_to_list (text (address_of tunnel.ipv6_address))))
      >> (if tunnel.ipv6_prefix == ""
          then drop_option "wan6" "ip6prefix"
          else added "ip6prefix" tunnel.ipv6_prefix)
      >> set_dynamic tunnel.dynamic_ipv4
      >> run_calls strip oracle (
          rule_calls rule_6in4 (
            ("enabled", "1")
            ∷ ("family", "ipv4")
            ∷ ("proto", "41")
            ∷ ("target", "ACCEPT")
            ∷ ("src", "wan")
            ∷ ("src_ip", tunnel.server_ipv4)
            ∷ []))

  unfoldable pub set_wan6 : Wan6Settings → Uci (Unit {0})
  set_wan6 wan6_none = drop_options "wan6" ("ip6prefix" ∷ "ip6addr" ∷ "ip6gw" ∷ [])
  set_wan6 (static6 address) =
      set_key "wan6" "ip6addr" "ip" address.ip
      >> (lift (key_text "network" address.network) >>>= added "ip6prefix")
      >> set_key "wan6" "ip6gw" "gateway" address.gateway
      >> replace_list strip oracle "network" "wan6" "dns"
          (dns_of address.dns2 ++ dns_of address.dns1)
  set_wan6 (dhcpv6 duid) = set_or_drop "wan6" "clientid" duid
  set_wan6 (six_to_four ipv4_address) =
      set_option strip oracle "network" "lan" "ip6assign" "60"
      >> set_or_drop "wan6" "ipaddr" ipv4_address
      >> run_calls strip oracle (
          rule_calls rule_6to4 (
            ("enabled", "1")
            ∷ ("proto", "ipv6")
            ∷ ("src_ip", "192.88.99.1")
            ∷ ("target", "ACCEPT")
            ∷ ("src", "wan")
            ∷ []))
  set_wan6 (six_in_four tunnel) = set_tunnel tunnel

  -- The rules of the tunnels that are not used are disabled.
  unfoldable pub disable_tunnels : Wan6Settings → Uci (Unit {0})
  disable_tunnels new =
      (if wan6_type new == "6in4"
        then pure tt
        else drop_options "wan6"
            ("tunnelid" ∷ "username" ∷ "password" ∷ "peeraddr" ∷ "mtu" ∷ "ip6addr" ∷ [])
          >> run_calls strip oracle (rule_calls rule_6in4 (("enabled", "0") ∷ [])))
      >> (if wan6_type new == "6to4"
          then pure tt
          else run_calls strip oracle (rule_calls rule_6to4 (("enabled", "0") ∷ [])))

  abbrev pub ipv6_calls : Wan6Settings → List Call
  ipv6_calls new =
      let enabled = stored (not (wan6_type new == "none")) in
      option "network" "wan" "ipv6" enabled ∷ option "resolver" "common" "net_ipv6" enabled ∷ []

  abbrev pub set_mac : NewSettings → Uci (Unit {0})
  set_mac new =
      if new.custom_mac_enabled
      then set_key "dev_wan" "macaddr" "custom_mac" new.custom_mac
      else drop_option "dev_wan" "macaddr"

  -- _update_vlan_id
  unfoldable pub update_vlan_id : OptionValue → Option NewVlan → Uci (Unit {0})
  update_vlan_id wan_device none = pure tt
  update_vlan_id wan_device (some new) = lift (device_text wan_device) >>>= λ device. λ b.
      except_uci tt
        (run_calls strip oracle (vlan_calls numerals (vlan_device numerals device new)) b)

  unfoldable pub set_qos : OptionValue → Option Qos → Uci (Unit {0})
  set_qos wan_device none = pure tt
  set_qos wan_device (some qos) = λ b.
      except_uci tt (run_calls strip oracle (qos_calls numerals (str_of numerals wan_device) qos) b)

  -- set_wan_firewall_zone_interfaces
  unfoldable pub set_zone : List String → Uci (Unit {0})
  set_zone interfaces = read_config strip oracle "firewall" >>>= λ firewall_data.
      lift (get_sections_by_type firewall_data "firewall" "zone" >>= wan_zone) >>>= λ zone.
      replace_list strip oracle "firewall" zone "network" interfaces

  -- What follows on the settings of the two interfaces.
  unfoldable pub set_device : NewSettings → OptionValue → Uci (Unit {0})
  set_device new wan_device =
      run_calls strip oracle (
        section "network" "device" "dev_wan"
        ∷ option "network" "dev_wan" "name" (str_of numerals wan_device)
        ∷ [])
      >> set_mac new
      >> update_vlan_id wan_device new.vlan_settings
      >> set_qos wan_device new.qos
      >> set_zone ("wan" ∷ "wan6" ∷ [])

  unfoldable pub update_block : NewSettings → Uci (Unit {0})
  update_block new =
      migrate_old_config
      >> run_calls strip oracle (
          section "network" "interface" "wan"
          ∷ option "network" "wan" "proto" (wan_type new.wan_settings)
          ∷ [])
      >> set_wan new.wan_settings
      >> run_calls strip oracle (
          section "network" "interface" "wan6"
          ∷ option "network" "wan6" "device" "@wan"
          ∷ option "network" "wan6" "proto" (wan6_type new.wan6_settings)
          ∷ [])
      >> drop_option "wan6" "ip6prefix"
      >> disable_tunnels new.wan6_settings
      >> set_wan6 new.wan6_settings
      >> run_calls strip oracle (ipv6_calls new.wan6_settings)
      >> (read_config strip oracle "network" >>>= λ network_data.
          lift (get_option_named network_data "network" "wan" "device" none) >>>= set_device new)

  unfoldable pub update_settings : String → NewSettings → Trace → Result (Unit {0}) × Trace
  update_settings config_dir new trace =
      with_backend strip oracle config_dir (update_block new) trace
