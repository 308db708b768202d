-- ===== src/Backends/Lan/Refusals.antt =====
-- When LanUci refuses to change a host.
use foris_controller.Prelude.{
  String, ◌==◌, ◌≡◌, ◌≢◌, refl, ap, sym, ◌∙◌, Bool, true, false, not, ◌&&◌, Option, none, some, any,
  List, [], ◌∷◌, lookup, lookup-insert, ◌||◌, upper, arith, Bool-cases, Option-cases, inl, inr,
  eq_iff, if◌then◌else◌,
}
use foris_controller.Exceptions.{Result, Result-cases, ok, err, from_bind, ◌>>=◌}
use foris_controller.Uci.{OptionValue, items, UciSection, UciData, get_sections_by_type}
use foris_controller.Backends.{Numerals, str_of}
use foris_controller.Backends.Lan.{Combo, get_network_combo, in_lan, process_uci_mac_addresses}
use foris_controller.Backends.Lan.Hosts.{
  Found, Refusal, find_host, record_in, record_at, record_macs, ip_is_unique, serves_dhcp,
  validate_dhcp_host_ip, is_member, is_text, minimal_valid_host_section,
}
use foris_controller.Backends.Lan.Changes.{
  Plan, refuse, unchanged, required, planned, refuses, names_free, update_found, plan_for,
  update_plan,
}

-- The reasons are different texts.
not_network : ◌≢◌ {A = String} "out-of-network" "ip-exists"
not_network e = cc

not_disabled : ◌≢◌ {A = String} "disabled" "ip-exists"
not_disabled e = cc

not_hostname : ◌≢◌ {A = String} "hostname-exists" "ip-exists"
not_hostname e = cc

not_mac : ◌≢◌ {A = String} "mac-exists" "ip-exists"
not_mac e = cc

not_found : ◌≢◌ {A = String} "mac-not-exists" "ip-exists"
not_found e = cc

has_address : String → UciSection → Bool
has_address ip h = minimal_valid_host_section h && is_text ip (lookup "ip" h.options)

any-record_in :
    (ip mac : String) (s : UciSection) (rest recorded : List UciSection) (value : OptionValue)
    (r : Result (List String))
    → lookup "mac" s.options ≡ some value
    → any (has_address ip) recorded ≡ any (has_address ip) rest
    → any (has_address ip) (record_in mac s rest recorded r) ≡ any (has_address ip) (s ∷ rest)
any-record_in ip mac s rest recorded value (err e) there same = ap (λ b. has_address ip s || b) same
any-record_in ip mac s rest recorded value (ok macs) there same =
    elim (Bool-cases (is_member (upper mac) macs)) [
      | inr f ↦ rw f (ap (λ b. has_address ip s || b) same)
      | inl t ↦ rw t (
          ap (λ b. b || any (has_address ip) rest)
            (unfold has_address in
              rw
                (
                  lookup-insert "mac" "mac" (items macs) s.options,
                  lookup-insert "mac" "ip" (items macs) s.options,
                  there,
                )
                refl))
    ]

any-record_at :
    (ip mac : String) (s : UciSection) (rest recorded : List UciSection) (o : Option OptionValue)
    → lookup "mac" s.options ≡ o
    → any (has_address ip) recorded ≡ any (has_address ip) rest
    → any (has_address ip) (record_at mac s rest recorded o) ≡ any (has_address ip) (s ∷ rest)
any-record_at ip mac s rest recorded none there same = ap (λ b. has_address ip s || b) same
any-record_at ip mac s rest recorded (some value) there same =
    any-record_in ip mac s rest recorded value (process_uci_mac_addresses value) there same

any-record_macs :
    (ip mac : String) (hosts : List UciSection)
    → any (has_address ip) (record_macs mac hosts) ≡ any (has_address ip) hosts
unfolding record_macs
any-record_macs ip mac [] = refl
any-record_macs ip mac (s ∷ rest) =
    any-record_at ip mac s rest (record_macs mac rest) (lookup "mac" s.options) refl
      (any-record_macs ip mac rest)

ip_is_unique-record_macs :
    (ip mac : String) (hosts : List UciSection)
    → ip_is_unique ip (record_macs mac hosts) ≡ ip_is_unique ip hosts
unfolding ip_is_unique has_address
ip_is_unique-record_macs ip mac hosts = ap not (any-record_macs ip mac hosts)

required-lookup :
    (name : String) (s : UciSection) (value : OptionValue)
    → required name s ≡ ok value
    → lookup name s.options ≡ some value
required-lookup name s value h = elim (Option-cases (lookup name s.options)) [
  | inl e ↦ absurd (ground (arith, e))
  | inr (v, e) ↦ ground (arith, e)
]

module _ (numerals : Numerals) (network_data dhcp_data : UciData) where
  validate_dhcp_host_ip-taken :
      (hosts : List UciSection) (ip : String) (combo : Combo)
      → validate_dhcp_host_ip numerals network_data dhcp_data hosts ip combo ≡ ok (some "ip-exists")
      → ip_is_unique ip hosts ≡ false
  validate_dhcp_host_ip-taken hosts ip combo h =
      elim (Result-cases (in_lan ip combo.router_ip (str_of numerals combo.netmask))) [
        | inr (x, e) ↦ absurd (unfold validate_dhcp_host_ip in ground (arith, e))
        | inl (fits, e) ↦ elim (Result-cases (serves_dhcp numerals network_data dhcp_data)) [
          | inr (x, g) ↦ absurd (unfold validate_dhcp_host_ip in ground (arith, e, g, not_network))
          | inl (serves, g) ↦
              unfold validate_dhcp_host_ip in ground (arith, e, g, not_network, not_disabled)
        ]
      ]

  module _ (ip new_mac hostname : String) where
    names_free-address :
        (hosts : List UciSection) (section : UciSection) (macs : List String) (name : OptionValue)
        → names_free numerals network_data dhcp_data ip new_mac hostname hosts section macs name
          ≢ ok (refuse "ip-exists")
    names_free-address hosts section macs name h = elim (Result-cases (find_host new_mac hosts)) [
      | inl (existing, e) ↦ unfold names_free in ground (arith, e, not_hostname, not_mac)
      | inr (x, e) ↦ unfold names_free in ground (arith, e, not_hostname, not_mac)
    ]

    planned_cases :
        (same : Bool) (reason : Refusal) (later : Result Plan)
        → later ≢ ok (refuse "ip-exists")
        → planned (refuses same reason) later ≡ ok (refuse "ip-exists")
        → (same ≡ false) × (reason ≡ some "ip-exists")
    planned_cases same none later h e = absurd (h e)
    planned_cases same (some reason) later h e = elim (Bool-cases (reason == "ip-exists")) [
      | inl t ↦ (ground (arith, h, e, t), ap some ((eq_iff reason "ip-exists").0 t))
      | inr f ↦ absurd (ground (arith, e, f, eq_iff reason "ip-exists"))
    ]

    decided :
        (same known : Bool) (combo : Combo) (hosts : List UciSection) (later : Result Plan)
        → later ≢ ok (refuse "ip-exists")
        → (if known
            then ok unchanged
            else validate_dhcp_host_ip numerals network_data dhcp_data hosts ip combo >>= λ reason.
                planned (refuses same reason) later)
          ≡ ok (refuse "ip-exists")
        → (ip_is_unique ip hosts ≡ false) × (same ≡ false)
    decided same true combo hosts later h e = absurd cc
    decided same false combo hosts later h e =
        let (reason, checked, e') =
          from_bind (validate_dhcp_host_ip numerals network_data dhcp_data hosts ip combo) _
            (refuse "ip-exists") e in
        let (differs, taken) = planned_cases same reason later h e' in
        (validate_dhcp_host_ip-taken hosts ip combo (checked ∙ ap ok taken), differs)

    update_found-taken :
        (combo : Combo) (hosts : List UciSection) (section : UciSection) (macs : List String)
        → update_found numerals network_data dhcp_data ip new_mac hostname combo hosts section macs
          ≡ ok (refuse "ip-exists")
        → (ip_is_unique ip hosts ≡ false) × (is_text ip (lookup "ip" section.options) ≡ false)
    unfolding update_found
    update_found-taken combo hosts section macs h =
        let (current_ip, at_ip, after_ip) =
          from_bind (required "ip" section) _ (refuse "ip-exists") h in
        let (name, at_name, after_name) =
          from_bind (required "name" section) _ (refuse "ip-exists") after_ip in
        let (taken, differs) =
          decided (is_text ip (some current_ip))
            (is_text hostname (some name) && is_text ip (some current_ip) && is_member new_mac macs)
            combo hosts _ (names_free-address hosts section macs name) after_name in
        (taken, ap (is_text ip) (required-lookup "ip" section current_ip at_ip) ∙ differs)

    plan_for-taken :
        (combo : Combo) (hosts : List UciSection) (found : Option Found)
        → plan_for numerals network_data dhcp_data ip new_mac hostname combo hosts found
          ≡ ok (refuse "ip-exists")
        → (section : UciSection) × (macs : List String) × (found ≡ some (section, macs))
          × (ip_is_unique ip hosts ≡ false)
          × (is_text ip (lookup "ip" section.options) ≡ false)
    plan_for-taken combo hosts none h = absurd (ground (arith, h, not_found))
    plan_for-taken combo hosts (some (section, macs)) h =
        let (taken, differs) = update_found-taken combo hosts section macs h in
        (section, macs, refl, taken, differs)

  -- A change of a host is refused with "ip-exists" only when the address is not the one that the
  -- section of the host has, and a host section with an address and a MAC address has it.
  pub update_plan-ip_exists :
      (ip old_mac mac hostname : String)
      → update_plan numerals network_data dhcp_data ip old_mac mac hostname
        ≡ ok (refuse "ip-exists")
      → (hosts : List UciSection) × (section : UciSection) × (macs : List String)
        × (get_sections_by_type dhcp_data "dhcp" "host" ≡ ok hosts)
        × (find_host (upper old_mac) hosts ≡ ok (some (section, macs)))
        × (is_text ip (lookup "ip" section.options) ≡ false)
        × (ip_is_unique ip hosts ≡ false)
  unfolding update_plan
  update_plan-ip_exists ip old_mac mac hostname h =
      let (combo, at_combo, after_combo) =
        from_bind (get_network_combo network_data) _ (refuse "ip-exists") h in
      let (hosts, at_hosts, after_hosts) =
        from_bind (get_sections_by_type dhcp_data "dhcp" "host") _ (refuse "ip-exists")
          after_combo in
      let (found, at_found, after_found) =
        from_bind (find_host (upper old_mac) hosts) _ (refuse "ip-exists") after_hosts in
      let (section, macs, is_found, taken, differs) =
        plan_for-taken ip (upper mac) hostname combo (record_macs (upper old_mac) hosts) found
          after_found in
      (
        hosts,
        section,
        macs,
        at_hosts,
        at_found ∙ ap ok is_found,
        differs,
        sym (ip_is_unique-record_macs ip (upper old_mac) hosts) ∙ taken,
      )
