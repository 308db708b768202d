-- ===== src/Backends/Wan/Shown.antt =====
-- What is read of a configuration that has the device and the options of settings of the WAN.
use Prim.Native.Char.{Char, code}
use package.text.Mathlib.TextLemmas.{cons-append, nil-append}
use foris_controller.Prelude.{
  ℕ, String, ◌≡◌, refl, ap, ◌∙◌, true, false, Option, none, some, List, [], ◌∷◌, ◌++◌, All,
  Bool-cases, inl, inr, same, onto_first, split_on, without, split_on-append, split_on-whole,
}
use foris_controller.Exceptions.{ok}
use foris_controller.Uci.{text, items, UciData, get_option_named}
use foris_controller.Uci.Laws.{get_option_named-default}
use foris_controller.Backends.{Call, Numerals, option}
use foris_controller.Backends.Calls.{Shows, value_of, shown}
use foris_controller.Backends.Lan.Reading.{first_two, reversed}
use foris_controller.Backends.Lan.Update.{dns_of}
use foris_controller.Backends.Wan.{base_device, vlan_device}
use foris_controller.Backends.Wan.Reading.{read_static, get_wan, vlan_of}
use foris_controller.Wan.{NewVlan, vlan_off, vlan_on}

abbrev first_part : List String → String
first_part parts = elim parts [ [] ↦ "" | base ∷ rest ↦ base ]

onto_first-without :
    (n : ℕ) (c : Char) (parts : List String)
    → same (code c) n ≡ false
    → without n (first_part parts) ≡ true
    → without n (first_part (onto_first c parts)) ≡ true
onto_first-without n c [] f h = rw f refl
onto_first-without n c (part ∷ parts) f h = rw f h

-- The part in front of the first separator has none.
first_part-without : (n : ℕ) (s : String) → without n (first_part (split_on n s)) ≡ true
unfolding split_on
first_part-without n String.[] = refl
first_part-without n (String.◌∷◌ c s) = elim (Bool-cases (same (code c) n)) [
  | inl t ↦ rw t refl
  | inr f ↦ rw f (onto_first-without n c (split_on n s) f (first_part-without n s))
]

-- The device that is stored for a VLAN, or for none, is read as that VLAN, or as none, whatever VLAN
-- the device had before. Numbers are written without a dot.
pub vlan_of-vlan_device :
    (numerals : Numerals) (wan_device : String) (new : NewVlan)
    → ((n : ℕ) → without b'.' (numerals.show n) ≡ true)
    → vlan_of numerals (vlan_device numerals wan_device new) ≡ ok new
unfolding vlan_of vlan_device
vlan_of-vlan_device numerals wan_device vlan_off plain =
    rw (split_on-whole b'.' (base_device wan_device) (first_part-without b'.' wan_device)) refl
vlan_of-vlan_device numerals wan_device (vlan_on n) plain =
    rw
      (
        cons-append "." "" (numerals.show n)
            ∙ ap (λ s. String.◌∷◌ "." s) (nil-append (numerals.show n)),
        split_on-append b'.' "." (base_device wan_device) (numerals.show n) refl
            (first_part-without b'.' wan_device),
        split_on-whole b'.' (numerals.show n) (plain n),
        numerals.int-show n,
      )
      refl

-- The list that is stored, read backwards.
dns_order :
    (dns1 dns2 : Option String)
    → first_two (reversed (dns_of dns2 ++ dns_of dns1)) ≡ dns_of dns1 ++ dns_of dns2
dns_order none none = refl
dns_order none (some b) = refl
dns_order (some a) none = refl
dns_order (some a) (some b) = refl

abbrev pub static_calls : (ip netmask gateway : String) → List Call
static_calls ip netmask gateway =
    option "network" "wan" "proto" "static"
    ∷ option "network" "wan" "ipaddr" ip
    ∷ option "network" "wan" "netmask" netmask
    ∷ option "network" "wan" "gateway" gateway
    ∷ []

-- When the configuration has the options of a static address of the WAN and the list of resolvers as it
-- was stored, the address and the resolvers are read as they were requested, the resolver of the higher
-- priority first again.
pub get_wan-static :
    (read_of : String → UciData) (ip netmask gateway : String) (dns1 dns2 : Option String)
    → All (Shows read_of) (static_calls ip netmask gateway)
    → get_option_named (read_of "network") "network" "wan" "dns" none
      ≡ ok (items (dns_of dns2 ++ dns_of dns1))
    → get_wan (read_of "network")
      ≡ ok (read_static (text ip) (text netmask) (text gateway) (dns_of dns1 ++ dns_of dns2))
unfolding value_of
get_wan-static read_of ip netmask gateway dns1 dns2 h l =
    let calls = static_calls ip netmask gateway in
    unfold get_wan in
    rw
      (
        shown read_of calls "network" "wan" "proto" "static" h refl,
        shown read_of calls "network" "wan" "ipaddr" ip h refl,
        shown read_of calls "network" "wan" "netmask" netmask h refl,
        shown read_of calls "network" "wan" "gateway" gateway h refl,
        get_option_named-default (read_of "network") "network" "wan" "dns" (items []),
        l,
      )
      (ap (λ dns. ok (read_static (text ip) (text netmask) (text gateway) dns))
        (dns_order dns1 dns2))
