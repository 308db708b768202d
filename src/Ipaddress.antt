-- ===== src/Ipaddress.antt =====
-- The IPv4 part of Python's ipaddress, as the modules use it, and the functions of
-- foris_controller/utils.py on top of it: check_dynamic_ranges and ip_network_address.
-- An address is its 32-bit number; the schemas let IPv4 texts through only.
pub mod Ranges
pub mod Printing
pub mod Bounds
mod Tests
use Prim.Native.Char.{code}
use Prim.Native.String.{String}
use foris_controller.Prelude.{
  ℕ, zero, suc, ◌+◌, ◌-◌, ◌*◌, ◌%◌, ◌^◌, ◌==◌, Bool, true, false, not, ◌&&◌, ◌||◌, ltb, leb, Option,
  none, some, List, [], ◌∷◌, length, if◌then◌else◌, same, split_on,
}
use foris_controller.Exceptions.{Raised, value_error, Result, ok, err, ◌>>=◌}

-- The value of a text of ASCII digits, read from the left onto a number.
digits : ℕ → String → Option ℕ
digits n String.[] = some n
digits n (String.◌∷◌ c s) =
    let rest = digits (n * 10 + (code c - b'0')) s in
    if leb b'0' (code c) && leb (code c) b'9' then rest else none

-- A decimal number; no text is the empty one.
decimal : String → Option ℕ
unfolding digits
decimal String.[] = none
decimal (String.◌∷◌ c s) = digits 0 (String.◌∷◌ c s)

-- At most three digits, no leading zero, below 256.
octet : String → Result ℕ
unfolding decimal
octet s = elim (decimal s) [
  | none ↦ err (value_error s)
  | some n ↦ if short s && leb n 255 then ok n else err (value_error s)
]
  where
    short : String → Bool
    short (String.◌∷◌ c (String.◌∷◌ d (String.◌∷◌ e String.[]))) = not (same (code c) b'0')
    short (String.◌∷◌ c (String.◌∷◌ d String.[])) = not (same (code c) b'0')
    short (String.◌∷◌ c String.[]) = true
    short _ = false

-- The number of four octets; no other count of parts is an address.
address_of : String → List String → Result ℕ
unfolding octet
address_of s (a ∷ b ∷ c ∷ d ∷ []) = do
  x ← octet a
  y ← octet b
  z ← octet c
  w ← octet d
  ok (((x * 256 + y) * 256 + z) * 256 + w)
address_of s _ = err (value_error s)

-- ipaddress.ip_address
unfoldable pub ip_address : String → Result ℕ
unfolding address_of split_on
ip_address s = address_of s (split_on b'.' s)

-- The host bits k ≤ 32 for which f k is the mask that was read.
host_bits : (ℕ → ℕ) → ℕ → ℕ → Option ℕ
host_bits f zero m = if same (f 0) m then some 0 else none
host_bits f (suc k) m =
    let rest = host_bits f k m in if same (f (suc k)) m then some (suc k) else rest

-- The host bits of the netmask or host mask of this number.
mask_of : String → ℕ → Result ℕ
unfolding host_bits
mask_of s m = elim (host_bits (λ k. 2 ^ 32 - 2 ^ k) 32 m) [
  | some k ↦ ok k
  | none ↦ elim (host_bits (λ k. 2 ^ k - 1) 32 m) [ some k ↦ ok k | none ↦ err (value_error s) ]
]

mask_from : String → Option ℕ → Result ℕ
unfolding mask_of
mask_from s (some p) = if leb p 32 then ok (32 - p) else err (value_error s)
mask_from s none = ip_address s >>= mask_of s

-- A prefix length, a netmask or a host mask; the result is the number of host bits.
unfoldable pub read_mask : String → Result ℕ
unfolding decimal mask_from ip_address
read_mask s = mask_from s (decimal s)

-- An ip_network by its network_address and the number of its host bits.
pub record Network : Type 0 where
  pub network_address : ℕ
  pub bits : ℕ

-- ipaddress.ip_network(f"{ip}/{netmask}", strict=False), for an address that is a number already
unfoldable pub ip_network : ℕ → String → Result Network
ip_network ip netmask =
    read_mask netmask >>= λ k. ok (record { network_address = ip - ip % 2 ^ k; bits = k })

-- `a in network`
unfoldable pub contains : Network → ℕ → Bool
contains network a = same (a - a % 2 ^ network.bits) network.network_address

-- `a + n`: none is the AddressValueError of an address beyond 32 bits.
unfoldable pub plus : ℕ → ℕ → Option ℕ
plus a n = if ltb (a + n) (2 ^ 32) then some (a + n) else none

-- check_dynamic_ranges of utils.py, from the statement `try:` on
unfoldable pub dynamic_range : ℕ → Network → ℕ → ℕ → Bool
dynamic_range ip network start limit = elim (plus network.network_address start) [
  | none ↦ false
  | some start_ip ↦ elim (plus start_ip limit) [
    | none ↦ false
    | some last_ip ↦
        if not (contains network start_ip) || not (contains network last_ip)
        then false
        else if leb start_ip ip && leb ip last_ip
        then false
        else true
  ]
]

unfoldable pub check_dynamic_ranges : String → String → ℕ → ℕ → Result Bool
check_dynamic_ranges router_ip netmask start limit = do
  ip ← ip_address router_ip
  network ← ip_network ip netmask
  ok (dynamic_range ip network start limit)

unfoldable pub ip_network_address : ℕ → String → Result ℕ
ip_network_address ip netmask = do network ← ip_network ip netmask; ok network.network_address
