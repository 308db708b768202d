-- ===== src/Ipaddress/Ranges.antt =====
-- What check_dynamic_ranges decides.
use native.Mathlib.Nat.{le-div_iff_mul-le, div-mul-le_self, mul-div_cancel_left}
use native.Mathlib.Omega.{div_any}
use foris_controller.Prelude.{
  ℕ, suc, zero, ◌+◌, ◌-◌, ◌*◌, ◌%◌, ◌/◌, ◌^◌, ◌≤◌, ◌<◌, ◌≡◌, ◌≢◌, sym, ap, subst, ◌∙◌, String, true,
  false, ◌&&◌, leb, arith, Bool-cases, inl, inr,
}
use foris_controller.Exceptions.{ok}
use foris_controller.Ipaddress.{
  ip_address, read_mask, ip_network, contains, plus, dynamic_range, check_dynamic_ranges, Network,
}

pow_pos : (k : ℕ) → 0 < 2 ^ k
pow_pos zero = omega arith
pow_pos (suc k) = omega (arith, pow_pos k)

div_mono : (n a b : ℕ) → 0 < n → a ≤ b → a / n ≤ b / n
div_mono n a b p h = (le-div_iff_mul-le p).1 (omega (arith, div-mul-le_self a n))

-- The network of an address with k host bits.
abbrev pub around : ℕ → ℕ → Network
around ip k = record { network_address = ip - ip % 2 ^ k; bits = k }

module _ (ip k a : ℕ) where
  contains-div : contains (around ip k) a ≡ true → a / 2 ^ k ≡ ip / 2 ^ k
  unfolding contains
  contains-div h =
      let start : 2 ^ k * (a / 2 ^ k) ≡ 2 ^ k * (ip / 2 ^ k) =
        ground (arith, div_any a (2 ^ k), div_any ip (2 ^ k)) in
      sym (mul-div_cancel_left (a / 2 ^ k) (pow_pos k))
      ∙ ap (λ m. m / 2 ^ k) start
      ∙ mul-div_cancel_left (ip / 2 ^ k) (pow_pos k)

  div-contains : a / 2 ^ k ≡ ip / 2 ^ k → contains (around ip k) a ≡ true
  unfolding contains
  div-contains h =
      let start : 2 ^ k * (a / 2 ^ k) ≡ 2 ^ k * (ip / 2 ^ k) = ap (λ m. 2 ^ k * m) h in
      ground (arith, div_any a (2 ^ k), div_any ip (2 ^ k))

-- An address of the pool is one of the router's network, and not the router's.
pub record IsUsable (ip k a : ℕ) : Type 0 where
  pub is_address : a < 2 ^ 32
  pub in_network : a / 2 ^ k ≡ ip / 2 ^ k
  pub not_router : a ≢ ip

module _ (ip : ℕ) (network : Network) (start limit : ℕ) where
  -- The tests that dynamic_range makes on the two ends of the pool.
  record Ends : Type 0 where
    is_last : network.network_address + start + limit < 2 ^ 32
    first_in : contains network (network.network_address + start) ≡ true
    last_in : contains network (network.network_address + start + limit) ≡ true
    router_out :
        (leb (network.network_address + start) ip
          && leb ip (network.network_address + start + limit))
        ≡ false

  dynamic_range-Ends : dynamic_range ip network start limit ≡ true → Ends
  unfolding dynamic_range plus
  dynamic_range-Ends h = record {
    is_last = ground arith;
    first_in = ground arith;
    last_in = ground arith;
    router_out = ground arith;
  }

  Ends-dynamic_range : Ends → dynamic_range ip network start limit ≡ true
  unfolding dynamic_range plus
  Ends-dynamic_range e = ground (arith, e.is_last, e.first_in, e.last_in, e.router_out)

Ends-IsUsable :
    (ip k start limit i : ℕ)
    → Ends ip (around ip k) start limit
    → i ≤ limit
    → IsUsable ip k (ip - ip % 2 ^ k + start + i)
Ends-IsUsable ip k start limit i e l =
    let first = (around ip k).network_address + start in
    let up = div_mono (2 ^ k) first (first + i) (pow_pos k) (omega arith) in
    let down = div_mono (2 ^ k) (first + i) (first + limit) (pow_pos k) (omega arith) in
    record {
      is_address = omega (arith, e.is_last);
      in_network = omega (
        arith,
        up,
        down,
        contains-div ip k first e.first_in,
        contains-div ip k (first + limit) e.last_in,
      );
      not_router = λ q. ground (arith, e.router_out);
    }

IsUsable-Ends :
    (ip k start limit : ℕ)
    → ((i : ℕ) → i ≤ limit → IsUsable ip k (ip - ip % 2 ^ k + start + i))
    → Ends ip (around ip k) start limit
IsUsable-Ends ip k start limit usable =
    let first = (around ip k).network_address + start in
    let same : first + 0 ≡ first = omega arith in
    let low = subst (IsUsable ip k) same (usable 0 (omega arith)) in
    let high = usable limit (omega arith) in
    record {
      is_last = high.is_address;
      first_in = div-contains ip k first low.in_network;
      last_in = div-contains ip k (first + limit) high.in_network;
      router_out = elim (Bool-cases (leb first ip && leb ip (first + limit))) [
        | inl within ↦ absurd ((usable (ip - first) (ground arith)).not_router (ground arith))
        | inr out ↦ out
      ];
    }

module _ (router_ip netmask : String) (ip k : ℕ) (start limit : ℕ)
    (router : ip_address router_ip ≡ ok ip) (mask : read_mask netmask ≡ ok k) where
  -- If check_dynamic_ranges accepts, then every address from network_address + start up to
  -- network_address + start + limit is a 32-bit address of the router's network that is not the
  -- router's own.
  pub check_dynamic_ranges-IsUsable :
      (i : ℕ)
      → check_dynamic_ranges router_ip netmask start limit ≡ ok true
      → i ≤ limit
      → IsUsable ip k (ip - ip % 2 ^ k + start + i)
  unfolding check_dynamic_ranges ip_network
  check_dynamic_ranges-IsUsable i h l =
      Ends-IsUsable ip k start limit i
        (dynamic_range-Ends ip (around ip k) start limit (cc (rw (router, mask) at h))) l

  -- If all these addresses are 32-bit addresses of the router's network other than the router's,
  -- check_dynamic_ranges accepts.
  pub check_dynamic_ranges_complete :
      ((i : ℕ) → i ≤ limit → IsUsable ip k (ip - ip % 2 ^ k + start + i))
      → check_dynamic_ranges router_ip netmask start limit ≡ ok true
  unfolding check_dynamic_ranges ip_network
  check_dynamic_ranges_complete usable =
      rw (router, mask)
        (ap ok
          (Ends-dynamic_range ip (around ip k) start limit (IsUsable-Ends ip k start limit usable)))
