-- ===== src/Ipaddress/Bounds.antt =====
-- The ranges of what ip_address, a netmask and ip_interface read.
use foris_controller.Prelude.{
  ℕ, zero, suc, ◌+◌, ◌-◌, ◌*◌, ◌^◌, ◌<◌, ◌≡◌, subst, String, List, [], ◌∷◌, Option, none, some,
  Option-cases, inl, inr, arith, split_on,
}
use foris_controller.Exceptions.{ok, from_bind}
use foris_controller.Ipaddress.{
  octet, decimal, address_of, ip_address, host_bits, mask_of, mask_from, read_mask,
}
use foris_controller.Ipaddress.Printing.{Interface, interface_of, ip_interface}

octet-bound : (s : String) (n : ℕ) → octet s ≡ ok n → n < 256
octet-bound s n h = elim (Option-cases (decimal s)) [
  | inl e ↦ absurd (unfold octet in ground (arith, e))
  | inr (m, e) ↦ unfold octet in ground (arith, e)
]

four :
    {a b c d : ℕ}
    → a < 256
    → b < 256
    → c < 256
    → d < 256
    → ((a * 256 + b) * 256 + c) * 256 + d < 2 ^ 32
four p q r s = omega arith

address_of-bound : (s : String) (l : List String) (a : ℕ) → address_of s l ≡ ok a → a < 2 ^ 32
unfolding address_of
address_of-bound s (p ∷ q ∷ r ∷ t ∷ []) a h =
    let (x, ex, hx) = from_bind (octet p) _ a h in
    let (y, ey, hy) = from_bind (octet q) _ a hx in
    let (z, ez, hz) = from_bind (octet r) _ a hy in
    let (w, ew, hw) = from_bind (octet t) _ a hz in
    let total : ((x * 256 + y) * 256 + z) * 256 + w ≡ a = ground (arith, hw) in
    subst (λ n. n < 2 ^ 32) total
      (four (octet-bound p x ex) (octet-bound q y ey) (octet-bound r z ez) (octet-bound t w ew))
address_of-bound s [] a h = absurd cc
address_of-bound s (p ∷ []) a h = absurd cc
address_of-bound s (p ∷ q ∷ []) a h = absurd cc
address_of-bound s (p ∷ q ∷ r ∷ []) a h = absurd cc
address_of-bound s (p ∷ q ∷ r ∷ t ∷ u ∷ l) a h = absurd cc

pub ip_address-bound : (s : String) (a : ℕ) → ip_address s ≡ ok a → a < 2 ^ 32
ip_address-bound s a h = address_of-bound s (split_on b'.' s) a (unfold ip_address in h)

host_bits-bound : (f : ℕ → ℕ) (n m k : ℕ) → host_bits f n m ≡ some k → k < suc n
unfolding host_bits
host_bits-bound f zero m k h = ground arith
host_bits-bound f (suc n) m k h = ground (arith, host_bits-bound f n m k)

mask_of-bound : (s : String) (m k : ℕ) → mask_of s m ≡ ok k → k < 33
mask_of-bound s m k h = elim (Option-cases (host_bits (λ k. 2 ^ 32 - 2 ^ k) 32 m)) [
  | inr (j, e) ↦ unfold mask_of in ground (arith, e, host_bits-bound (λ k. 2 ^ 32 - 2 ^ k) 32 m j e)
  | inl e ↦ elim (Option-cases (host_bits (λ k. 2 ^ k - 1) 32 m)) [
    | inr (j, f) ↦ unfold mask_of in ground (arith, e, f, host_bits-bound (λ k. 2 ^ k - 1) 32 m j f)
    | inl f ↦ absurd (unfold mask_of in ground (arith, e, f))
  ]
]

mask_from-bound : (s : String) (o : Option ℕ) (k : ℕ) → mask_from s o ≡ ok k → k < 33
unfolding mask_from
mask_from-bound s (some p) k h = ground (arith, h)
mask_from-bound s none k h =
    let (m, em, hm) = from_bind (ip_address s) (mask_of s) k h in mask_of-bound s m k hm

pub read_mask-bound : (s : String) (k : ℕ) → read_mask s ≡ ok k → k < 33
read_mask-bound s k h = mask_from-bound s (decimal s) k (unfold read_mask in h)

-- An interface that is read has a 32-bit address and at most 32 host bits.
pub record IsInterface (i : Interface) : Type 0 where
  pub is_address : i.ip < 2 ^ 32
  pub is_length : i.bits < 33

interface_of-IsInterface :
    (s : String) (l : List String) (i : Interface) → interface_of s l ≡ ok i → IsInterface i
unfolding interface_of
interface_of-IsInterface s [] i h = absurd cc
interface_of-IsInterface s (a ∷ []) i h =
    let (x, ex, hx) = from_bind (ip_address a) _ i h in
    let bound = ip_address-bound a x ex in
    record { is_address = ground (arith, hx); is_length = ground (arith, hx) }
interface_of-IsInterface s (a ∷ mask ∷ []) i h =
    let (x, ex, hx) = from_bind (ip_address a) _ i h in
    let (k, ek, hk) = from_bind (read_mask mask) _ i hx in
    let address = ip_address-bound a x ex in
    let length = read_mask-bound mask k ek in
    record { is_address = ground (arith, hk); is_length = ground (arith, hk) }
interface_of-IsInterface s (a ∷ b ∷ c ∷ l) i h = absurd cc

pub ip_interface-IsInterface : (s : String) (i : Interface) → ip_interface s ≡ ok i → IsInterface i
ip_interface-IsInterface s i h =
    interface_of-IsInterface s (split_on b'/' s) i (unfold ip_interface in h)
