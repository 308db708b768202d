-- ===== src/Ipaddress/Printing.antt =====
-- The texts of IPv4 addresses and of interfaces, as str() makes them in ipaddress, and ip_interface,
-- which reads the latter.
use Prim.Native.String.{◌++◌, char_at}
use package.text.Mathlib.TextLemmas.{nil-append, cons-append}
use foris_controller.Prelude.{
  ℕ, ◌-◌, ◌/◌, ◌%◌, ◌^◌, ◌<◌, ◌≡◌, refl, ap, ◌∙◌, String, Bool, true, false, ◌&&◌, ltb, List, [],
  ◌∷◌, if◌then◌else◌, same, split_on, passes, passes_at, without, split_on-append, split_on-whole,
  arith,
}
use foris_controller.Exceptions.{value_error, Result, ok, err, ◌>>=◌}
use foris_controller.Ipaddress.{octet, ip_address, read_mask}

digit : ℕ → String
digit n = String.◌∷◌ (char_at "0123456789" n) String.[]

-- str of a number below 256
unfoldable pub show_octet : ℕ → String
unfolding digit
show_octet n =
    if ltb n 10
    then digit n
    else if ltb n 100
    then digit (n / 10) ++ digit (n % 10)
    else digit (n / 100) ++ (digit (n / 10 % 10) ++ digit (n % 10))

-- str(ip_address)
unfoldable pub show_address : ℕ → String
show_address a =
    show_octet (a / 2 ^ 24)
    ++ ("."
        ++ (show_octet (a / 2 ^ 16 % 256)
            ++ ("." ++ (show_octet (a / 2 ^ 8 % 256) ++ ("." ++ show_octet (a % 256))))))

-- An ip_interface by its address and the number of the host bits of its network.
pub record Interface : Type 0 where
  pub ip : ℕ
  pub bits : ℕ

unfoldable pub interface_of : String → List String → Result Interface
interface_of s (a ∷ []) = do x ← ip_address a; ok (record { ip = x; bits = 0 })
interface_of s (a ∷ mask ∷ []) = do
  x ← ip_address a
  k ← read_mask mask
  ok (record { ip = x; bits = k })
interface_of s _ = err (value_error s)

-- ipaddress.ip_interface
unfoldable pub ip_interface : String → Result Interface
unfolding interface_of
ip_interface s = interface_of s (split_on b'/' s)

-- str(interface): the address and the length of the prefix
unfoldable pub show_interface : Interface → String
show_interface i = show_address i.ip ++ ("/" ++ show_octet (32 - i.bits))

-- str(interface.netmask)
unfoldable pub show_netmask : Interface → String
show_netmask i = show_address (2 ^ 32 - 2 ^ i.bits)

-- Two texts around a slash.
pub split_on-slash :
    (a b : String)
    → without b'/' a ≡ true
    → without b'/' b ≡ true
    → split_on b'/' (a ++ ("/" ++ b)) ≡ a ∷ b ∷ []
split_on-slash a b ha hb =
    ap (λ s. split_on b'/' (a ++ s))
      (cons-append "/" "" b ∙ ap (λ r. String.◌∷◌ "/" r) (nil-append b))
    ∙ split_on-append b'/' "/" a b refl ha
    ∙ ap (λ l. a ∷ l) (split_on-whole b'/' b hb)

without-append :
    (n : ℕ) (a b : String) → without n a ≡ true → without n b ≡ true → without n (a ++ b) ≡ true
without-append n String.[] b h k = ap (without n) (nil-append b) ∙ k
without-append n (String.◌∷◌ c a) b h k =
    ap (without n) (cons-append c a b)
    ∙ ground (arith, h, without-append n a b (ground (arith, h)) k)

reads : ℕ → Bool
unfolding octet show_octet
reads n =
    elim (octet (show_octet n)) [ ok m ↦ same m n | err _ ↦ false ]
    && (without b'.' (show_octet n) && without b'/' (show_octet n))

octet_table : passes reads 256 ≡ true
unfolding passes reads octet show_octet
octet_table = refl

octet-result : (r : Result ℕ) (n : ℕ) → elim r [ ok m ↦ same m n | err _ ↦ false ] ≡ true → r ≡ ok n
octet-result (ok m) n h = ap ok (ground (arith, h))
octet-result (err e) n h = absurd cc

module _ (n : ℕ) (small : n < 256) where
  reads-octet : reads n ≡ true
  reads-octet = passes_at reads 256 n octet_table small

  octet-show_octet : octet (show_octet n) ≡ ok n
  octet-show_octet =
      octet-result (octet (show_octet n)) n (unfold reads in ground (arith, reads-octet))

  show_octet-dot : without b'.' (show_octet n) ≡ true
  show_octet-dot = let h = reads-octet in unfold reads in ground (arith, h)

  show_octet-slash : without b'/' (show_octet n) ≡ true
  show_octet-slash = let h = reads-octet in unfold reads in ground (arith, h)

-- Four octets between dots.
dotted : String → String → String → String → String
dotted x y z w = x ++ ("." ++ (y ++ ("." ++ (z ++ ("." ++ w)))))

dot-append : (s : String) → "." ++ s ≡ String.◌∷◌ "." s
dot-append s = cons-append "." "" s ∙ ap (λ r. String.◌∷◌ "." r) (nil-append s)

split_on-dotted :
    (x y z w : String)
    → without b'.' x ≡ true
    → without b'.' y ≡ true
    → without b'.' z ≡ true
    → without b'.' w ≡ true
    → split_on b'.' (dotted x y z w) ≡ x ∷ y ∷ z ∷ w ∷ []
unfolding dotted
split_on-dotted x y z w hx hy hz hw =
    rw
      (
        dot-append w,
        dot-append (z ++ String.◌∷◌ "." w),
        dot-append (y ++ String.◌∷◌ "." (z ++ String.◌∷◌ "." w)),
        split_on-append b'.' "." x (y ++ String.◌∷◌ "." (z ++ String.◌∷◌ "." w)) refl hx,
        split_on-append b'.' "." y (z ++ String.◌∷◌ "." w) refl hy,
        split_on-append b'.' "." z w refl hz,
        split_on-whole b'.' w hw,
      )
      refl

without-dot :
    (x s : String)
    → without b'/' x ≡ true
    → without b'/' s ≡ true
    → without b'/' (x ++ ("." ++ s)) ≡ true
without-dot x s hx hs = without-append b'/' x ("." ++ s) hx (without-append b'/' "." s refl hs)

without-dotted :
    (x y z w : String)
    → without b'/' x ≡ true
    → without b'/' y ≡ true
    → without b'/' z ≡ true
    → without b'/' w ≡ true
    → without b'/' (dotted x y z w) ≡ true
unfolding dotted
without-dotted x y z w hx hy hz hw =
    without-dot x (y ++ ("." ++ (z ++ ("." ++ w)))) hx
      (without-dot y (z ++ ("." ++ w)) hy (without-dot z w hz hw))

module _ (a : ℕ) (is_address : a < 2 ^ 32) where
  first_octet : a / 2 ^ 24 < 256
  first_octet = omega arith

  second_octet : a / 2 ^ 16 % 256 < 256
  second_octet = omega arith

  third_octet : a / 2 ^ 8 % 256 < 256
  third_octet = omega arith

  last_octet : a % 256 < 256
  last_octet = omega arith

  -- What ip_address reads of the text of an address is the address.
  pub ip_address-show_address : ip_address (show_address a) ≡ ok a
  unfolding ip_address show_address dotted
  ip_address-show_address =
      rw
        (
          split_on-dotted (show_octet (a / 2 ^ 24)) (show_octet (a / 2 ^ 16 % 256))
              (show_octet (a / 2 ^ 8 % 256)) (show_octet (a % 256)) (show_octet-dot _ first_octet)
              (show_octet-dot _ second_octet) (show_octet-dot _ third_octet)
              (show_octet-dot _ last_octet),
          octet-show_octet _ first_octet,
          octet-show_octet _ second_octet,
          octet-show_octet _ third_octet,
          octet-show_octet _ last_octet,
        )
        (ap ok (omega arith))

  pub show_address-slash : without b'/' (show_address a) ≡ true
  unfolding show_address dotted
  show_address-slash =
      without-dotted (show_octet (a / 2 ^ 24)) (show_octet (a / 2 ^ 16 % 256))
        (show_octet (a / 2 ^ 8 % 256)) (show_octet (a % 256)) (show_octet-slash _ first_octet)
        (show_octet-slash _ second_octet) (show_octet-slash _ third_octet)
        (show_octet-slash _ last_octet)

-- The 33 lengths of a prefix and their netmasks.
reads_mask : ℕ → String → Bool
unfolding read_mask
reads_mask k s = elim (read_mask s) [ ok m ↦ same m k | err _ ↦ false ]

prefix_table : passes (λ k. reads_mask k (show_octet (32 - k))) 33 ≡ true
unfolding passes reads_mask read_mask show_octet
prefix_table = refl

netmask_table : passes (λ k. reads_mask k (show_address (2 ^ 32 - 2 ^ k))) 33 ≡ true
unfolding passes reads_mask read_mask show_octet show_address
netmask_table = refl

reads_mask-read_mask : (k : ℕ) (s : String) → reads_mask k s ≡ true → read_mask s ≡ ok k
reads_mask-read_mask k s h = octet-result (read_mask s) k (unfold reads_mask in h)

module _ (i : Interface) (is_address : i.ip < 2 ^ 32) (is_length : i.bits < 33) where
  pub split_on-show_interface :
      split_on b'/' (show_interface i) ≡ show_address i.ip ∷ show_octet (32 - i.bits) ∷ []
  unfolding show_interface
  split_on-show_interface =
      split_on-slash (show_address i.ip) (show_octet (32 - i.bits))
        (show_address-slash i.ip is_address) (show_octet-slash (32 - i.bits) (omega arith))

  -- What is read of the text of an interface with a 32-bit address and at most 32 host bits is the
  -- interface.
  pub ip_interface-show_interface : ip_interface (show_interface i) ≡ ok i
  unfolding ip_interface
  ip_interface-show_interface =
      rw
        (
          split_on-show_interface,
          ip_address-show_address i.ip is_address,
          reads_mask-read_mask i.bits (show_octet (32 - i.bits)) (
              passes_at (λ k. reads_mask k (show_octet (32 - k))) 33 i.bits prefix_table is_length),
        )
        refl

  -- The netmask of an interface, as a text, tells the length of its prefix.
  pub read_mask-show_netmask : read_mask (show_netmask i) ≡ ok i.bits
  unfolding show_netmask
  read_mask-show_netmask = reads_mask-read_mask i.bits (show_address (2 ^ 32 - 2 ^ i.bits)) (
      passes_at (λ k. reads_mask k (show_address (2 ^ 32 - 2 ^ k))) 33 i.bits netmask_table
        is_length)
