-- ===== src/Backends/Dns/Slashes.antt =====
-- str.strip("/") on a domain in foris_controller_backends/dns/__init__.py: slashes around a name.
use package.text.Mathlib.TextBridge.{of_list}
use package.text.Mathlib.TextLemmas.{nil-append, cons-append}
use Prim.Native.String.{◌++◌ as append}
use foris_controller.Prelude.{
  ℕ, zero, suc, String, ◌≡◌, refl, ap, ◌∙◌, false, [], ◌∷◌, ◌++◌, any, arith, if◌then◌else◌,
}
use foris_controller.Uci.Export.{Line, chars, is, without_last, lstrip, rstrip, strip}
use foris_controller.Uci.Export.Parser.Lines.{of_list-chars}
use foris_controller.Backends.Dns.{strip_slashes}

-- So many slashes.
unfoldable pub slashes : ℕ → Line
slashes zero = []
slashes (suc n) = "/" ∷ slashes n

-- The domain is the name with some slashes, or none, on either side of it.
abbrev pub IsSlashed : String → String → Type 0
IsSlashed domain name = (l : ℕ) × (r : ℕ) × (chars domain ≡ slashes l ++ (chars name ++ slashes r))

lstrip-slashes : (l : ℕ) (s : Line) → lstrip 47 (slashes l ++ s) ≡ lstrip 47 s
unfolding lstrip slashes
lstrip-slashes zero s = refl
lstrip-slashes (suc l) s = lstrip-slashes l s

lstrip-all : (r : ℕ) → lstrip 47 (slashes r) ≡ []
unfolding lstrip slashes
lstrip-all zero = refl
lstrip-all (suc r) = lstrip-all r

rstrip-slashes : (r : ℕ) (s : Line) → any (is 47) s ≡ false → rstrip 47 (s ++ slashes r) ≡ s
unfolding rstrip slashes
rstrip-slashes zero [] h = refl
rstrip-slashes (suc r) [] h = ap (without_last 47 "/") (rstrip-slashes r [] refl)
rstrip-slashes r (c ∷ []) h = ap (without_last 47 c) (rstrip-slashes r [] refl) ∙ ground (arith, h)
rstrip-slashes r (c ∷ d ∷ s) h =
    ap (without_last 47 c) (rstrip-slashes r (d ∷ s) (ground (arith, h)))

strip-slashes :
    (l r : ℕ) (s : Line) → any (is 47) s ≡ false → strip 47 (slashes l ++ (s ++ slashes r)) ≡ s
unfolding strip lstrip
strip-slashes l r [] h =
    ap (rstrip 47) (lstrip-slashes l (slashes r) ∙ lstrip-all r) ∙ unfold rstrip in refl
strip-slashes l r (c ∷ s) h =
    let plain : is 47 c ≡ false = ground (arith, h) in
    let rest = c ∷ (s ++ slashes r) in
    ap (rstrip 47) (lstrip-slashes l rest)
    ∙ ap (λ b. rstrip 47 (if b then lstrip 47 (s ++ slashes r) else rest)) plain
    ∙ rstrip-slashes r (c ∷ s) h

-- The slashes around a name that has none inside are stripped off.
pub strip_slashes-IsSlashed :
    (domain name : String)
    → any (is 47) (chars name) ≡ false
    → IsSlashed domain name
    → strip_slashes domain ≡ name
unfolding strip_slashes
strip_slashes-IsSlashed domain name plain (l, r, e) =
    ap (λ s. of_list (strip 47 s)) e
    ∙ ap of_list (strip-slashes l r (chars name) plain)
    ∙ of_list-chars name

-- "/name/"
abbrev pub local : String → String
local name = append "/" (append name "/")

chars-append : (s t : String) → chars (append s t) ≡ chars s ++ chars t
chars-append String.[] t = ap chars (nil-append t)
chars-append (String.◌∷◌ c s) t = ap chars (cons-append c s t) ∙ ap (λ r. c ∷ r) (chars-append s t)

local-IsSlashed : (name : String) → IsSlashed (local name) name
unfolding slashes
local-IsSlashed name =
    (1, 1, chars-append "/" (append name "/") ∙ ap (λ s. "/" ∷ s) (chars-append name "/"))

pub strip_slashes-local :
    (name : String) → any (is 47) (chars name) ≡ false → strip_slashes (local name) ≡ name
strip_slashes-local name plain =
    strip_slashes-IsSlashed (local name) name plain (local-IsSlashed name)
