-- ===== src/RwLock/Family.antt =====
-- Thread-indexed families: an update at one thread, and how many of the first n threads pass a test.
use mathlib.Core.Logic.{ite, if_pos, if_neg}
use native.Mathlib.Decide.{dec_lt, ℕ_discrete}
use foris_controller.Prelude.{
  ℕ, zero, suc, ◌+◌, ◌≤◌, ◌<◌, ◌≡◌, refl, ◌≢◌, sym, subst, Bool, true, false, if◌then◌else◌, arith,
}

abbrev pub update {ℓ} : {A : Type ℓ} (threads : ℕ → A) (i : ℕ) (a : A) → ℕ → A
update threads i a j = ite (ℕ_discrete i j) a (threads j)

module _ {ℓ} {A : Type ℓ} where
  pub update_self : (f : ℕ → A) (i : ℕ) (a : A) → update f i a i ≡ a
  update_self f i a = if_pos _ refl a (f i)

  pub update_ne : (f : ℕ → A) (i j : ℕ) (a : A) → j ≢ i → update f i a j ≡ f j
  update_ne f i j a ne = if_neg _ (λ e. ne (sym e)) a (f j)

-- To prove something of each thread after an update, prove it of the updated one and of the others.
pub update_each {ℓ κ} :
    {A : Type ℓ} (P : ℕ → A → Type κ) (f : ℕ → A) (i : ℕ) (a : A)
    → P i a
    → ((k : ℕ) → k ≢ i → P k (f k))
    → (k : ℕ) → P k (update f i a k)
update_each P f i a here there k = elim (ℕ_discrete i k) [
  | yes same ↦ rw (if_pos (ℕ_discrete i k) same a (f k)) (subst (λ j. P j a) same here)
  | no other ↦ rw (if_neg (ℕ_discrete i k) other a (f k)) (there k (λ e. other (sym e)))
]

abbrev pub one : Bool → ℕ
one b = if b then 1 else 0

module _ {ℓ} {A : Type ℓ} (p : A → Bool) where
  pub how_many : ℕ → (ℕ → A) → ℕ
  how_many zero pcs = 0
  how_many (suc n) pcs = how_many n pcs + one (p (pcs n))

  how_many-update_out :
      (n : ℕ) (pcs : ℕ → A) (i : ℕ) (pc : A) → n ≤ i → how_many n (update pcs i pc) ≡ how_many n pcs
  unfolding how_many
  how_many-update_out zero pcs i pc le = refl
  how_many-update_out (suc n) pcs i pc le = ground (arith, how_many-update_out n pcs i pc)

  pub how_many-update :
      (n : ℕ) (pcs : ℕ → A) (i : ℕ) (pc : A)
      → i < n
      → how_many n (update pcs i pc) + one (p (pcs i)) ≡ how_many n pcs + one (p pc)
  unfolding how_many
  how_many-update zero pcs i pc le = absurd (omega arith)
  how_many-update (suc n) pcs i pc le = elim (dec_lt i n) [
    | yes inside ↦ ground (arith, how_many-update n pcs i pc inside)
    | no last ↦ ground (arith, how_many-update_out n pcs i pc)
  ]

  pub how_many-update_same :
      (n : ℕ) (pcs : ℕ → A) (i : ℕ) (pc : A)
      → p (pcs i) ≡ p pc
      → how_many n (update pcs i pc) ≡ how_many n pcs
  unfolding how_many
  how_many-update_same zero pcs i pc le = refl
  how_many-update_same (suc n) pcs i pc le = ground (arith, how_many-update_same n pcs i pc)

  pub how_many_pos : (n : ℕ) (pcs : ℕ → A) (i : ℕ) → i < n → p (pcs i) ≡ true → 0 < how_many n pcs
  unfolding how_many
  how_many_pos zero pcs i le e = absurd (omega arith)
  how_many_pos (suc n) pcs i le e = elim (dec_lt i n) [
    | yes inside ↦ omega (arith, how_many_pos n pcs i inside e)
    | no last ↦ ground arith
  ]

  pub found : (n : ℕ) (pcs : ℕ → A) → 0 < how_many n pcs → (i : ℕ) × (i < n) × (p (pcs i) ≡ true)
  unfolding how_many
  found zero pcs le = absurd (omega arith)
  found (suc n) pcs le = elim (dec_lt 0 (how_many n pcs)) [
    | yes more ↦ let (i, inside, e) = found n pcs more in (i, omega arith, e)
    | no none_there ↦ (n, omega arith, ground arith)
  ]

  pub how_many-none : (n : ℕ) (pc : A) → p pc ≡ false → how_many n (λ _. pc) ≡ 0
  unfolding how_many
  how_many-none zero pc le = refl
  how_many-none (suc n) pc le = ground (arith, how_many-none n pc le)
