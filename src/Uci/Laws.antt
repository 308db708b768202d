-- ===== src/Uci/Laws.antt =====
-- What the readers of uci data in foris_controller_backends/uci/__init__.py promise to the backends.
use foris_controller.Prelude.{
  ap, sym, ℕ, zero, suc, String, ◌==◌, ◌≤◌, ◌≡◌, refl, Bool, true, false, Option, none, some, List,
  [], ◌∷◌, length, filter, arith, inl, inr, ◌⊎◌, Option-cases, lookup,
}
use foris_controller.Exceptions.{Result-cases, Raised, uci_record_not_found, ok, err, ◌>>=◌}
use foris_controller.Uci.{
  OptionValue, UciSection, UciData, parse_bool, BoolOrText, flag, word, store_bool, get_section,
  section_exists, get_option_named, get_sections_by_type, get_option_anonymous, nth, get_config,
  first,
}

store_word :
    (value w : String)
    → store_bool (word value) ≡ ok w
    → (w ≡ value) × ((c : Bool) × (parse_bool w ≡ ok c))
store_word value w h = elim (Result-cases (parse_bool value)) [
  | inl (c, e) ↦
      let same : w ≡ value = unfold store_bool in ground (arith, e) in (same, (c, rw same e))
  | inr (x, e) ↦ absurd (unfold store_bool in ground (arith, e))
]

-- What store_bool makes of a flag, or of a word that it accepts unchanged, is read back by parse_bool,
-- a flag as itself.
pub parse_bool-store_bool :
    (v : BoolOrText) (s : String)
    → store_bool v ≡ ok s
    → (b : Bool) × (parse_bool s ≡ ok b) × ((v ≡ flag b) ⊎ (v ≡ word s))
unfolding store_bool
parse_bool-store_bool (flag true) s e =
    let same : "1" ≡ s = ground arith in (true, rw (sym same) refl, inl refl)
parse_bool-store_bool (flag false) s e =
    let same : "0" ≡ s = ground arith in (false, rw (sym same) refl, inl refl)
parse_bool-store_bool (word w) s e =
    let (same, (b, read)) = store_word w s e in (b, read, inr (ap word (sym same)))

-- get_section returns, or raises UciRecordNotFound.
first-cases :
    (l : List UciSection)
    → ((x : UciSection) × ((e : Raised) → first e l ≡ ok x)) ⊎ ((e : Raised) → first e l ≡ err e)
first-cases [] = inr (λ e. refl)
first-cases (x ∷ l) = inl (x, λ e. refl)

get_section-cases :
    (d : UciData) (c s : String)
    → ((x : UciSection) × (get_section d c s ≡ ok x))
      ⊎ ((o : Option String) × (get_section d c s ≡ err (uci_record_not_found c o none none none)))
get_section-cases d c s = elim (Option-cases (lookup c d)) [
  | inl missing ↦ inr (none, unfold get_section in rw (missing, get_config))
  | inr (l, there) ↦ elim (first-cases (filter (λ e. e.name == s) l)) [
    | inl (x, e) ↦ inl (x, unfold get_section in rw (there, get_config, ◌>>=◌) (e _))
    | inr e ↦ inr (some s, unfold get_section in rw (there, get_config, ◌>>=◌) (e _))
  ]
]

-- section_exists never raises, and is true exactly when get_section returns.
pub section_exists_total :
    (d : UciData) (config section : String)
    → section_exists d config section
      ≡ ok (elim (get_section d config section) [ ok _ ↦ true | err _ ↦ false ])
section_exists_total d config section = elim (get_section-cases d config section) [
  | inl (x, e) ↦ unfold section_exists in ground (arith, e)
  | inr (o, e) ↦ unfold section_exists in ground (arith, e)
]

-- A default only fills a gap: get_option_named with one returns what it returns without it, and
-- the default where it raises without it.
pub get_option_named-default :
    (d : UciData) (config section option : String) (v : OptionValue)
    → get_option_named d config section option (some v)
      ≡ ok (elim (get_option_named d config section option none) [ ok x ↦ x | err _ ↦ v ])
get_option_named-default d config section option v = elim (get_section-cases d config section) [
  | inl (s, found) ↦ unfold get_option_named in ground (arith, found)
  | inr (o, missing) ↦ unfold get_option_named in ground (arith, missing)
]

nth_out : (e : Raised) (l : List UciSection) (idx : ℕ) → length l ≤ idx → nth e l idx ≡ err e
nth_out e [] idx h = refl
nth_out e (x ∷ l) zero h = absurd (omega arith)
nth_out e (x ∷ l) (suc idx) h = nth_out e l idx (omega arith)

-- A default does not help against a missing anonymous section: the lookup raises.
pub get_option_anonymous-out :
    (d : UciData) (config section_type : String) (idx : ℕ) (option : String)
    (default : Option OptionValue) (l : List UciSection)
    → get_sections_by_type d config section_type ≡ ok l
    → length l ≤ idx
    → get_option_anonymous d config section_type idx option default
      ≡ err (uci_record_not_found config none (some section_type) (some idx) none)
get_option_anonymous-out d config section_type idx option default l e h =
    unfold get_option_anonymous in
    ground (
      arith,
      e,
      nth_out (uci_record_not_found config none (some section_type) (some idx) none) l idx,
    )
