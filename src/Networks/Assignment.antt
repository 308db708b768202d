-- ===== src/Networks/Assignment.antt =====
-- How the ports travel through the loops of update_settings.
use mathlib.Core.List.Perm
use mathlib.Core.List.{Perm, append_assoc}
use foris_controller.Prelude.{
  String, ◌==◌, ◌≡◌, refl, true, some, List, [], ◌∷◌, ◌++◌, map, Dict, lookup, All, arith, eq_iff,
  sym, ap, ◌∙◌, Option-cases, Bool-cases, ap₂, inl, inr, subst,
}
use foris_controller.Networks.{Port, keys, values, all_ports, remove, take_ports, assign}

-- Every port stands under its own id.
abbrev pub IsKeyed : Dict Port → Type 0
IsKeyed = All (λ e. e.1.id ≡ e.0)

abbrev pub ids : List Port → List String
ids = map (λ p. p.id)

module _ {V : Type 0} where
  -- Taking a key out of a dict takes its value out of the values.
  pub values-remove :
      (k : String) (d : Dict V) (v : V)
      → lookup k d ≡ some v
      → Perm (values d) (v ∷ values (remove k d))
  unfolding lookup remove
  values-remove k [] v e = absurd (cc)
  values-remove k ((j, w) ∷ d) v e = elim (Bool-cases (j == k)) [
    | inl same ↦ let eq : w ≡ v = ground arith in rw (same, eq) (Perm.refl _)
    | inr other ↦
        let below : lookup k d ≡ some v = ground arith in
        rw other (Perm.trans (Perm.cons w (values-remove k d v below)) (Perm.swap v w _))
  ]

remove-IsKeyed : (k : String) (d : Dict Port) → IsKeyed d → IsKeyed (remove k d)
unfolding remove
remove-IsKeyed k [] h = tt
remove-IsKeyed k ((j, q) ∷ d) h = elim (Bool-cases (j == k)) [
  | inl same ↦ rw same h.1
  | inr other ↦ rw other (h.0, remove-IsKeyed k d h.1)
]

id-lookup : (k : String) (d : Dict Port) (p : Port) → IsKeyed d → lookup k d ≡ some p → p.id ≡ k
unfolding lookup
id-lookup k [] p h e = absurd (cc)
id-lookup k ((j, q) ∷ d) p h e = elim (Bool-cases (j == k)) [
  | inl same ↦
      let eq : q ≡ p = cc (rw same at e) in
      ap (λ (r : Port). r.id) (sym eq) ∙ h.0 ∙ (eq_iff j k).0 same
  | inr other ↦ id-lookup k d p h.1 (rw other at e)
]

-- What a network gets is what it asked for, and is configurable; nothing is lost.
pub record Taken (wanted : List String) (before : Dict Port) (ps : List Port) (after : Dict Port)
    : Type 0 where
  pub as_wanted : ids ps ≡ wanted
  pub movable : All (λ p. p.configurable ≡ true) ps
  pub kept : Perm (values before) (ps ++ values after)
  pub keyed : IsKeyed after

take_ports-cons :
    (k : String) (ks : List String) (d : Dict Port) (ps : List Port) (left : Dict Port)
    → take_ports (k ∷ ks) d ≡ some (ps, left)
    → (p : Port) × (qs : List Port) × (lookup k d ≡ some p)
      × (p.configurable ≡ true)
      × (take_ports ks (remove k d) ≡ some (qs, left))
      × (ps ≡ p ∷ qs)
take_ports-cons k ks d ps left e = elim (Option-cases (lookup k d)) [
  | inl missing ↦ absurd (unfold take_ports in ground arith)
  | inr (p, found) ↦ elim (Option-cases (take_ports ks (remove k d))) [
    | inl failed ↦ absurd (unfold take_ports in ground arith)
    | inr ((qs, after), rest) ↦
        let parts : (p.configurable ≡ true) × (after ≡ left) × (ps ≡ p ∷ qs) =
          unfold take_ports in ground arith in
        (p, qs, found, parts.0, rest ∙ ap (λ a. some (qs, a)) parts.1, parts.2)
  ]
]

take_ports-Taken :
    (wanted : List String) (d : Dict Port) (ps : List Port) (left : Dict Port)
    → IsKeyed d
    → take_ports wanted d ≡ some (ps, left)
    → Taken wanted d ps left
take_ports-Taken [] d ps left h e =
    let parts : ([] ≡ ps) × (d ≡ left) = unfold take_ports in ground arith in
    subst (λ qs. Taken [] d qs left) parts.0
      (subst (λ a. Taken [] d [] a) parts.1
        (record { as_wanted = refl; movable = tt; kept = Perm.refl _; keyed = h }))
take_ports-Taken (k ∷ ks) d ps left h e =
    let (p, qs, found, free, rest, eq) = take_ports-cons k ks d ps left e in
    let t = take_ports-Taken ks (remove k d) qs left (remove-IsKeyed k d h) rest in
    rw eq (record {
      as_wanted = ap₂ ◌∷◌ (id-lookup k d p h found) t.as_wanted;
      movable = (free, t.movable);
      kept = Perm.trans (values-remove k d p found) (Perm.cons p t.kept);
      keyed = t.keyed;
    })

-- The same for all networks: each has what it asked for, and nothing is lost.
pub record Assigned (names : List String) (wanted : Dict (List String)) (before : Dict Port)
    (nets : Dict (List Port)) (after : Dict Port) : Type 0 where
  pub names_kept : keys nets ≡ names
  pub as_wanted : All (λ e. lookup e.0 wanted ≡ some (ids e.1)) nets
  pub movable : All (λ e. All (λ p. p.configurable ≡ true) e.1) nets
  pub kept : Perm (values before) (all_ports nets ++ values after)
  pub keyed : IsKeyed after

assign-cons :
    (name : String) (names : List String) (wanted : Dict (List String)) (d : Dict Port)
    (nets : Dict (List Port)) (unused : Dict Port)
    → assign (name ∷ names) wanted d ≡ some (nets, unused)
    → (want : List String) × (ps : List Port) × (left : Dict Port) × (rest : Dict (List Port))
      × (lookup name wanted ≡ some want)
      × (take_ports want d ≡ some (ps, left))
      × (assign names wanted left ≡ some (rest, unused))
      × (nets ≡ (name, ps) ∷ rest)
assign-cons name names wanted d nets unused e = elim (Option-cases (lookup name wanted)) [
  | inl missing ↦ absurd (unfold assign in ground arith)
  | inr (want, asked) ↦ elim (Option-cases (take_ports want d)) [
    | inl failed ↦ absurd (unfold assign in ground arith)
    | inr ((ps, left), taken) ↦ elim (Option-cases (assign names wanted left)) [
      | inl failed ↦ absurd (unfold assign in ground arith)
      | inr ((rest, after), done) ↦
          let parts : (after ≡ unused) × (nets ≡ (name, ps) ∷ rest) =
            unfold assign in ground arith in
          (want, ps, left, rest, asked, taken, done ∙ ap (λ a. some (rest, a)) parts.0, parts.1)
    ]
  ]
]

pub assign-Assigned :
    (names : List String) (wanted : Dict (List String)) (d : Dict Port) (nets : Dict (List Port))
    (unused : Dict Port)
    → IsKeyed d
    → assign names wanted d ≡ some (nets, unused)
    → Assigned names wanted d nets unused
assign-Assigned [] wanted d nets unused h e =
    let parts : ([] ≡ nets) × (d ≡ unused) = unfold assign in ground arith in
    subst (λ ns. Assigned [] wanted d ns unused) parts.0
      (subst (λ a. Assigned [] wanted d [] a) parts.1
        (record { names_kept = refl; as_wanted = tt; movable = tt; kept = Perm.refl _; keyed = h }))
assign-Assigned (name ∷ names) wanted d nets unused h e =
    let (want, ps, left, rest, asked, taken, done, eq) =
      assign-cons name names wanted d nets unused e in
    let t = take_ports-Taken want d ps left h taken in
    let more = assign-Assigned names wanted left rest unused t.keyed done in
    rw eq (record {
      names_kept = ap (λ ks. name ∷ ks) more.names_kept;
      as_wanted = (asked ∙ ap some (sym t.as_wanted), more.as_wanted);
      movable = (t.movable, more.movable);
      kept =
          Perm.trans t.kept
            (rw (append_assoc ps (all_ports rest) (values unused)) (Perm.append_left ps more.kept));
      keyed = more.keyed;
    })
