-- ===== src/Networks/Index.antt =====
-- The dict of ports by id in update_settings of the networks handler.
use mathlib.Core.List.{
  Mem, Nodup, Nodup-cons, mem-cons_self, mem-cons_of_mem, append_assoc, append-nil,
}
use foris_controller.Prelude.{
  String, ◌==◌, ◌≡◌, refl, none, List, [], ◌∷◌, ◌++◌, Dict, lookup, insert, lookup-insert, All,
  arith, eq_iff, sym, ap, ◌∙◌, Bool-cases, inl, inr,
}
use foris_controller.Networks.{Port, values, index_from}
use foris_controller.Networks.Assignment.{IsKeyed, ids}

values-insert :
    (k : String) (p : Port) (d : Dict Port)
    → lookup k d ≡ none
    → values (insert k p d) ≡ values d ++ p ∷ []
unfolding lookup insert
values-insert k p [] e = refl
values-insert k p ((j, q) ∷ d) e = elim (Bool-cases (j == k)) [
  | inl same ↦ absurd (ground arith)
  | inr other ↦ rw other (ap (λ ps. q ∷ ps) (values-insert k p d (rw other at e)))
]

insert-IsKeyed : (p : Port) (d : Dict Port) → IsKeyed d → IsKeyed (insert p.id p d)
unfolding insert
insert-IsKeyed p [] h = (refl, tt)
insert-IsKeyed p ((j, q) ∷ d) h = elim (Bool-cases (j == p.id)) [
  | inl same ↦ rw same (sym ((eq_iff j p.id).0 same), h.1)
  | inr other ↦ rw other (h.0, insert-IsKeyed p d h.1)
]

-- No port of the list is in the dict.
abbrev pub AllNew : Dict Port → List Port → Type 0
AllNew d = All (λ p. lookup p.id d ≡ none)

AllNew-insert :
    (p : Port) (d : Dict Port) (ps : List Port)
    → ¬ Mem p.id (ids ps)
    → AllNew d ps
    → AllNew (insert p.id p d) ps
AllNew-insert p d [] fresh h = tt
AllNew-insert p d (q ∷ ps) fresh h = elim (Bool-cases (p.id == q.id)) [
  | inl same ↦ absurd (fresh (rw ((eq_iff p.id q.id).0 same) mem-cons_self))
  | inr other ↦ (
    lookup-insert p.id q.id p d ∙ (rw other h.0),
    AllNew-insert p d ps (λ m. fresh (mem-cons_of_mem q.id m)) h.1,
  )
]

pub values-index_from :
    (d : Dict Port) (ps : List Port)
    → AllNew d ps
    → Nodup (ids ps)
    → values (index_from d ps) ≡ values d ++ ps
unfolding index_from
values-index_from d [] h u = sym (append-nil (values d))
values-index_from d (p ∷ ps) h u =
    let parts = Nodup-cons.0 u in
    values-index_from (insert p.id p d) ps (AllNew-insert p d ps parts.0 h.1) parts.1
    ∙ ap (λ vs. vs ++ ps) (values-insert p.id p d h.0)
    ∙ append_assoc (values d) (p ∷ []) ps

pub index_from-IsKeyed : (d : Dict Port) (ps : List Port) → IsKeyed d → IsKeyed (index_from d ps)
unfolding index_from
index_from-IsKeyed d [] h = h
index_from-IsKeyed d (p ∷ ps) h = index_from-IsKeyed (insert p.id p d) ps (insert-IsKeyed p d h)

pub AllNew-nil : (ps : List Port) → AllNew [] ps
unfolding lookup
AllNew-nil [] = tt
AllNew-nil (p ∷ ps) = (refl, AllNew-nil ps)
