-- ===== src/Regle/Selection.antt =====
-- The rule that src/domain/regle_categorisation.rs selects.
use ch_api_budgy.Prelude.{
  ℕ, ◌≡◌, refl, ap, ◌∙◌, Bool, true, false, not, ◌||◌, ◌⊎◌, inl, inr, none, some, List, [], ◌∷◌,
  All, Bool-cases, arith, if◌then◌else◌, ◌&&◌, ltb,
}
use ch_api_budgy.Prelude.Int.{ℤ, ltb_ℤ, eqb_ℤ}
use ch_api_budgy.Texte.{Texte}
use ch_api_budgy.Regle.{RegleCategorisation, cle_le, correspond, max_depuis, selectionner_regle}

lex_trans :
    (a b c : ℤ) (u v w : Bool)
    → (u ≡ true → v ≡ true → w ≡ true)
    → (ltb_ℤ a b || (eqb_ℤ a b && u)) ≡ true
    → (ltb_ℤ b c || (eqb_ℤ b c && v)) ≡ true
    → (ltb_ℤ a c || (eqb_ℤ a c && w)) ≡ true
lex_trans a b c u v w f h k = ground arith

id_trans : (a b c : ℕ) → not (ltb b a) ≡ true → not (ltb c b) ≡ true → not (ltb c a) ≡ true
id_trans a b c h k = ground arith

cle_le_trans :
    (r s t : RegleCategorisation) → cle_le r s ≡ true → cle_le s t ≡ true → cle_le r t ≡ true
unfolding cle_le
cle_le_trans r s t h k =
    lex_trans r.priority s.priority t.priority _ _ _
      (λ h' k'.
        lex_trans r.created_at s.created_at t.created_at _ _ _ (id_trans r.id s.id t.id) h' k')
      h k

cle_le_total : (r s : RegleCategorisation) → cle_le r s ≡ false → cle_le s r ≡ true
unfolding cle_le
cle_le_total r s h = ground arith

cle_le_refl : (r : RegleCategorisation) → cle_le r r ≡ true
unfolding cle_le
cle_le_refl r = ground arith

et_gauche : (a b : Bool) → (a && b) ≡ true → a ≡ true
et_gauche a b e = ground arith

et_droite : (a b : Bool) → (a && b) ≡ true → b ≡ true
et_droite a b e = ground arith

module _ (maj min : Texte → Texte) (P : RegleCategorisation → Type 0) (label : Texte) where
  abbrev MoinsBonne : RegleCategorisation → RegleCategorisation → Type 0
  MoinsBonne m r = (not (correspond maj min r label) || cle_le r m) ≡ true

  -- `m` has `P`, its pattern is in the label, and no other such rule of `rs` comes before it.
  abbrev pub Choisie : RegleCategorisation → List RegleCategorisation → Type 0
  Choisie m rs =
      P m
      × (correspond maj min m label ≡ true)
      × All (λ r. (not (correspond maj min r label) || cle_le r m) ≡ true) rs

  moins_bonne : (s m : RegleCategorisation) → cle_le s m ≡ true → MoinsBonne m s
  moins_bonne s m h = ground arith

  ne_va_pas :
      (s m r : RegleCategorisation)
      → (correspond maj min r label && cle_le s r) ≡ false
      → cle_le s m ≡ true
      → MoinsBonne m r
  ne_va_pas s m r e h = ground (arith, cle_le_total s r, cle_le_trans r s m)

  depart :
      (r : RegleCategorisation) (rs : List RegleCategorisation) (b : Bool)
      → correspond maj min r label ≡ b
      → max_depuis maj min none label (r ∷ rs)
        ≡ max_depuis maj min (if b then some r else none) label rs
  unfolding max_depuis
  depart r rs b e = ap (λ c. max_depuis maj min (if c then some r else none) label rs) e

  avance :
      (s r : RegleCategorisation) (rs : List RegleCategorisation) (b : Bool)
      → (correspond maj min r label && cle_le s r) ≡ b
      → max_depuis maj min (some s) label (r ∷ rs)
        ≡ max_depuis maj min (some (if b then r else s)) label rs
  unfolding max_depuis
  avance s r rs b e = ap (λ c. max_depuis maj min (some (if c then r else s)) label rs) e

  depuis_une :
      (s : RegleCategorisation) (rs : List RegleCategorisation)
      → P s
      → correspond maj min s label ≡ true
      → All P rs
      → (m : RegleCategorisation) × (max_depuis maj min (some s) label rs ≡ some m)
        × (cle_le s m ≡ true)
        × Choisie m rs
  unfolding max_depuis
  depuis_une s [] ps cs h = (s, refl, cle_le_refl s, (ps, cs, tt))
  depuis_une s (r ∷ rs) ps cs h = elim (Bool-cases (correspond maj min r label && cle_le s r)) [
    | inl e ↦
        let cr = et_gauche (correspond maj min r label) (cle_le s r) e in
        let (m, em, sm, (pm, cm, am)) = depuis_une r rs h.0 cr h.1 in
        (
          m,
          avance s r rs true e ∙ em,
          cle_le_trans s r m (et_droite (correspond maj min r label) (cle_le s r) e) sm,
          (pm, cm, (moins_bonne r m sm, am)),
        )
    | inr e ↦
        let (m, em, sm, (pm, cm, am)) = depuis_une s rs ps cs h.1 in
        (m, avance s r rs false e ∙ em, sm, (pm, cm, (ne_va_pas s m r e sm, am)))
  ]

  ecartee : (m r : RegleCategorisation) → correspond maj min r label ≡ false → MoinsBonne m r
  ecartee m r e = ground arith

  -- The rule that is selected is one of the rules, its pattern is in the label, and it has the
  -- greatest key (priority, date of creation, id) of those; none is selected only when no pattern
  -- is in the label.
  pub selectionner_regle_lem :
      (rs : List RegleCategorisation)
      → All P rs
      → ((selectionner_regle maj min label rs ≡ none)
          × All (λ r. correspond maj min r label ≡ false) rs)
        ⊎ ((m : RegleCategorisation) × (selectionner_regle maj min label rs ≡ some m)
            × Choisie m rs)
  unfolding selectionner_regle
  selectionner_regle_lem [] h = inl (refl, tt)
  selectionner_regle_lem (r ∷ rs) h = elim (Bool-cases (correspond maj min r label)) [
    | inl e ↦
        let (m, em, sm, (pm, cm, am)) = depuis_une r rs h.0 e h.1 in
        inr (m, depart r rs true e ∙ em, (pm, cm, (moins_bonne r m sm, am)))
    | inr e ↦ elim (selectionner_regle_lem rs h.1) [
      | inl u ↦ inl (depart r rs false e ∙ u.0, (e, u.1))
      | inr (m, em, (pm, cm, am)) ↦ inr (m, depart r rs false e ∙ em, (pm, cm, (ecartee m r e, am)))
    ]
  ]
