-- ===== src/Libelle/Boucle.antt =====
-- The loop of `retirer_civilites`, src/domain/libelle.rs.
use ch_api_budgy.Prelude.{
  ℕ, zero, suc, ◌+◌, ◌≤◌, ◌<◌, ◌≡◌, refl, Option, none, some, [], ◌∷◌, length, arith, Option-cases,
  inl, inr,
}
use ch_api_budgy.Texte.{Texte}
use ch_api_budgy.Libelle.{strip_prefix, remplacer, retirer_motif}

strip_prefix-length : (p s t : Texte) → strip_prefix p s ≡ some t → length t + length p ≡ length s
unfolding strip_prefix
strip_prefix-length [] s t h = ground arith
strip_prefix-length (p ∷ ps) [] t h = cc
strip_prefix-length (p ∷ ps) (c ∷ s) t h = ground (arith, strip_prefix-length ps s t)

remplacer-length :
    (motif s t : Texte) → 2 ≤ length motif → remplacer motif s ≡ some t → length t < length s
unfolding remplacer
remplacer-length motif [] t hm h = cc
remplacer-length motif (c ∷ s) t hm h =
    go (strip_prefix motif (c ∷ s)) (remplacer motif s) (strip_prefix-length motif (c ∷ s))
      (λ u. remplacer-length motif s u hm) h
  where
    go :
        (o r : Option Texte)
        → ((u : Texte) → o ≡ some u → length u + length motif ≡ suc (length s))
        → ((u : Texte) → r ≡ some u → length u < length s)
        → (elim o [
          | some reste ↦ some (32 ∷ reste)
          | none ↦ elim r [ none ↦ none | some t ↦ some (c ∷ t) ]
        ])
          ≡ some t
        → length t < suc (length s)
    go none none ho hr e = cc
    go none (some u) ho hr e = ground (arith, hr u refl)
    go (some u) r ho hr e = ground (arith, ho u refl)

-- With the fuel that `retirer_tous` gives, its length, the loop ends because the pattern is no
-- longer found, and not for lack of fuel.
pub retirer_motif_termine :
    (n : ℕ) (motif out : Texte)
    → 2 ≤ length motif
    → length out ≤ n
    → remplacer motif (retirer_motif n motif out) ≡ none
unfolding retirer_motif
retirer_motif_termine zero motif [] hm h = unfold remplacer in refl
retirer_motif_termine zero motif (c ∷ s) hm h = ground arith
retirer_motif_termine (suc n) motif out hm h = elim (Option-cases (remplacer motif out)) [
  | inl e ↦ rw (retirer_motif, e) e
  | inr e ↦
      rw (retirer_motif, e.1)
        (retirer_motif_termine n motif e.0 hm
          (omega (arith, remplacer-length motif out e.0 hm e.1)))
]
