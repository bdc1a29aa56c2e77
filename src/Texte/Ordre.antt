-- ===== src/Texte/Ordre.antt =====
-- The equality and the order of texts.
use ch_api_budgy.Prelude.{◌≡◌, refl, ◌⊎◌, inl, inr, ◌↔◌, true, [], ◌∷◌, arith}
use ch_api_budgy.Texte.{Texte, text_eq, text_le}

pub text_eq_iff : (s t : Texte) → (text_eq s t ≡ true) ↔ (s ≡ t)
text_eq_iff [] [] = ground arith
text_eq_iff [] (d ∷ t) = ground arith
text_eq_iff (c ∷ s) [] = ground arith
text_eq_iff (c ∷ s) (d ∷ t) = ground (arith, text_eq_iff s t)

pub text_le_total : (s t : Texte) → (text_le s t ≡ true) ⊎ (text_le t s ≡ true)
text_le_total [] t = inl refl
text_le_total (c ∷ s) [] = inr refl
text_le_total (c ∷ s) (d ∷ t) = ground (arith, text_le_total s t)

pub text_le_trans : (s t u : Texte) → text_le s t ≡ true → text_le t u ≡ true → text_le s u ≡ true
text_le_trans [] t u p q = refl
text_le_trans (c ∷ s) [] u p q = cc
text_le_trans (c ∷ s) (d ∷ t) [] p q = cc
text_le_trans (c ∷ s) (d ∷ t) (e ∷ u) p q = ground (arith, text_le_trans s t u)

pub text_le_antisym : (s t : Texte) → text_le s t ≡ true → text_le t s ≡ true → s ≡ t
text_le_antisym [] [] p q = refl
text_le_antisym [] (d ∷ t) p q = cc
text_le_antisym (c ∷ s) [] p q = cc
text_le_antisym (c ∷ s) (d ∷ t) p q = ground (arith, text_le_antisym s t)
