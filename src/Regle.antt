-- ===== src/Regle.antt =====
-- src/domain/regle_categorisation.rs: the rules that give a category to a label.
pub mod Selection
use ch_api_budgy.Prelude.{
  ℕ, Bool, true, false, Option, none, some, List, [], ◌∷◌, Result, ok, err, ltb, ◌==◌, ◌&&◌, ◌||◌,
  not, is_some, if◌then◌else◌, length,
}
use ch_api_budgy.Prelude.Int.{ℤ, ltb_ℤ, eqb_ℤ}
use ch_api_budgy.Texte.{Texte, trim, is_empty}
use ch_api_budgy.Libelle.{extraire_tiers, strip_prefix}

pub data RegleValidationError : Type 0 where
  motif_vide motif_trop_long : RegleValidationError

abbrev pub label_pattern_max_len : ℕ
label_pattern_max_len = 140

pub label_pattern : Texte → Result RegleValidationError Texte
unfolding trim
label_pattern value =
    let trimmed = trim value in
    if is_empty trimmed
    then err motif_vide
    else if ltb label_pattern_max_len (length trimmed)
    then err motif_trop_long
    else ok trimmed

pub record RegleCategorisation : Type 0 where
  pub id : ℕ
  pub owner_id : Texte
  pub label_pattern : Texte
  pub category_id : ℕ
  pub priority : ℤ
  pub created_at : ℤ

-- `str::contains`
pub contient : Texte → Texte → Bool
unfolding strip_prefix
contient [] motif = is_some (strip_prefix motif [])
contient (c ∷ s) motif = is_some (strip_prefix motif (c ∷ s)) || contient s motif

-- `<=` on (priority, created_at, id)
unfoldable pub cle_le : RegleCategorisation → RegleCategorisation → Bool
cle_le r s =
    ltb_ℤ r.priority s.priority
    || (eqb_ℤ r.priority s.priority
        && (ltb_ℤ r.created_at s.created_at
            || (eqb_ℤ r.created_at s.created_at && not (ltb s.id r.id))))

-- `str::to_uppercase` and `str::to_lowercase`, the tables of Unicode.
module _ (to_uppercase to_lowercase : Texte → Texte) where
  unfoldable pub correspond : RegleCategorisation → Texte → Bool
  unfolding contient extraire_tiers
  correspond r label =
      contient (to_lowercase (extraire_tiers to_uppercase label))
        (to_lowercase (extraire_tiers to_uppercase r.label_pattern))

  -- `max_by_key` keeps the last of the greatest.
  max_depuis :
      Option RegleCategorisation → Texte → List RegleCategorisation → Option RegleCategorisation
  max_depuis m label [] = m
  max_depuis none label (r ∷ rs) = max_depuis (if correspond r label then some r else none) label rs
  max_depuis (some s) label (r ∷ rs) =
      max_depuis (some (if correspond r label && cle_le s r then r else s)) label rs

  unfoldable pub selectionner_regle : Texte → List RegleCategorisation → Option RegleCategorisation
  unfolding max_depuis
  selectionner_regle label regles = max_depuis none label regles
