-- ===== src/Categorie.antt =====
-- src/domain/category.rs: the categories of expenses and revenues. Ids are the 128 bits of a UUID.
use ch_api_budgy.Prelude.{ℕ, Bool, Option, none, some, true, false}
use ch_api_budgy.Prelude.Int.{ℤ}
use ch_api_budgy.Texte.{Texte}

pub data CategoryKind : Type 0 where
  revenu depense : CategoryKind

pub record Category : Type 0 where
  pub id : ℕ
  pub owner_id : Option Texte
  pub name : Texte
  pub kind : CategoryKind
  pub color : Texte
  pub icon : Texte
  pub created_at : ℤ

pub est_par_defaut : Category → Bool
est_par_defaut c = elim c.owner_id [ none ↦ true | some _ ↦ false ]
