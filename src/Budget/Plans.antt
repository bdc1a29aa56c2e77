-- ===== src/Budget/Plans.antt =====
-- src/domain/budget.rs and src/repository/budgets.rs: the budgets that a user writes, one for a
-- category and a month.
use ch_api_budgy.Prelude.{
  ℕ, Bool, ◌&&◌, ◌||◌, Option, none, some, List, [], ◌∷◌, ◌++◌, Result, ok, err, filter, leb, ◌==◌,
  if◌then◌else◌, is_some,
}
use ch_api_budgy.Prelude.Int.{ℤ, pos, ltb_ℤ, eqb_ℤ}
use ch_api_budgy.Prelude.Sort.{sort_by}
use ch_api_budgy.Prelude.Tables.{update, first}
use ch_api_budgy.Texte.{Texte, codes, trim, text_eq}
use ch_api_budgy.Depenses.{est_visible}
use ch_api_budgy.Transactions.{Base}
use ch_api_budgy.Budget.Reste.{Budget}

pub data BudgetValidationError : Type 0 where
  montant_negatif mois_invalide : BudgetValidationError

unfoldable pub montant_prevu : ℤ → Result BudgetValidationError ℤ
montant_prevu centimes = if ltb_ℤ centimes (pos 0) then err montant_negatif else ok centimes

-- `lire` is the reading of a date `%Y-%m-%d` by chrono, as its day number.
unfoldable pub mois_budget : (Texte → Option ℤ) → Texte → Result BudgetValidationError ℤ
mois_budget lire valeur = elim (lire (trim valeur ++ codes "-01")) [
  | none ↦ err mois_invalide
  | some premier_jour ↦ ok premier_jour
]

pub record NouveauBudget : Type 0 where
  pub proprietaire : Texte
  pub category_id : ℕ
  pub montant_prevu : ℤ
  pub mois : ℤ

-- The unique key (owner_id, category_id, mois).
pub meme_budget : NouveauBudget → Budget → Bool
meme_budget n b =
    text_eq b.owner_id n.proprietaire && b.category_id == n.category_id && eqb_ℤ b.mois n.mois

pub budget_cree : NouveauBudget → ℕ → ℤ → Budget
budget_cree n id now = record {
  id = id;
  owner_id = n.proprietaire;
  category_id = n.category_id;
  montant_prevu_cents = n.montant_prevu;
  mois = n.mois;
  created_at = now;
  updated_at = now;
}

pub replanifier : NouveauBudget → ℤ → Budget → Budget
replanifier n now b = record b { montant_prevu_cents = n.montant_prevu; updated_at = now }

-- `ON CONFLICT … DO UPDATE`: `id` is the key that the database draws for a new row.
pub inserer_ou_replanifier :
    NouveauBudget → ℕ → ℤ → List Budget → Option Budget → List Budget × Option Budget
unfolding budget_cree replanifier meme_budget
inserer_ou_replanifier n id now budgets none =
    (budgets ++ budget_cree n id now ∷ [], some (budget_cree n id now))
inserer_ou_replanifier n id now budgets (some b) =
    (update (meme_budget n) (replanifier n now) budgets, some (replanifier n now b))

-- A budget is for a category that its owner may use.
unfoldable pub enregistrer_budget :
    Base → NouveauBudget → ℕ → ℤ → List Budget → List Budget × Option Budget
unfolding meme_budget inserer_ou_replanifier
enregistrer_budget base n id now budgets =
    if is_some (first (λ c. c.id == n.category_id && est_visible n.proprietaire c) base.categories)
    then inserer_ou_replanifier n id now budgets (first (meme_budget n) budgets)
    else (budgets, none)

-- `ORDER BY created_at, id`
pub cree_ou_numerote_avant : Budget → Budget → Bool
cree_ou_numerote_avant a b =
    ltb_ℤ a.created_at b.created_at || (eqb_ℤ a.created_at b.created_at && leb a.id b.id)

unfoldable pub lister_par_mois : List Budget → Texte → ℤ → List Budget
unfolding cree_ou_numerote_avant
lister_par_mois budgets proprietaire mois =
    sort_by cree_ou_numerote_avant
      (filter (λ b. text_eq b.owner_id proprietaire && eqb_ℤ b.mois mois) budgets)
