-- ===== src/Budget/Solde.antt =====
-- src/domain/solde_consolide.rs and the envelopes of src/domain/enveloppe.rs.
pub mod Totaux
use ch_api_budgy.Prelude.{
  ℕ, Bool, true, false, Option, none, some, List, [], ◌∷◌, map, unwrap_or, is_some, if◌then◌else◌,
  ◌||◌,
}
use ch_api_budgy.Prelude.Int.{ℤ, pos, ltb_ℤ, leb_ℤ}
use ch_api_budgy.Prelude.I64.{saturating_add, sub_i64}
use ch_api_budgy.Prelude.Options.{or_else}
use ch_api_budgy.Texte.{Texte}

pub data BalanceType : Type 0 where
  available booked expected : BalanceType

pub record Balance : Type 0 where
  pub id : ℕ
  pub bank_account : ℕ
  pub balance_type : BalanceType
  pub amount_cents : ℤ
  pub currency : Texte
  pub reference_date : ℤ
  pub created_at : ℤ

-- The account of src/domain/ports/lecture.rs stays a parameter: consolidation only passes it on.
pub record CompteAvecSolde (Compte : Type 0) : Type 0 where
  pub compte : Compte
  pub solde : Option Balance
  pub solde_a_venir : Option Balance

pub record SoldeConsolide (Compte : Type 0) : Type 0 where
  pub total_cents : ℤ
  pub total_a_venir_cents : Option ℤ
  pub comptes : List (CompteAvecSolde Compte)

module _ {Compte : Type 0} where
  -- `filter_map` and `fold` with `saturating_add`
  pub total_courant : ℤ → List (CompteAvecSolde Compte) → ℤ
  unfolding saturating_add
  total_courant acc [] = acc
  total_courant acc (c ∷ cs) =
      total_courant (elim c.solde [ none ↦ acc | some s ↦ saturating_add acc s.amount_cents ]) cs

  unfoldable pub montant_a_venir : CompteAvecSolde Compte → ℤ
  montant_a_venir c = elim (or_else c.solde_a_venir c.solde) [
    | none ↦ pos 0
    | some s ↦ s.amount_cents
  ]

  pub total_a_venir : ℤ → List (CompteAvecSolde Compte) → ℤ
  unfolding montant_a_venir saturating_add
  total_a_venir acc [] = acc
  total_a_venir acc (c ∷ cs) = total_a_venir (saturating_add acc (montant_a_venir c)) cs

  pub un_solde_a_venir : List (CompteAvecSolde Compte) → Bool
  un_solde_a_venir [] = false
  un_solde_a_venir (c ∷ cs) = is_some c.solde_a_venir || un_solde_a_venir cs

  unfoldable pub consolider : List (CompteAvecSolde Compte) → SoldeConsolide Compte
  unfolding total_courant total_a_venir un_solde_a_venir
  consolider comptes = record {
    total_cents = total_courant (pos 0) comptes;
    total_a_venir_cents =
        if un_solde_a_venir comptes then some (total_a_venir (pos 0) comptes) else none;
    comptes = comptes;
  }
