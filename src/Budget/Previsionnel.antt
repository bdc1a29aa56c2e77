-- ===== src/Budget/Previsionnel.antt =====
-- src/domain/previsionnel.rs: the balance expected on the last day of the cycle.
pub mod Projection
use ch_api_budgy.Prelude.{
  ℕ, Bool, true, false, Option, none, some, List, [], ◌∷◌, ◌++◌, map, unwrap_or, ◌||◌, ◌&&◌, not,
  filter,
}
use ch_api_budgy.Prelude.Int.{ℤ, pos, ltb_ℤ, leb_ℤ, eqb_ℤ, max_ℤ}
use ch_api_budgy.Prelude.I64.{add_i64, sub_i64}
use ch_api_budgy.Prelude.Sort.{sort_by}
use ch_api_budgy.Prelude.Map.{Map, get}
use ch_api_budgy.Texte.{Texte, text_le, is_empty}
use ch_api_budgy.Categorie.{Category, CategoryKind, revenu, depense}
use ch_api_budgy.Agregation.{RepartitionDepenses, indexer_par_categorie}

pub record LignePrevisionCategorie : Type 0 where
  pub category_id : Option ℕ
  pub category : Option Category
  pub prevu_cents : ℤ
  pub realise_cents : ℤ
  pub restant_cents : ℤ

pub record Previsionnel : Type 0 where
  pub solde_previsionnel_cents : ℤ
  pub solde_actuel_cents : ℤ
  pub revenus_restants_cents : ℤ
  pub depenses_restantes_cents : ℤ
  pub lignes : List LignePrevisionCategorie
  pub donnees_suffisantes : Bool

pub ligne_prevision : Map ℤ → Map Category → ℕ × ℤ → LignePrevisionCategorie
unfolding sub_i64
ligne_prevision reel categories (k, prevu) =
    let realise = unwrap_or (get k reel) (pos 0) in
    record {
      category_id = some k;
      category = get k categories;
      prevu_cents = prevu;
      realise_cents = realise;
      restant_cents = max_ℤ (sub_i64 prevu realise) (pos 0);
    }

-- One of the two loops: the lines it pushes and the sum it keeps.
pub cumuler :
    Map ℤ
    → Map Category
    → Map ℤ
    → ℤ × List LignePrevisionCategorie
    → ℤ × List LignePrevisionCategorie
unfolding add_i64
cumuler reel categories [] (somme, lignes) = (somme, lignes)
cumuler reel categories (p ∷ prevus) (somme, lignes) =
    let l = ligne_prevision reel categories p in
    cumuler reel categories prevus (add_i64 somme l.restant_cents, lignes ++ l ∷ [])

nom : LignePrevisionCategorie → Texte
nom l = elim l.category [ none ↦ [] | some c ↦ c.name ]

pub prevision_avant : LignePrevisionCategorie → LignePrevisionCategorie → Bool
unfolding nom
prevision_avant a b =
    ltb_ℤ b.restant_cents a.restant_cents
    || (eqb_ℤ b.restant_cents a.restant_cents && text_le (nom a) (nom b))

pub trier_lignes : List LignePrevisionCategorie → List LignePrevisionCategorie
unfolding sort_by prevision_avant
trier_lignes = sort_by prevision_avant

pub calculer_previsionnel :
    ℤ → Map ℤ → Map ℤ → RepartitionDepenses → RepartitionDepenses → Map Category → Previsionnel
unfolding cumuler trier_lignes
calculer_previsionnel solde depenses_prevues revenus_prevus depenses_realisees revenus_realises
      categories =
    let depenses_reelles = indexer_par_categorie depenses_realisees in
    let revenus_reels = indexer_par_categorie revenus_realises in
    let (depenses_restantes, lignes) =
      cumuler depenses_reelles categories depenses_prevues (pos 0, []) in
    let (revenus_restants, lignes') =
      cumuler revenus_reels categories revenus_prevus (pos 0, lignes) in
    record {
      solde_previsionnel_cents = sub_i64 (add_i64 solde revenus_restants) depenses_restantes;
      solde_actuel_cents = solde;
      revenus_restants_cents = revenus_restants;
      depenses_restantes_cents = depenses_restantes;
      lignes = trier_lignes lignes';
      donnees_suffisantes = not (is_empty depenses_prevues) || not (is_empty revenus_prevus);
    }

est_revenu : ℕ × Category → Bool
est_revenu (_, c) = elim c.kind [ revenu ↦ true | depense ↦ false ]

pub categories_de_revenu : Map Category → List ℕ
unfolding est_revenu
categories_de_revenu categories = map (λ e. e.0) (filter est_revenu categories)
