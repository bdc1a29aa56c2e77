-- ===== src/Exemples/Calculs.antt =====
-- Cycles, medians and totals: src/domain/cycle.rs, agregation.rs, reste_a_depenser.rs,
-- previsionnel.rs, solde_consolide.rs.
use mathlib.Core.List.{Permᴰ}
use ch_api_budgy.Prelude.{
  ℕ, ◌⊎◌, ◌≡◌, refl, ◌<◌, Option, none, some, List, [], ◌∷◌, ◌++◌, map, All, arith,
}
use ch_api_budgy.Prelude.Int.{ℤ, pos, negsuc, ◌+ℤ◌, ◌-ℤ◌}
use ch_api_budgy.Prelude.Sort.{IsSorted}
use ch_api_budgy.Prelude.Map.{get, Map}
use ch_api_budgy.Texte.{codes}
use ch_api_budgy.Calendrier.Gregorien.{gregorien, Ymd, ymd, pred_opt, from_ymd_opt}
use ch_api_budgy.Cycle.{CycleMensuel, cycle_precedent, fin_exclue, debut}
use ch_api_budgy.Cycle.Pavage.{
  fin_exclue-cycle_precedent, cycle_porte_le_mois_de_son_dernier_jour, cycle_duree, SepareDunMois,
}
use ch_api_budgy.Categorie.{Category, depense}
use ch_api_budgy.Agregation.{
  RepartitionDepenses, mediane, medianes_par_categorie, indexer_par_categorie,
}
use ch_api_budgy.Agregation.Mediane.{mediane-perm, mediane_centrale, count_le, count_ge}
use ch_api_budgy.Agregation.Historique.{get-medianes_par_categorie, si_positive, montants}
use ch_api_budgy.Budget.Reste.{Budget, reste_avant, calculer_reste_a_depenser_predit}
use ch_api_budgy.Budget.Reste.Lignes.{calculer_reste_a_depenser_predit_lem, prevue}
use ch_api_budgy.Budget.Previsionnel.{calculer_previsionnel, ligne_prevision}
use ch_api_budgy.Budget.Previsionnel.Projection.{calculer_previsionnel_exact, restants, Montants}
use ch_api_budgy.Budget.Solde.{CompteAvecSolde, Balance, BalanceType, consolider}
use ch_api_budgy.Budget.Solde.Totaux.{SansVenir, a_venir, consolider_exact, somme, montant_courant}

-- The month of March 2025, from the 31st.
abbrev mars : CycleMensuel
mars = record { mois = record { annee = pos 2025; mois = 3 }; jour_debut = record { valeur = 31 } }

debut-mars : debut gregorien mars ≡ some (ymd (pos 2025) 2 28)
unfolding debut from_ymd_opt pred_opt ◌+ℤ◌
debut-mars = refl

fin_exclue-cycle_precedent_example :
    (t : Ymd) × (fin_exclue gregorien (cycle_precedent mars) ≡ some t)
    × (debut gregorien mars ≡ some t)
fin_exclue-cycle_precedent_example = fin_exclue-cycle_precedent gregorien mars (omega arith)

cycle_porte_le_mois_de_son_dernier_jour_example :
    (t u : Ymd) × (fin_exclue gregorien mars ≡ some t)
    × (pred_opt t ≡ some u)
    × (u.annee ≡ pos 2025)
    × (u.mois ≡ 3)
cycle_porte_le_mois_de_son_dernier_jour_example =
    cycle_porte_le_mois_de_son_dernier_jour gregorien mars (omega arith)

cycle_duree_example : SepareDunMois gregorien (debut gregorien mars) (fin_exclue gregorien mars)
cycle_duree_example = cycle_duree gregorien mars (omega arith)

abbrev valeurs : List ℤ
valeurs = pos 3 ∷ negsuc 4 ∷ pos 9 ∷ []

mediane-valeurs : mediane valeurs ≡ pos 3
unfolding mediane
mediane-valeurs = refl

mediane-perm_example : mediane (negsuc 4 ∷ pos 3 ∷ pos 9 ∷ []) ≡ mediane valeurs
mediane-perm_example = mediane-perm (negsuc 4 ∷ pos 3 ∷ pos 9 ∷ []) valeurs (Permᴰ.swap refl refl)

mediane_centrale_example :
    (1 < count_le (mediane valeurs) valeurs) × (1 < count_ge (mediane valeurs) valeurs)
mediane_centrale_example = mediane_centrale valeurs 1 refl

abbrev courses : Category
courses = record {
  id = 7;
  owner_id = none;
  name = codes "Courses";
  kind = depense;
  color = codes "#fff";
  icon = codes "cart";
  created_at = pos 0;
}

abbrev un_mois : RepartitionDepenses
un_mois = record {
  total_cents = pos 500;
  lignes = record { category = some courses; montant_cents = pos 500 } ∷ [];
}

abbrev histoire : List RepartitionDepenses
histoire = un_mois ∷ un_mois ∷ record { total_cents = pos 0; lignes = [] } ∷ []

get-medianes_par_categorie_example :
    get 7 (medianes_par_categorie histoire) ≡ si_positive (mediane (montants 7 histoire))
get-medianes_par_categorie_example = get-medianes_par_categorie 7 histoire

abbrev prevus : Map ℤ
prevus = (7, pos 800) ∷ []

abbrev noms : Map Category
noms = (7, courses) ∷ []

abbrev un_budget : Budget
un_budget = record {
  id = 1;
  owner_id = codes "u";
  category_id = 7;
  montant_prevu_cents = pos 800;
  mois = pos 0;
  created_at = pos 0;
  updated_at = pos 0;
}

calculer_reste_a_depenser_predit_lem_example :
    All
      (λ l. si_positive (mediane (montants l.category_id histoire)) ≡ some l.montant_prevu_cents)
      (calculer_reste_a_depenser_predit histoire un_mois noms)
    × IsSorted reste_avant (calculer_reste_a_depenser_predit histoire un_mois noms)
    × Permᴰ
        (map prevue (calculer_reste_a_depenser_predit histoire un_mois noms))
        (medianes_par_categorie histoire)
calculer_reste_a_depenser_predit_lem_example =
    calculer_reste_a_depenser_predit_lem histoire un_mois noms

Montants-du_mois : Montants (indexer_par_categorie un_mois)
unfolding indexer_par_categorie
Montants-du_mois = (omega arith, tt)

calculer_previsionnel_exact_example :
    let p = calculer_previsionnel (pos 1000) prevus [] un_mois un_mois noms in
    let reel = indexer_par_categorie un_mois in
    (p.depenses_restantes_cents ≡ pos (restants reel prevus))
    × (p.revenus_restants_cents ≡ pos (restants reel []))
    × (p.solde_previsionnel_cents
        ≡ pos 1000 +ℤ pos (restants reel []) -ℤ pos (restants reel prevus))
    × Permᴰ p.lignes (map (ligne_prevision reel noms) prevus ++ map (ligne_prevision reel noms) [])
calculer_previsionnel_exact_example =
    calculer_previsionnel_exact (pos 1000) prevus [] un_mois un_mois noms (omega arith)
      (omega arith) tt Montants-du_mois Montants-du_mois (omega arith) (omega arith)

abbrev solde : Option Balance
solde = some (record {
  id = 1;
  bank_account = 1;
  balance_type = BalanceType.booked;
  amount_cents = negsuc 99;
  currency = codes "EUR";
  reference_date = pos 0;
  created_at = pos 0;
})

abbrev comptes : List (CompteAvecSolde ℕ)
comptes =
    record { compte = 1; solde = solde; solde_a_venir = none }
    ∷ record { compte = 2; solde = solde; solde_a_venir = solde }
    ∷ []

total_comptes : (consolider comptes).total_cents ≡ negsuc 199
unfolding consolider ◌+ℤ◌
total_comptes = refl

consolider_exact_example :
    ((consolider comptes).total_cents ≡ somme montant_courant comptes)
    × ((SansVenir comptes × ((consolider comptes).total_a_venir_cents ≡ none))
        ⊎ ((¬ SansVenir comptes)
            × ((consolider comptes).total_a_venir_cents ≡ some (somme a_venir comptes))))
consolider_exact_example = consolider_exact comptes (omega arith) (omega arith)
