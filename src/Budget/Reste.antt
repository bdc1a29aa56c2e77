-- ===== src/Budget/Reste.antt =====
-- src/domain/reste_a_depenser.rs: what is left to spend, by budget or by prediction.
pub mod Lignes
use ch_api_budgy.Prelude.{
  ℕ, Bool, Option, none, some, List, [], ◌∷◌, map, unwrap_or, if◌then◌else◌, ◌||◌, ◌&&◌,
}
use ch_api_budgy.Prelude.Int.{ℤ, pos, ltb_ℤ, leb_ℤ, eqb_ℤ, max_ℤ}
use ch_api_budgy.Prelude.I64.{sub_i64}
use ch_api_budgy.Prelude.Sort.{sort_by}
use ch_api_budgy.Prelude.Map.{Map, get}
use ch_api_budgy.Texte.{Texte, text_le}
use ch_api_budgy.Categorie.{Category}
use ch_api_budgy.Agregation.{RepartitionDepenses, indexer_par_categorie, medianes_par_categorie}

-- src/domain/budget.rs; `mois` is the day number of its first day.
pub record Budget : Type 0 where
  pub id : ℕ
  pub owner_id : Texte
  pub category_id : ℕ
  pub montant_prevu_cents : ℤ
  pub mois : ℤ
  pub created_at : ℤ
  pub updated_at : ℤ

pub record ResteCategorie : Type 0 where
  pub category_id : ℕ
  pub category : Option Category
  pub montant_prevu_cents : ℤ
  pub depense_cents : ℤ
  pub reste_cents : ℤ
  pub depassement_cents : ℤ
  pub depasse : Bool

pub nom_categorie : ResteCategorie → Texte
nom_categorie l = elim l.category [ none ↦ [] | some c ↦ c.name ]

pub reste_avant : ResteCategorie → ResteCategorie → Bool
unfolding nom_categorie
reste_avant a b =
    ltb_ℤ a.reste_cents b.reste_cents
    || (eqb_ℤ a.reste_cents b.reste_cents && text_le (nom_categorie a) (nom_categorie b))

pub trier_par_reste_croissant : List ResteCategorie → List ResteCategorie
unfolding sort_by reste_avant
trier_par_reste_croissant = sort_by reste_avant

pub ligne_pour_budget : Map ℤ → Map Category → Budget → ResteCategorie
unfolding sub_i64
ligne_pour_budget depenses categories b =
    let depense = unwrap_or (get b.category_id depenses) (pos 0) in
    record {
      category_id = b.category_id;
      category = get b.category_id categories;
      montant_prevu_cents = b.montant_prevu_cents;
      depense_cents = depense;
      reste_cents = sub_i64 b.montant_prevu_cents depense;
      depassement_cents = max_ℤ (sub_i64 depense b.montant_prevu_cents) (pos 0);
      depasse = ltb_ℤ b.montant_prevu_cents depense;
    }

pub calculer_reste_a_depenser :
    List Budget → RepartitionDepenses → Map Category → List ResteCategorie
unfolding trier_par_reste_croissant ligne_pour_budget
calculer_reste_a_depenser budgets depenses categories =
    let par_categorie = indexer_par_categorie depenses in
    trier_par_reste_croissant (map (ligne_pour_budget par_categorie categories) budgets)

pub ligne_predite : Map ℤ → Map Category → ℕ × ℤ → ResteCategorie
unfolding sub_i64
ligne_predite reel categories (k, prevu) =
    let depense = unwrap_or (get k reel) (pos 0) in
    record {
      category_id = k;
      category = get k categories;
      montant_prevu_cents = prevu;
      depense_cents = depense;
      reste_cents = sub_i64 prevu depense;
      depassement_cents = max_ℤ (sub_i64 depense prevu) (pos 0);
      depasse = ltb_ℤ prevu depense;
    }

pub calculer_reste_a_depenser_predit :
    List RepartitionDepenses → RepartitionDepenses → Map Category → List ResteCategorie
unfolding trier_par_reste_croissant ligne_predite
calculer_reste_a_depenser_predit historique courant categories =
    let reel = indexer_par_categorie courant in
    trier_par_reste_croissant
      (map (ligne_predite reel categories) (medianes_par_categorie historique))
