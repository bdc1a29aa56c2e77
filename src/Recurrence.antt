-- ===== src/Recurrence.antt =====
-- src/domain/recurrence.rs: the payments that come back each month. Dates are numbers of days.
pub mod Grappes
use ch_api_budgy.Prelude.{
  ℕ, ◌+◌, Bool, true, false, ◌&&◌, Option, none, some, List, [], ◌∷◌, ◌++◌, map, length, filter,
  ltb, leb, if◌then◌else◌,
}
use ch_api_budgy.Prelude.Int.{ℤ, pos, leb_ℤ, ◌-ℤ◌}
use ch_api_budgy.Prelude.I64.{sub_i64, abs_i64}
use ch_api_budgy.Prelude.Sort.{sort_by}
use ch_api_budgy.Texte.{Texte, text_eq}
use ch_api_budgy.Libelle.{extraire_tiers}

abbrev pub occurrences_minimales : ℕ
occurrences_minimales = 3

abbrev pub intervalle_mensuel_min_jours : ℕ
intervalle_mensuel_min_jours = 26

abbrev pub intervalle_mensuel_max_jours : ℕ
intervalle_mensuel_max_jours = 35

abbrev pub tolerance_montant_cents : ℕ
tolerance_montant_cents = 100

pub data RecurrenceInterval : Type 0 where
  mensuel : RecurrenceInterval

pub record OccurrenceTransaction : Type 0 where
  pub id : ℕ
  pub label : Texte
  pub amount_cents : ℤ
  pub date : ℤ

pub record TransactionRecurrente : Type 0 where
  pub id : ℕ
  pub interval : RecurrenceInterval

unfoldable pub montants_proches : ℤ → ℤ → Bool
montants_proches a b = leb_ℤ (abs_i64 (sub_i64 a b)) (pos tolerance_montant_cents)

-- `entry(cle).or_default().push(occurrence)`
pub ranger :
    Texte
    → OccurrenceTransaction
    → List (Texte × List OccurrenceTransaction)
    → List (Texte × List OccurrenceTransaction)
ranger cle o [] = (cle, o ∷ []) ∷ []
ranger cle o ((c, os) ∷ groupes) = elim (text_eq c cle) [
  | true ↦ (c, os ++ o ∷ []) ∷ groupes
  | false ↦ (c, os) ∷ ranger cle o groupes
]

unfoldable pub montant_le : OccurrenceTransaction → OccurrenceTransaction → Bool
montant_le a b = leb_ℤ a.amount_cents b.amount_cents

-- The last cluster, by its first occurrence and the others, then the occurrences to come.
pub suivre :
    OccurrenceTransaction
    → List OccurrenceTransaction
    → List OccurrenceTransaction
    → List (List OccurrenceTransaction)
suivre premiere autres [] = (premiere ∷ autres) ∷ []
suivre premiere autres (o ∷ os) = elim (montants_proches premiere.amount_cents o.amount_cents) [
  | true ↦ suivre premiere (autres ++ o ∷ []) os
  | false ↦ (premiere ∷ autres) ∷ suivre o [] os
]

pub depuis : List OccurrenceTransaction → List (List OccurrenceTransaction)
unfolding suivre
depuis [] = []
depuis (o ∷ os) = suivre o [] os

unfoldable pub regrouper_par_montant :
    List OccurrenceTransaction → List (List OccurrenceTransaction)
unfolding depuis montant_le
regrouper_par_montant occurrences = depuis (sort_by montant_le occurrences)

unfoldable pub date_le : ℤ → ℤ → Bool
date_le a b = leb_ℤ a b

unfoldable pub mensuel_entre : ℤ → ℤ → Bool
mensuel_entre a b =
    leb_ℤ (pos intervalle_mensuel_min_jours) (b -ℤ a)
    && leb_ℤ (b -ℤ a) (pos intervalle_mensuel_max_jours)

-- `windows(2)`, filtered and counted.
unfoldable pub intervalles_mensuels : List ℤ → ℕ
unfolding mensuel_entre
intervalles_mensuels [] = 0
intervalles_mensuels (a ∷ []) = 0
intervalles_mensuels (a ∷ b ∷ ds) =
    let suite = intervalles_mensuels (b ∷ ds) in if mensuel_entre a b then suite + 1 else suite

unfoldable pub grappe_est_mensuelle : List OccurrenceTransaction → Bool
unfolding intervalles_mensuels date_le
grappe_est_mensuelle grappe =
    if ltb (length grappe) occurrences_minimales
    then false
    else leb 2 (intervalles_mensuels (sort_by date_le (map OccurrenceTransaction.date grappe)))

unfoldable pub recurrente : OccurrenceTransaction → TransactionRecurrente
recurrente o = record { id = o.id; interval = mensuel }

pub recurrentes_de : List (List OccurrenceTransaction) → List TransactionRecurrente
unfolding recurrente
recurrentes_de [] = []
recurrentes_de (g ∷ gs) =
    let suite = recurrentes_de gs in
    if grappe_est_mensuelle g then map recurrente g ++ suite else suite

module _ (to_uppercase : Texte → Texte) where
  unfoldable pub normaliser_marchand : Texte → Texte
  normaliser_marchand label = extraire_tiers to_uppercase label

  -- Rust's map is in no order; here the merchants come in that of their first payment.
  pub par_marchand :
      List (Texte × List OccurrenceTransaction)
      → List OccurrenceTransaction
      → List (Texte × List OccurrenceTransaction)
  unfolding ranger
  par_marchand groupes [] = groupes
  par_marchand groupes (o ∷ os) = par_marchand (ranger (normaliser_marchand o.label) o groupes) os

  pub grappes_de : List (Texte × List OccurrenceTransaction) → List (List OccurrenceTransaction)
  grappes_de [] = []
  grappes_de ((c, os) ∷ groupes) = regrouper_par_montant os ++ grappes_de groupes

  unfoldable pub detecter_recurrences : List OccurrenceTransaction → List TransactionRecurrente
  unfolding par_marchand grappes_de recurrentes_de
  detecter_recurrences occurrences = recurrentes_de (grappes_de (par_marchand [] occurrences))
