-- ===== src/Transactions/Recurrences.antt =====
-- The payments that come back, in the table: `recalculer_recurrences` of
-- src/repository/bank_transactions.rs.
pub mod Reprise
use ch_api_budgy.Prelude.{
  ℕ, Bool, true, false, not, ◌&&◌, Option, none, some, List, [], ◌∷◌, map, contains, if◌then◌else◌,
}
use ch_api_budgy.Prelude.Int.{ℤ}
use ch_api_budgy.Texte.{Texte, is_empty}
use ch_api_budgy.Recurrence.{
  OccurrenceTransaction, RecurrenceInterval, TransactionRecurrente, detecter_recurrences,
}
use ch_api_budgy.Transactions.{
  Base, TransactionBancaire, date_effective, est_a, touchees, update_where,
}

pub record OccurrenceRecurrente : Type 0 where
  pub category_id : Option ℕ
  pub label : Texte
  pub amount_cents : ℤ
  pub date : ℤ

pub occurrence : TransactionBancaire → ℤ → OccurrenceTransaction
occurrence t date = record {
  id = t.id;
  label = t.label;
  amount_cents = t.amount_cents;
  date = date;
}

-- `WHERE a.owner_id = … AND NOT t.is_internal_transfer`, without the undated.
pub occurrences_de : Base → Texte → List TransactionBancaire → List OccurrenceTransaction
unfolding date_effective occurrence
occurrences_de base proprietaire [] = []
occurrences_de base proprietaire (t ∷ ts) =
    let rest = occurrences_de base proprietaire ts in
    if est_a base proprietaire t && not t.is_internal_transfer
    then elim (date_effective t) [ none ↦ rest | some date ↦ occurrence t date ∷ rest ]
    else rest

pub lister_occurrences_pour_detection : Base → Texte → List OccurrenceTransaction
unfolding occurrences_de
lister_occurrences_pour_detection base proprietaire =
    occurrences_de base proprietaire base.transactions

pub recurrents_de : Base → Texte → List TransactionBancaire → List OccurrenceRecurrente
unfolding date_effective
recurrents_de base proprietaire [] = []
recurrents_de base proprietaire (t ∷ ts) =
    let rest = recurrents_de base proprietaire ts in
    if est_a base proprietaire t && t.is_recurrent && not t.is_internal_transfer
    then elim (date_effective t) [
      | none ↦ rest
      | some date ↦
          record {
            category_id = t.category;
            label = t.label;
            amount_cents = t.amount_cents;
            date = date;
          }
          ∷ rest
    ]
    else rest

pub lister_recurrents_pour_proprietaire : Base → Texte → List OccurrenceRecurrente
unfolding recurrents_de
lister_recurrents_pour_proprietaire base proprietaire =
    recurrents_de base proprietaire base.transactions

-- What each `UPDATE` sets, and its `WHERE`.
pub oublier : TransactionBancaire → TransactionBancaire
oublier t = record t { is_recurrent = false; recurrence_interval = none }

pub retenir : RecurrenceInterval → TransactionBancaire → TransactionBancaire
retenir interval t = record t { is_recurrent = true; recurrence_interval = some interval }

pub a_oublier : Base → Texte → TransactionBancaire → Bool
a_oublier base proprietaire t = est_a base proprietaire t && t.is_recurrent

pub a_retenir : Base → Texte → List ℕ → TransactionBancaire → Bool
a_retenir base proprietaire ids t = est_a base proprietaire t && contains t.id ids

pub reinitialiser_recurrences : Base → Texte → Base
unfolding a_oublier oublier
reinitialiser_recurrences base proprietaire =
    update_where (a_oublier base proprietaire) oublier base

pub marquer_recurrentes : Base → Texte → RecurrenceInterval → List ℕ → Base × ℕ
unfolding a_retenir retenir
marquer_recurrentes base proprietaire interval ids = if is_empty ids then (base, 0) else (
  update_where (a_retenir base proprietaire ids) (retenir interval) base,
  touchees (a_retenir base proprietaire ids) base.transactions,
)

module _ (to_uppercase : Texte → Texte) where
  abbrev pub ids_recurrents : Base → Texte → List ℕ
  ids_recurrents base proprietaire =
      map TransactionRecurrente.id
        (detecter_recurrences to_uppercase (lister_occurrences_pour_detection base proprietaire))

  -- The one interval is the month.
  pub recalculer_recurrences : Base → Texte → Base × ℕ
  unfolding reinitialiser_recurrences marquer_recurrentes lister_occurrences_pour_detection
  recalculer_recurrences base proprietaire =
      marquer_recurrentes (reinitialiser_recurrences base proprietaire) proprietaire
        RecurrenceInterval.mensuel (ids_recurrents base proprietaire)
