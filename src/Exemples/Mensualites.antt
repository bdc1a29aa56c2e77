-- ===== src/Exemples/Mensualites.antt =====
-- Payments that come back: src/domain/recurrence.rs, src/repository/bank_transactions.rs.
use ch_api_budgy.Prelude.Sort.{sort_by}
use mathlib.Core.List.{Permᴰ}
use ch_api_budgy.Prelude.{ℕ, ◌≡◌, refl, true, false, none, some, List, [], ◌∷◌, All, map, filter}
use ch_api_budgy.Prelude.Int.{ℤ, pos, negsuc, ◌-ℤ◌}
use ch_api_budgy.Texte.{Texte, codes}
use ch_api_budgy.Recurrence.{
  OccurrenceTransaction, detecter_recurrences, grappe_est_mensuelle, recurrente,
}
use ch_api_budgy.Recurrence.Grappes.{EstGrappe, detecter_recurrences_lem, grappes, reunion}
use ch_api_budgy.Transactions.{Base, CategorizationSource, TransactionBancaire, TransactionStatus}
use ch_api_budgy.Transactions.Recurrences.{ids_recurrents, recalculer_recurrences}
use ch_api_budgy.Transactions.Recurrences.Reprise.{
  recalculer_recurrences_idem, recalculer_recurrences_lem, reprise,
}

abbrev paiement : ℕ → ℤ → ℤ → OccurrenceTransaction
paiement n montant jour = record {
  id = n;
  label = codes "LOYER";
  amount_cents = montant;
  date = jour;
}

-- Three rents a month apart, and one purchase.
abbrev paiements : List OccurrenceTransaction
paiements =
    paiement 1 (negsuc 799) (pos 10)
    ∷ paiement 2 (negsuc 12) (pos 12)
    ∷ paiement 3 (negsuc 809) (pos 40)
    ∷ paiement 4 (negsuc 799) (pos 71)
    ∷ []

abbrev id_texte : Texte → Texte
id_texte s = s

detecter_recurrences_lem_example :
    Permᴰ (reunion (grappes id_texte paiements)) paiements
    × All (EstGrappe id_texte) (grappes id_texte paiements)
    × (detecter_recurrences id_texte paiements
        ≡ map recurrente (reunion (filter grappe_est_mensuelle (grappes id_texte paiements))))
detecter_recurrences_lem_example = detecter_recurrences_lem id_texte paiements

grappe_est_mensuelle-loyers :
    grappe_est_mensuelle (
      paiement 1 (negsuc 799) (pos 10)
      ∷ paiement 3 (negsuc 809) (pos 40)
      ∷ paiement 4 (negsuc 799) (pos 71)
      ∷ [])
    ≡ true
unfolding grappe_est_mensuelle sort_by ◌-ℤ◌
grappe_est_mensuelle-loyers = refl

abbrev operation : ℕ → ℤ → ℤ → TransactionBancaire
operation n montant jour = record {
  id = n;
  bank_account = 10;
  external_transaction_id = [];
  status = TransactionStatus.booked;
  label = codes "LOYER";
  amount_cents = montant;
  currency = codes "EUR";
  booking_date = some jour;
  value_date = none;
  category = none;
  enveloppe = none;
  categorization_source = CategorizationSource.no_source;
  rule_id = none;
  is_recurrent = false;
  recurrence_interval = none;
  is_internal_transfer = false;
  created_at = pos 0;
}

abbrev base : Base
base = record {
  proprietaires = (10, codes "a") ∷ [];
  categories = [];
  regles = [];
  transactions =
      operation 1 (negsuc 799) (pos 10)
      ∷ operation 3 (negsuc 809) (pos 40)
      ∷ operation 4 (negsuc 799) (pos 71)
      ∷ [];
}

recalculer_recurrences_lem_example :
    (recalculer_recurrences id_texte base (codes "a")).0.transactions
    ≡ map (reprise base (codes "a") (ids_recurrents id_texte base (codes "a"))) base.transactions
recalculer_recurrences_lem_example = recalculer_recurrences_lem id_texte base (codes "a")

recalculer_recurrences_idem_example :
    (recalculer_recurrences id_texte
      (recalculer_recurrences id_texte base (codes "a")).0
      (codes "a")).0.transactions
    ≡ (recalculer_recurrences id_texte base (codes "a")).0.transactions
recalculer_recurrences_idem_example = recalculer_recurrences_idem id_texte base (codes "a")
