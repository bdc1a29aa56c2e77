-- ===== src/Exemples/Etats.antt =====
-- Transfers, rules, labels and the table of transactions: src/domain/transfert_interne.rs,
-- regle_categorisation.rs, libelle.rs and src/repository/bank_transactions.rs.
use ch_api_budgy.Prelude.{ℕ, ◌≡◌, refl, false, ◌⊎◌, none, some, List, [], ◌∷◌, map, All, arith}
use ch_api_budgy.Prelude.Int.{ℤ, pos, negsuc, ◌-ℤ◌}
use ch_api_budgy.Prelude.I64.{neg_i64, wrap, abs_i64}
use ch_api_budgy.Texte.{Texte, codes}
use ch_api_budgy.Transfert.{
  a_retenir, MouvementCandidat, detecter_transferts_internes, virements, couples, apparies,
  ressemblance,
}
use ch_api_budgy.Transfert.Appariement.{
  IsVirement, Distincts, detecter_transferts_internes-IsVirement,
}
use ch_api_budgy.Transfert.Completude.{Epuise, virements_complet}
use ch_api_budgy.Libelle.{remplacer, retirer_motif, extraire_tiers}
use ch_api_budgy.Libelle.Boucle.{retirer_motif_termine}
use ch_api_budgy.Regle.{RegleCategorisation, cle_le, correspond, selectionner_regle}
use ch_api_budgy.Regle.Selection.{selectionner_regle_lem, Choisie}
use ch_api_budgy.Transactions.{
  Base, TransactionBancaire, CategorizationSource, TransactionStatus, recategoriser_credits,
  recalculer_transferts_internes,
}
use ch_api_budgy.Transactions.Operations.{
  Respecte, Automatique, Automatiques, Automatiques-Respecte,
}
use ch_api_budgy.Transactions.Idempotence.{recalculer_transferts_internes_idem}

-- The conversions of case, on texts that are in capitals already.
abbrev majuscules : Texte → Texte
majuscules s = s

abbrev debit : MouvementCandidat
debit = record {
  id = 1;
  compte = 10;
  amount_cents = negsuc 9999;
  date = pos 20;
  libelle = codes "VIR MARTIN";
  range_a_la_main = false;
}

abbrev credit : MouvementCandidat
credit = record {
  id = 2;
  compte = 11;
  amount_cents = pos 10000;
  date = pos 22;
  libelle = codes "MARTIN";
  range_a_la_main = false;
}

abbrev mouvements : List MouvementCandidat
mouvements = debit ∷ credit ∷ []

virement_detecte : detecter_transferts_internes majuscules mouvements ≡ 1 ∷ 2 ∷ []
unfolding detecter_transferts_internes a_retenir neg_i64 wrap ◌-ℤ◌ abs_i64
virement_detecte = refl

detecter_transferts_internes-IsVirement_example :
    (detecter_transferts_internes majuscules mouvements
      ≡ apparies (virements majuscules mouvements))
    × All
        (λ q. IsVirement q × (q.debit.range_a_la_main ≡ false) × (q.credit.range_a_la_main ≡ false))
        (virements majuscules mouvements)
    × Distincts (map (λ q. q.debit.id) (virements majuscules mouvements))
    × Distincts (map (λ q. q.credit.id) (virements majuscules mouvements))
detecter_transferts_internes-IsVirement_example =
    detecter_transferts_internes-IsVirement (λ m. m.range_a_la_main ≡ false) majuscules mouvements
      (refl, (refl, tt))

virements_complet_example :
    All IsVirement (couples majuscules mouvements)
    × All
        (λ d.
          All
            (λ c. IsVirement (ressemblance majuscules d c) → Epuise majuscules mouvements d c)
            mouvements)
        mouvements
virements_complet_example = virements_complet majuscules mouvements

tiers : extraire_tiers majuscules (codes "VIREMENT RECU DE MME MARTIN 12") ≡ codes "MARTIN"
unfolding extraire_tiers
tiers = refl

retirer_motif_termine_example :
    remplacer (codes " MR ") (retirer_motif 9 (codes " MR ") (codes " MR MR X ")) ≡ none
retirer_motif_termine_example =
    retirer_motif_termine 9 (codes " MR ") (codes " MR MR X ") (omega arith) (omega arith)

abbrev regle : ℕ → ℤ → RegleCategorisation
regle n p = record {
  id = n;
  owner_id = codes "u";
  label_pattern = codes "MARTIN";
  category_id = 7;
  priority = p;
  created_at = pos 0;
}

abbrev regles : List RegleCategorisation
regles = regle 1 (pos 0) ∷ regle 2 (pos 5) ∷ regle 3 (pos 5) ∷ []

regle_choisie :
    selectionner_regle majuscules majuscules (codes "VIR MARTIN") regles ≡ some (regle 3 (pos 5))
unfolding selectionner_regle correspond cle_le
regle_choisie = refl

selectionner_regle_lem_example :
    ((selectionner_regle majuscules majuscules (codes "VIR MARTIN") regles ≡ none)
      × All (λ r. correspond majuscules majuscules r (codes "VIR MARTIN") ≡ false) regles)
    ⊎ ((m : RegleCategorisation) × (selectionner_regle majuscules majuscules
            (codes "VIR MARTIN")
            regles
          ≡ some m)
        × Choisie majuscules majuscules (λ r. r.category_id ≡ 7) (codes "VIR MARTIN") m regles)
selectionner_regle_lem_example =
    selectionner_regle_lem majuscules majuscules (λ r. r.category_id ≡ 7) (codes "VIR MARTIN")
      regles (refl, (refl, (refl, tt)))

abbrev ligne : ℕ → ℕ → ℤ → TransactionBancaire
ligne n compte montant = record {
  id = n;
  bank_account = compte;
  external_transaction_id = [];
  status = TransactionStatus.booked;
  label = codes "VIR MARTIN";
  amount_cents = montant;
  currency = codes "EUR";
  booking_date = some (pos 20);
  value_date = none;
  category = none;
  enveloppe = none;
  categorization_source = CategorizationSource.no_source;
  rule_id = none;
  is_recurrent = false;
  recurrence_interval = none;
  is_internal_transfer = false;
  created_at = pos 0;
}

abbrev base : Base
base = record {
  proprietaires = (10, codes "u") ∷ (11, codes "u") ∷ (12, codes "v") ∷ [];
  categories = [];
  regles = [];
  transactions = ligne 1 10 (negsuc 99) ∷ ligne 2 11 (pos 100) ∷ ligne 3 12 (pos 100) ∷ [];
}

faces_marquees : (recalculer_transferts_internes majuscules majuscules base (codes "u")).1 ≡ 2
unfolding recalculer_transferts_internes detecter_transferts_internes a_retenir neg_i64 wrap ◌-ℤ◌
    abs_i64
faces_marquees = refl

Automatiques-Respecte_example :
    Respecte
      (codes "u")
      base
      (recategoriser_credits
        (recalculer_transferts_internes majuscules majuscules base (codes "u")).0
        (codes "u")).0
Automatiques-Respecte_example = Automatiques-Respecte majuscules majuscules (codes "u") base _ (
    Automatiques.encore base _ _
      (Automatiques.encore base base _ (Automatiques.aucune base)
        (Automatique.transferts_recalcules base))
      (Automatique.credits_recategorises _))

recalculer_transferts_internes_idem_example :
    let apres = (recalculer_transferts_internes majuscules majuscules base (codes "u")).0 in
    (recalculer_transferts_internes majuscules majuscules apres (codes "u")).0.transactions
    ≡ apres.transactions
recalculer_transferts_internes_idem_example =
    recalculer_transferts_internes_idem majuscules majuscules base (codes "u")
