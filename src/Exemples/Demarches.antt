-- ===== src/Exemples/Demarches.antt =====
-- Consents that are completed, months that are typed, envelopes: src/handlers/banques.rs,
-- src/domain/depense.rs, src/repository/enveloppes.rs.
use ch_api_budgy.Prelude.I64.{add_i64, neg_i64, wrap}
use ch_api_budgy.Comptes.Rattachement.{proprietaire_concurrent}
use ch_api_budgy.Consents.{est_le_consent, fetch_pour_proprietaire}
use ch_api_budgy.Prelude.{ℕ, ◌≡◌, refl, false, none, some, [], ◌∷◌, Result, ok, err, arith}
use ch_api_budgy.Prelude.Int.{ℤ, pos, negsuc, ◌+ℤ◌, ◌-ℤ◌}
use ch_api_budgy.Prelude.Map.{get}
use ch_api_budgy.Texte.{Texte, codes, octets, is_whitespace, trim}
use ch_api_budgy.Cycle.Saisie.{fmt, hors_plage, parse, chiffres, borne, nombre, split_once}
use ch_api_budgy.Cycle.Saisie.Relecture.{parse-fmt}
use ch_api_budgy.Synchro.{BankAccount, Consent, ConsentStatus}
use ch_api_budgy.Comptes.{BankAccountRow, Banque}
use ch_api_budgy.Banques.{Contexte, complete_consent, conflict, est_en_attente}
use ch_api_budgy.Banques.Isolement.{Intacts, complete_consent-Intacts}
use ch_api_budgy.Banques.Refus.{EstRefuse, complete_consent_conflit}
use ch_api_budgy.Transactions.{
  Base, CategorizationSource, TransactionBancaire, TransactionStatus, est_a,
}
use ch_api_budgy.EnableBanking.{
  ReponseInvalide, TransactionWire, montant_en_centimes, reference_externe,
  transaction_sans_reference, vers_transaction, centupler, centimes_arrondis, parser_entier,
}
use ch_api_budgy.EnableBanking.Montants.{Fidele, vers_transaction-Fidele}
use ch_api_budgy.Enveloppe.{consommations}
use ch_api_budgy.Enveloppe.Suivi.{bilan, get-consommations, les_siennes}

abbrev consent : Consent
consent = record {
  id = 1;
  proprietaire = codes "b";
  external_ref = [];
  etablissement = none;
  status = ConsentStatus.pending;
  expires_at = none;
  created_at = pos 0;
  updated_at = pos 0;
}

-- Somebody else's account.
abbrev compte : BankAccountRow
compte = record {
  id = 10;
  owner_id = codes "a";
  consent_id = 2;
  external_account_id = codes "x";
  iban = [];
  iban_masked = [];
  currency = codes "EUR";
  next_sync_at = none;
  last_sync_at = none;
  sync_count_today = 0;
  last_sync_day = none;
  dedup_key = codes "x";
  empreinte_compte = some (codes "x");
  created_at = pos 0;
  updated_at = pos 0;
}

abbrev banque : Banque
banque = record { consents = consent ∷ []; comptes = compte ∷ []; soldes = [] }

abbrev recu : Texte → BankAccount
recu externe = record {
  id = 0;
  proprietaire = codes "b";
  consent = 1;
  external_account_id = externe;
  iban_masked = [];
  currency = codes "EUR";
  next_sync_at = none;
  sync_count_today = 0;
  created_at = pos 0;
  updated_at = pos 0;
}

-- A bank that returns an account of its own, then that of somebody else.
abbrev contexte : Contexte
contexte = record {
  Source = ℕ;
  parse_uuid = λ t. some 1;
  dedup_key = λ c t. t;
  empreinte_compte = λ t. t;
  bank_callback_url = [];
  initier_consentement = λ s d. (s, ok (record { consent = consent; url_autorisation = [] }));
  completer_consentement = λ s p r. (s, ok consent);
  lister_comptes = λ s c. (s, ok (recu (codes "y") ∷ recu (codes "x") ∷ []));
}

complete_consent-Intacts_example :
    Intacts
      (codes "b")
      banque
      (complete_consent contexte (codes "b") (codes "s") (codes "c") (pos 5) 11 (banque, 0)).0.0
complete_consent-Intacts_example =
    complete_consent-Intacts contexte (codes "b") (codes "s") (codes "c") (pos 5) 11 banque 0

complete_consent_conflit_example :
    ((complete_consent contexte (codes "b") (codes "s") (codes "c") (pos 5) 11 (banque, 0)).1
      ≡ err conflict)
    × EstRefuse contexte
        (codes "b")
        banque
        1
        (complete_consent contexte (codes "b") (codes "s") (codes "c") (pos 5) 11 (banque, 0)).0.0
unfolding fetch_pour_proprietaire est_le_consent est_en_attente proprietaire_concurrent
complete_consent_conflit_example =
    complete_consent_conflit contexte (codes "b") (codes "s") (codes "c") (pos 5) 11 banque 0 0 0 1
      consent consent (recu (codes "y") ∷ []) [] (recu (codes "x")) (codes "a") refl refl refl refl
      refl refl

parse-fmt_example :
    parse (fmt (record { annee = pos 2026; mois = 3 })) ≡ ok (record { annee = pos 2026; mois = 3 })
parse-fmt_example = parse-fmt 2026 3 (omega arith) (omega arith) (omega arith)

fmt-mars : fmt (record { annee = pos 2026; mois = 3 }) ≡ codes "2026-03"
unfolding fmt
fmt-mars = refl

parse-treize : parse (codes "2026-13") ≡ err hors_plage
unfolding parse octets borne nombre chiffres
parse-treize = refl

abbrev depense : ℕ → ℤ → TransactionBancaire
depense n montant = record {
  id = n;
  bank_account = 10;
  external_transaction_id = [];
  status = TransactionStatus.booked;
  label = codes "VOL";
  amount_cents = montant;
  currency = codes "EUR";
  booking_date = some (pos n);
  value_date = none;
  category = none;
  enveloppe = some 7;
  categorization_source = CategorizationSource.no_source;
  rule_id = none;
  is_recurrent = false;
  recurrence_interval = none;
  is_internal_transfer = false;
  created_at = pos 0;
}

abbrev base : Base
base = record {
  proprietaires = (10, codes "a") ∷ [];
  categories = [];
  regles = [];
  transactions = depense 1 (negsuc 499) ∷ depense 2 (pos 200) ∷ [];
}

get-consommations_example :
    get 7 (consommations base (codes "a"))
    ≡ bilan (les_siennes base (codes "a") 7 base.transactions)
unfolding est_a
get-consommations_example = get-consommations base (codes "a") 7 (omega arith) (omega arith)

-- A refund of 2 euros after an expense of 5.
consommations-remboursement :
    get 7 (consommations base (codes "a"))
    ≡ some (record { depense_cents = pos 300; nombre = pos 2 })
unfolding consommations est_a add_i64 wrap ◌+ℤ◌ neg_i64 ◌-ℤ◌
consommations-remboursement = refl

-- A debit whose amount has no sign.
abbrev operation : TransactionWire
operation = record {
  entry_reference = none;
  transaction_id = some (codes "t1");
  transaction_amount = record { amount = codes " 12.345 "; currency = codes "EUR" };
  credit_debit_indicator = some (codes "DBIT");
  status = codes "BOOK";
  booking_date = none;
  value_date = none;
  remittance_information = [];
}

montant_en_centimes-arrondi :
    montant_en_centimes (record { amount = codes " 12.345 "; currency = codes "EUR" })
    ≡ ok (pos 1235)
unfolding montant_en_centimes trim is_whitespace centimes_arrondis split_once parser_entier borne
    nombre chiffres add_i64 wrap ◌+ℤ◌ centupler
montant_en_centimes-arrondi = refl

abbrev lue : Result ReponseInvalide TransactionBancaire
lue =
    vers_transaction (λ t. 0) (λ n. []) (λ t. t) (λ t. none) (λ t. none) (λ d. d) operation
      (recu (codes "x")) (pos 5)

vers_transaction-Fidele_example :
    (reference_externe operation ≡ none → lue ≡ err transaction_sans_reference)
    × Fidele operation (recu (codes "x")) lue
vers_transaction-Fidele_example =
    vers_transaction-Fidele (λ t. 0) (λ n. []) (λ t. t) (λ t. none) (λ t. none) (λ d. d) operation
      (recu (codes "x")) (pos 5)
