-- ===== src/Exemples/Synchronisation.antt =====
-- A synchronisation of one account: src/domain/synchro.rs.
use ch_api_budgy.Prelude.{
  ℕ, ◌≡◌, refl, ◌+◌, true, Option, none, some, List, [], ◌∷◌, ◌++◌, Result, ok, err, ltb,
}
use ch_api_budgy.Prelude.Int.{pos, ◌+ℤ◌}
use ch_api_budgy.Texte.{codes}
use ch_api_budgy.Synchro.{
  CompteEcheant, Consent, ConsentStatus, ParametresSynchro, Ports, TypeEvenementSynchro,
  SynchroError, account_transactions, rapport_vide, renouvellement_requis, sync_started,
  sync_succeeded, consentement_expire,
}
use ch_api_budgy.Synchro.Execution.{Etat, executer, remonter_donnees, synchroniser_compte}
use ch_api_budgy.Synchro.Execution.Terminaison.{synchroniser_compte_aboutit}
use ch_api_budgy.Synchro.Execution.Deroulement.{
  Deroulement, Pour, types, synchroniser_compte-Deroulement,
}

abbrev consent : Consent
consent = record {
  id = 1;
  proprietaire = codes "u";
  external_ref = [];
  etablissement = none;
  status = ConsentStatus.active;
  expires_at = some (pos 900);
  created_at = pos 0;
  updated_at = pos 0;
}

abbrev echeant : CompteEcheant
echeant = record {
  compte = record {
    id = 10;
    proprietaire = codes "u";
    consent = 1;
    external_account_id = [];
    currency = codes "EUR";
    sync_count_today = 0;
    last_sync_day = none;
  };
  consent = consent;
}

-- The outside as the number of the synchronisations of the day.
abbrev ports : Ports
ports = record {
  Monde = ℕ;
  date_naive = λ t. t;
  lister_comptes_echeants = λ m t q. some (echeant ∷ []);
  reserver_creneau = λ m c p q. some (m + 1, ltb m q);
  marquer_statut = λ m c s. some m;
  solde = λ m c b. ok [];
  lister_transactions = λ m c b d. ok [];
  enregistrer_solde = λ m b. (m, true);
  enregistrer = λ m t. (m, none);
  recalculer_recurrences = λ m p. m;
}

abbrev parametres : ParametresSynchro
parametres = record {
  quota_journalier = 4;
  intervalle = pos 360;
  fenetre_transactions = pos 43200;
  marge_renouvellement = pos 10;
}

abbrev depart : Etat ℕ
depart = record { monde = 0; evenements = []; rapport = rapport_vide }

-- The types of the events of a run, and the number of accounts that it looked at.
abbrev bilan : Result SynchroError (Etat ℕ) → Option (List TypeEvenementSynchro × ℕ)
bilan (ok s) = some (types s, s.rapport.comptes_evalues)
bilan (err _) = none

un_compte :
    bilan (executer ports parametres (pos 100) 0)
    ≡ some (sync_started ∷ account_transactions ∷ sync_succeeded ∷ [], 1)
unfolding executer remonter_donnees renouvellement_requis ◌+ℤ◌ consentement_expire
un_compte = refl

synchroniser_compte-Deroulement_example :
    Pour
      (λ s'.
        (ts : List TypeEvenementSynchro) × (types s' ≡ types depart ++ ts)
        × Deroulement ports parametres (pos 100) echeant 0 ts)
      (synchroniser_compte ports parametres (pos 100) echeant depart)
synchroniser_compte-Deroulement_example =
    synchroniser_compte-Deroulement ports parametres (pos 100) echeant depart

synchroniser_compte_aboutit_example :
    (s' : Etat ℕ) × (synchroniser_compte ports parametres (pos 100) echeant depart ≡ some s')
synchroniser_compte_aboutit_example =
    synchroniser_compte_aboutit ports parametres (pos 100) (λ m c t. (m, refl))
      (λ m c p q. ((m + 1, ltb m q), refl)) echeant depart
