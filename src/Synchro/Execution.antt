-- ===== src/Synchro/Execution.antt =====
-- The run of src/domain/synchro.rs, account by account, with the events in the order in which they
-- are published.
pub mod Reponse
pub mod Deroulement
pub mod Terminaison
use ch_api_budgy.Prelude.{
  ℕ, ◌+◌, Bool, true, false, Option, none, some, List, [], ◌∷◌, ◌++◌, Result, ok, err, ◌==◌,
  if◌then◌else◌,
}
use ch_api_budgy.Prelude.Int.{ℤ, ◌+ℤ◌, ◌-ℤ◌}
use ch_api_budgy.Texte.{Texte}
use ch_api_budgy.Budget.Solde.{Balance}
use ch_api_budgy.Transactions.{TransactionBancaire}
use ch_api_budgy.Transactions.Insertion.{ResultatInsertion, inseree, doublon}
use ch_api_budgy.Synchro.{
  BankAccount, BankDataSourceError, CompteEcheant, Consent, ConsentStatus, EvenementSynchro,
  ParametresSynchro, PlanificationSynchro, Ports, RapportSynchro, RemonteeCompte, SynchroError,
  TypeEvenementSynchro, account_transactions, autre, balance_updated, consent_expired,
  consent_renewal_required, consentement_expire, consentement_invalide, ecriture, evenement,
  lecture, rapport_vide, renouvellement_requis, sync_failed, sync_started, sync_succeeded,
  vers_nouvelle_balance, vers_nouvelle_transaction, vue_bank_account,
}

pub record Etat (Monde : Type 0) : Type 0 where
  pub monde : Monde
  pub evenements : List EvenementSynchro
  pub rapport : RapportSynchro

module _ (ports : Ports) (parametres : ParametresSynchro) (maintenant : ℤ) where
  open ports use {
    Monde, date_naive, lister_comptes_echeants, reserver_creneau, marquer_statut, solde,
    lister_transactions, enregistrer_solde, enregistrer, recalculer_recurrences,
  }

  pub publier : EvenementSynchro → Etat Monde → Etat Monde
  publier e s = record s { evenements = s.evenements ++ e ∷ [] }

  pub compter : (RapportSynchro → RapportSynchro) → Etat Monde → Etat Monde
  compter f s = record s { rapport = f s.rapport }

  unfoldable pub plan_apres_synchro : PlanificationSynchro
  plan_apres_synchro = record {
    next_sync_at = maintenant +ℤ parametres.intervalle;
    last_sync_day = date_naive maintenant;
    last_sync_at = maintenant;
  }

  pub depuis_pour : BankAccount → ℤ
  depuis_pour compte = date_naive (
      elim compte.next_sync_at [ none ↦ compte.created_at | some t ↦ t ]
      -ℤ parametres.fenetre_transactions)

  -- One balance, one transaction: a failed write is passed over.
  pub un_solde : Bool → Etat Monde → RemonteeCompte → Etat Monde × RemonteeCompte
  unfolding compter
  un_solde true s r = (
    compter (λ p. record p { soldes_enregistres = p.soldes_enregistres + 1 }) s,
    record r { solde_mis_a_jour = true },
  )
  un_solde false s r = (s, r)

  pub une_transaction :
      Option ResultatInsertion → Etat Monde → RemonteeCompte → Etat Monde × RemonteeCompte
  unfolding compter
  une_transaction none s r = (s, r)
  une_transaction (some (inseree _)) s r = (
    compter (λ p. record p { transactions_inserees = p.transactions_inserees + 1 }) s,
    record r { transactions_inserees = r.transactions_inserees + 1 },
  )
  une_transaction (some doublon) s r =
      (compter (λ p. record p { transactions_doublons = p.transactions_doublons + 1 }) s, r)

  pub les_soldes : List Balance → Etat Monde × RemonteeCompte → Etat Monde × RemonteeCompte
  unfolding un_solde vers_nouvelle_balance
  les_soldes [] (s, r) = (s, r)
  les_soldes (b ∷ bs) (s, r) =
      let (m, ecrit) = enregistrer_solde s.monde (vers_nouvelle_balance b) in
      les_soldes bs (un_solde ecrit (record s { monde = m }) r)

  pub les_transactions :
      ℕ → List TransactionBancaire → Etat Monde × RemonteeCompte → Etat Monde × RemonteeCompte
  unfolding une_transaction vers_nouvelle_transaction
  les_transactions compte [] (s, r) = (s, r)
  les_transactions compte (t ∷ ts) (s, r) =
      let (m, resultat) = enregistrer s.monde (vers_nouvelle_transaction compte t) in
      les_transactions compte ts (une_transaction resultat (record s { monde = m }) r)

  -- What was written stays written when the second call of the bank fails.
  pub apres_transactions :
      ℕ
      → Etat Monde × RemonteeCompte
      → Result BankDataSourceError (List TransactionBancaire)
      → Etat Monde × Result BankDataSourceError RemonteeCompte
  unfolding les_transactions
  apres_transactions compte (s, r) (err e) = (s, err e)
  apres_transactions compte (s, r) (ok ts) =
      let (s', r') = les_transactions compte ts (s, r) in (s', ok r')

  pub apres_soldes :
      Consent
      → BankAccount
      → Etat Monde
      → Result BankDataSourceError (List Balance)
      → Etat Monde × Result BankDataSourceError RemonteeCompte
  unfolding les_soldes apres_transactions depuis_pour
  apres_soldes consent compte s (err e) = (s, err e)
  apres_soldes consent compte s (ok bs) =
      let r = les_soldes bs (s, record { transactions_inserees = 0; solde_mis_a_jour = false }) in
      apres_transactions compte.id r
        (lister_transactions r.0.monde consent compte (depuis_pour compte))

  unfoldable pub remonter_donnees :
      Consent → BankAccount → Etat Monde → Etat Monde × Result BankDataSourceError RemonteeCompte
  unfolding apres_soldes
  remonter_donnees consent compte s = apres_soldes consent compte s (solde s.monde consent compte)

  pub recalculer_recurrences_apres_insertion : Texte → RemonteeCompte → Etat Monde → Etat Monde
  recalculer_recurrences_apres_insertion proprietaire r s =
      if r.transactions_inserees == 0
      then s
      else record s { monde = recalculer_recurrences s.monde proprietaire }

  pub publier_succes : Texte → ℕ → RemonteeCompte → Etat Monde → Etat Monde
  unfolding publier evenement
  publier_succes proprietaire compte r s =
      let n = some r.transactions_inserees in
      let s' =
        if r.solde_mis_a_jour
        then publier (evenement balance_updated proprietaire (some compte) none maintenant) s
        else s in
      publier (evenement sync_succeeded proprietaire (some compte) n maintenant)
        (publier (evenement account_transactions proprietaire (some compte) n maintenant) s')

  -- A consent that the bank or its date refuses; `none` is a failed write, which ends the run.
  pub apres_marquage : Texte → Etat Monde → Option Monde → Option (Etat Monde)
  unfolding publier compter evenement
  apres_marquage proprietaire s none = none
  apres_marquage proprietaire s (some m) = some (
      publier (evenement consent_expired proprietaire none none maintenant) (
        compter (λ p. record p { consentements_expires = p.consentements_expires + 1 })
          (record s { monde = m })))

  pub expirer : Texte → ℕ → Etat Monde → Option (Etat Monde)
  unfolding apres_marquage
  expirer proprietaire consent s =
      apres_marquage proprietaire s (marquer_statut s.monde consent ConsentStatus.expired)

  pub traiter_echec_source : Texte → ℕ → BankDataSourceError → Etat Monde → Option (Etat Monde)
  unfolding expirer
  traiter_echec_source proprietaire consent consentement_invalide s = expirer proprietaire consent s
  traiter_echec_source proprietaire consent autre s = some s

  pub conclure :
      Texte → ℕ → ℕ → Etat Monde × Result BankDataSourceError RemonteeCompte → Option (Etat Monde)
  unfolding recalculer_recurrences_apres_insertion publier_succes traiter_echec_source publier
      evenement compter
  conclure proprietaire compte consent (s, ok r) = some (
      compter (λ p. record p { comptes_synchronises = p.comptes_synchronises + 1 })
        (publier_succes proprietaire compte r
          (recalculer_recurrences_apres_insertion proprietaire r s)))
  conclure proprietaire compte consent (s, err e) =
      traiter_echec_source proprietaire consent e
        (publier (evenement sync_failed proprietaire (some compte) none maintenant) s)

  pub avec_creneau : CompteEcheant → Etat Monde → Bool → Option (Etat Monde)
  unfolding compter conclure
  avec_creneau e s false =
      some (compter (λ p. record p { comptes_ignores_quota = p.comptes_ignores_quota + 1 }) s)
  avec_creneau e s true =
      let p = e.compte.proprietaire in
      let c = e.compte.id in
      let debute = publier (evenement sync_started p (some c) none maintenant) s in
      let prevenu =
        if renouvellement_requis e.consent maintenant parametres.marge_renouvellement
        then publier (evenement consent_renewal_required p none none maintenant) debute
        else debute in
      conclure p c e.consent.id
        (remonter_donnees e.consent (vue_bank_account e.compte maintenant) prevenu)

  pub apres_reservation : CompteEcheant → Etat Monde → Option (Monde × Bool) → Option (Etat Monde)
  unfolding avec_creneau
  apres_reservation e s none = none
  apres_reservation e s (some (m, reserve)) = avec_creneau e (record s { monde = m }) reserve

  pub synchroniser_compte : CompteEcheant → Etat Monde → Option (Etat Monde)
  unfolding expirer apres_reservation
  synchroniser_compte e s =
      if consentement_expire e.consent maintenant
      then expirer e.compte.proprietaire e.consent.id s
      else apres_reservation e s
          (reserver_creneau s.monde e.compte.id plan_apres_synchro parametres.quota_journalier)

  pub tous : List CompteEcheant → Etat Monde → Option (Etat Monde)
  unfolding synchroniser_compte compter
  tous [] s = some s
  tous (e ∷ es) s =
      elim (synchroniser_compte e
        (compter (λ p. record p { comptes_evalues = p.comptes_evalues + 1 }) s)) [
          | none ↦ none
          | some s' ↦ tous es s'
        ]

  unfoldable pub executer : Monde → Result SynchroError (Etat Monde)
  unfolding tous
  executer m = elim (lister_comptes_echeants m maintenant parametres.quota_journalier) [
    | none ↦ err lecture
    | some es ↦ elim (tous es (record { monde = m; evenements = []; rapport = rapport_vide })) [
      | none ↦ err ecriture
      | some s ↦ ok s
    ]
  ]
