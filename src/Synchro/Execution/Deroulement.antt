-- ===== src/Synchro/Execution/Deroulement.antt =====
-- The events of a synchronisation, src/domain/synchro.rs.
use mathlib.Core.List.{append-nil, append_assoc}
use mathlib.Core.Path.{ap₂}
use ch_api_budgy.Prelude.{
  ℕ, ◌≡◌, refl, sym, ap, ◌∙◌, Bool, true, false, Option, none, some, List, [], ◌∷◌, ◌++◌, map,
  Result, ok, err, if◌then◌else◌, ◌==◌, Bool-cases, inl, inr,
}
use ch_api_budgy.Prelude.Int.{ℤ}
use ch_api_budgy.Texte.{Texte}
use ch_api_budgy.Budget.Solde.{Balance}
use ch_api_budgy.Transactions.{TransactionBancaire}
use ch_api_budgy.Transactions.Insertion.{ResultatInsertion, inseree, doublon}
use ch_api_budgy.Synchro.{
  BankAccount, BankDataSourceError, CompteEcheant, Consent, ConsentStatus, EvenementSynchro,
  ParametresSynchro, Ports, RemonteeCompte, TypeEvenementSynchro, account_transactions, autre,
  balance_updated, consent_expired, consent_renewal_required, consentement_expire,
  consentement_invalide, evenement, renouvellement_requis, sync_failed, sync_started,
  sync_succeeded, vue_bank_account, vers_nouvelle_balance, vers_nouvelle_transaction,
}
use ch_api_budgy.Synchro.Execution.{
  Etat, plan_apres_synchro, apres_marquage, apres_reservation, apres_soldes, apres_transactions,
  avec_creneau, conclure, expirer, les_soldes, les_transactions, depuis_pour, publier,
  publier_succes, recalculer_recurrences_apres_insertion, remonter_donnees, synchroniser_compte,
  traiter_echec_source, un_solde, une_transaction,
}
use ch_api_budgy.Synchro.Execution.Reponse.{
  Bientot, Bientot_lem, Demande, Valide, Valide_lem, ecrit, remonter_donnees_lem, reponse,
}

abbrev pub si : Bool → TypeEvenementSynchro → List TypeEvenementSynchro
si b e = if b then e ∷ [] else []

-- The events after the start, by the answer of the bank: whether a balance was written, or why the
-- bank refused.
abbrev pub fin : Result BankDataSourceError Bool → List TypeEvenementSynchro
fin (ok solde) = si solde balance_updated ++ account_transactions ∷ sync_succeeded ∷ []
fin (err consentement_invalide) = sync_failed ∷ consent_expired ∷ []
fin (err autre) = sync_failed ∷ []

module _ (ports : Ports) (parametres : ParametresSynchro) (maintenant : ℤ) where
  -- The slot that the planning answers for the account.
  abbrev pub creneau : CompteEcheant → ports.Monde → Option (ports.Monde × Bool)
  creneau e m =
      ports.reserver_creneau m e.compte.id (plan_apres_synchro ports parametres maintenant)
        parametres.quota_journalier

  -- The events of one account, and when they come.
  pub data Deroulement (e : CompteEcheant) (m : ports.Monde)
      : List TypeEvenementSynchro → Type 0 where
    expire : (¬ Valide e.consent maintenant) → Deroulement e m (consent_expired ∷ [])
    sans_creneau :
        (m' : ports.Monde)
        → Valide e.consent maintenant
        → creneau e m ≡ some (m', false)
        → Deroulement e m []
    synchronise :
        (m' : ports.Monde) (renouveler : Bool)
        → Valide e.consent maintenant
        → creneau e m ≡ some (m', true)
        → Demande renouveler (Bientot e.consent maintenant parametres.marge_renouvellement)
        → Deroulement e m (
            sync_started
            ∷ (si renouveler consent_renewal_required
                ++ fin (
                    reponse ports parametres maintenant e.consent
                      (vue_bank_account e.compte maintenant)
                      m')))

-- What holds of the state that is returned, if one is.
abbrev pub Pour : {M : Type 0} → (Etat M → Type 0) → Option (Etat M) → Type 0
Pour P none = Unit
Pour P (some s) = P s

abbrev pub types : {M : Type 0} → Etat M → List TypeEvenementSynchro
types s = map (λ e. e.type_evenement) s.evenements

map-append :
    (xs ys : List EvenementSynchro)
    → map (λ e. e.type_evenement) (xs ++ ys)
      ≡ map (λ e. e.type_evenement) xs ++ map (λ e. e.type_evenement) ys
map-append [] ys = refl
map-append (x ∷ xs) ys = ap (λ l. x.type_evenement ∷ l) (map-append xs ys)

module _ (ports : Ports) (parametres : ParametresSynchro) (maintenant : ℤ) where
  open ports use {Monde}

  publier-types :
      (e : EvenementSynchro) (s : Etat Monde)
      → types (publier ports parametres maintenant e s) ≡ types s ++ e.type_evenement ∷ []
  unfolding publier
  publier-types e s = map-append s.evenements (e ∷ [])

  les_soldes-evenements :
      (bs : List Balance) (s : Etat Monde) (r : RemonteeCompte)
      → (les_soldes ports parametres maintenant bs (s, r)).0.evenements ≡ s.evenements
  unfolding les_soldes
  les_soldes-evenements [] s r = refl
  les_soldes-evenements (b ∷ bs) s r =
      let w = ports.enregistrer_solde s.monde (vers_nouvelle_balance b) in
      let u = un_solde ports parametres maintenant w.1 (record s { monde = w.0 }) r in
      les_soldes-evenements bs u.0 u.1 ∙ un_solde-evenements w.1 (record s { monde = w.0 })
    where
      un_solde-evenements :
          (b : Bool) (s : Etat Monde)
          → (un_solde ports parametres maintenant b s r).0.evenements ≡ s.evenements
      un_solde-evenements true s = refl
      un_solde-evenements false s = refl

  une_transaction-evenements :
      (o : Option ResultatInsertion) (s : Etat Monde) (r : RemonteeCompte)
      → (une_transaction ports parametres maintenant o s r).0.evenements ≡ s.evenements
  unfolding une_transaction
  une_transaction-evenements none s r = refl
  une_transaction-evenements (some (inseree _)) s r = refl
  une_transaction-evenements (some doublon) s r = refl

  les_transactions-evenements :
      (c : ℕ) (ts : List TransactionBancaire) (s : Etat Monde) (r : RemonteeCompte)
      → (les_transactions ports parametres maintenant c ts (s, r)).0.evenements ≡ s.evenements
  unfolding les_transactions
  les_transactions-evenements c [] s r = refl
  les_transactions-evenements c (t ∷ ts) s r =
      let w = ports.enregistrer s.monde (vers_nouvelle_transaction c t) in
      let u = une_transaction ports parametres maintenant w.1 (record s { monde = w.0 }) r in
      les_transactions-evenements c ts u.0 u.1
      ∙ une_transaction-evenements w.1 (record s { monde = w.0 }) r

  apres_transactions-evenements :
      (c : ℕ) (s : Etat Monde) (r : RemonteeCompte)
      (x : Result BankDataSourceError (List TransactionBancaire))
      → (apres_transactions ports parametres maintenant c (s, r) x).0.evenements ≡ s.evenements
  unfolding apres_transactions
  apres_transactions-evenements c s r (err e) = refl
  apres_transactions-evenements c s r (ok ts) = les_transactions-evenements c ts s r

  apres_soldes-evenements :
      (consent : Consent) (compte : BankAccount) (s : Etat Monde)
      (x : Result BankDataSourceError (List Balance))
      → (apres_soldes ports parametres maintenant consent compte s x).0.evenements ≡ s.evenements
  unfolding apres_soldes
  apres_soldes-evenements consent compte s (err e) = refl
  apres_soldes-evenements consent compte s (ok bs) =
      let vide : RemonteeCompte = record { transactions_inserees = 0; solde_mis_a_jour = false } in
      let r = les_soldes ports parametres maintenant bs (s, vide) in
      apres_transactions-evenements compte.id r.0 r.1 (
        ports.lister_transactions r.0.monde consent compte
          (depuis_pour ports parametres maintenant compte))
      ∙ les_soldes-evenements bs s vide

  -- Reading from the bank publishes nothing.
  remonter_donnees-evenements :
      (consent : Consent) (compte : BankAccount) (s : Etat Monde)
      → (remonter_donnees ports parametres maintenant consent compte s).0.evenements ≡ s.evenements
  unfolding remonter_donnees
  remonter_donnees-evenements consent compte s = apres_soldes-evenements consent compte s _

  publier-si-monde :
      (b : Bool) (e : EvenementSynchro) (s : Etat Monde)
      → (if b then publier ports parametres maintenant e s else s).monde ≡ s.monde
  unfolding publier
  publier-si-monde true e s = refl
  publier-si-monde false e s = refl

  abbrev Suite : List TypeEvenementSynchro → Etat Monde → Etat Monde → Type 0
  Suite ts s s' = types s' ≡ types s ++ ts

  publier-si-types :
      (b : Bool) (e : EvenementSynchro) (s : Etat Monde)
      → types (if b then publier ports parametres maintenant e s else s)
        ≡ types s ++ si b e.type_evenement
  publier-si-types true e s = publier-types e s
  publier-si-types false e s = sym (append-nil (types s))

  publier_succes-types :
      (p : Texte) (c : ℕ) (r : RemonteeCompte) (s : Etat Monde)
      → types (publier_succes ports parametres maintenant p c r s)
        ≡ types s
          ++ (si r.solde_mis_a_jour balance_updated ++ account_transactions ∷ sync_succeeded ∷ [])
  unfolding publier_succes evenement
  publier_succes-types p c r s =
      let n = some r.transactions_inserees in
      let pb = publier ports parametres maintenant in
      let e0 = evenement balance_updated p (some c) none maintenant in
      let e1 = evenement account_transactions p (some c) n maintenant in
      let e2 = evenement sync_succeeded p (some c) n maintenant in
      let s' = if r.solde_mis_a_jour then pb e0 s else s in
      let x = si r.solde_mis_a_jour balance_updated in
      publier-types e2 (pb e1 s')
      ∙ ap (λ l. l ++ sync_succeeded ∷ [])
          (publier-types e1 s'
            ∙ ap (λ l. l ++ account_transactions ∷ []) (publier-si-types r.solde_mis_a_jour e0 s))
      ∙ append_assoc (types s ++ x) (account_transactions ∷ []) (sync_succeeded ∷ [])
      ∙ append_assoc (types s) x (account_transactions ∷ sync_succeeded ∷ [])

  apres_marquage-types :
      (p : Texte) (s : Etat Monde) (o : Option Monde)
      → Pour
          (λ s'. types s' ≡ types s ++ consent_expired ∷ [])
          (apres_marquage ports parametres maintenant p s o)
  unfolding apres_marquage evenement
  apres_marquage-types p s none = tt
  apres_marquage-types p s (some m) =
      publier-types (evenement consent_expired p none none maintenant) (record s { monde = m })

  Pour-imp :
      {P Q : Etat Monde → Type 0} (o : Option (Etat Monde))
      → ((s : Etat Monde) → P s → Q s)
      → Pour P o
      → Pour Q o
  Pour-imp none f h = tt
  Pour-imp (some s) f h = f s h

  expirer-types :
      (p : Texte) (consent : ℕ) (s : Etat Monde)
      → Pour
          (λ s'. types s' ≡ types s ++ consent_expired ∷ [])
          (expirer ports parametres maintenant p consent s)
  unfolding expirer
  expirer-types p consent s =
      apres_marquage-types p s (ports.marquer_statut s.monde consent ConsentStatus.expired)

  recalculer-types :
      (p : Texte) (r : RemonteeCompte) (s : Etat Monde)
      → types (recalculer_recurrences_apres_insertion ports parametres maintenant p r s) ≡ types s
  unfolding recalculer_recurrences_apres_insertion
  recalculer-types p r s = go (r.transactions_inserees == 0)
    where
      go :
          (b : Bool)
          → types (if b then s else record s { monde = ports.recalculer_recurrences s.monde p })
            ≡ types s
      go true = refl
      go false = refl

  conclure-fin :
      (p : Texte) (c consent : ℕ) (s : Etat Monde) (x : Result BankDataSourceError RemonteeCompte)
      → Pour
          (Suite (fin (ecrit ports parametres maintenant x)) s)
          (conclure ports parametres maintenant p c consent (s, x))
  unfolding conclure traiter_echec_source ecrit
  conclure-fin p c consent s (ok r) =
      publier_succes-types p c r
        (recalculer_recurrences_apres_insertion ports parametres maintenant p r s)
      ∙ ap (λ l. l ++ fin (ok r.solde_mis_a_jour)) (recalculer-types p r s)
  conclure-fin p c consent s (err consentement_invalide) =
      let e = evenement sync_failed p (some c) none maintenant in
      let s' = publier ports parametres maintenant e s in
      Pour-imp (expirer ports parametres maintenant p consent s')
        (λ u h.
          h
          ∙ ap (λ l. l ++ consent_expired ∷ []) (publier-types e s)
          ∙ append_assoc (types s) (sync_failed ∷ []) (consent_expired ∷ []))
        (expirer-types p consent s')
  conclure-fin p c consent s (err autre) =
      publier-types (evenement sync_failed p (some c) none maintenant) s

  abbrev Deroule : CompteEcheant → Etat Monde → ports.Monde → Etat Monde → Type 0
  Deroule e s m s' =
      (ts : List TypeEvenementSynchro) × (types s' ≡ types s ++ ts)
      × Deroulement ports parametres maintenant e m ts

  avec_creneau-Deroulement :
      (e : CompteEcheant) (m : ports.Monde) (s : Etat Monde) (b : Bool)
      → Valide e.consent maintenant
      → creneau ports parametres maintenant e m ≡ some (s.monde, b)
      → Pour (Deroule e s m) (avec_creneau ports parametres maintenant e s b)
  unfolding avec_creneau
  avec_creneau-Deroulement e m s false v o =
      ([], sym (append-nil (types s)), Deroulement.sans_creneau s.monde v o)
  avec_creneau-Deroulement e m s true v o =
      let p = e.compte.proprietaire in
      let b = renouvellement_requis e.consent maintenant parametres.marge_renouvellement in
      let e0 = evenement sync_started p (some e.compte.id) none maintenant in
      let e1 = evenement consent_renewal_required p none none maintenant in
      let debute = publier ports parametres maintenant e0 s in
      let prevenu = if b then publier ports parametres maintenant e1 debute else debute in
      let vue = vue_bank_account e.compte maintenant in
      let r = remonter_donnees ports parametres maintenant e.consent vue prevenu in
      let rep = reponse ports parametres maintenant e.consent vue in
      let lus : types r.0 ≡ types s ++ sync_started ∷ si b consent_renewal_required =
        ap (map (λ v. v.type_evenement)) (remonter_donnees-evenements e.consent vue prevenu)
        ∙ publier-si-types b e1 debute
        ∙ ap (λ l. l ++ si b consent_renewal_required) (publier-types e0 s)
        ∙ append_assoc (types s) (sync_started ∷ []) (si b consent_renewal_required) in
      let repondu : fin (ecrit ports parametres maintenant r.1) ≡ fin (rep s.monde) = ap fin (
        remonter_donnees_lem ports parametres maintenant e.consent vue prevenu
        ∙ ap rep (publier-si-monde b e1 debute ∙ publier-si-monde true e0 s)) in
      Pour-imp (conclure ports parametres maintenant p e.compte.id e.consent.id r)
        (λ u h. (
          sync_started ∷ (si b consent_renewal_required ++ fin (rep s.monde)),
          h
              ∙ ap₂ (λ l f. l ++ f) lus repondu
              ∙ append_assoc (types s) (sync_started ∷ si b consent_renewal_required)
                  (fin (rep s.monde)),
          Deroulement.synchronise s.monde b v o
              (Bientot_lem e.consent maintenant parametres.marge_renouvellement),
        ))
        (conclure-fin p e.compte.id e.consent.id r.0 r.1)

  apres_reservation-Deroulement :
      (e : CompteEcheant) (s : Etat Monde) (o : Option (Monde × Bool))
      → Valide e.consent maintenant
      → creneau ports parametres maintenant e s.monde ≡ o
      → Pour (Deroule e s s.monde) (apres_reservation ports parametres maintenant e s o)
  unfolding apres_reservation
  apres_reservation-Deroulement e s none v h = tt
  apres_reservation-Deroulement e s (some (m, b)) v h =
      avec_creneau-Deroulement e s.monde (record s { monde = m }) b v h

  -- The events that the synchronisation of an account publishes, in their order, when it is not
  -- cut short by a failed write of the planning or of the consent. The consent is not active or has
  -- expired: its expiry alone. It is valid and no slot is left: nothing. It is valid and a slot is
  -- taken: the start, the renewal that is asked for exactly when the consent ends within the margin,
  -- and then, by the answers of the bank: when it gives the balances and the transactions, the
  -- balances if one was written, the transactions and the success; when it refuses one of them, the
  -- failure, with the expiry of the consent exactly if that is the reason given.
  pub synchroniser_compte-Deroulement :
      (e : CompteEcheant) (s : Etat Monde)
      → Pour
          (λ s'.
            (ts : List TypeEvenementSynchro) × (types s' ≡ types s ++ ts)
            × Deroulement ports parametres maintenant e s.monde ts)
          (synchroniser_compte ports parametres maintenant e s)
  unfolding synchroniser_compte
  synchroniser_compte-Deroulement e s =
      elim (Bool-cases (consentement_expire e.consent maintenant)) [
        | inl b ↦ rw b (
            Pour-imp (expirer ports parametres maintenant e.compte.proprietaire e.consent.id s)
              (λ u h. (
                consent_expired ∷ [],
                h,
                Deroulement.expire ((Valide_lem e.consent maintenant).0 b),
              ))
              (expirer-types e.compte.proprietaire e.consent.id s))
        | inr b ↦ rw b (
            apres_reservation-Deroulement e s (creneau ports parametres maintenant e s.monde)
              ((Valide_lem e.consent maintenant).1 b) refl)
      ]
