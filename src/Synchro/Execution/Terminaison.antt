-- ===== src/Synchro/Execution/Terminaison.antt =====
-- A synchronisation ends with a state, src/domain/synchro.rs.
use ch_api_budgy.Prelude.{
  ℕ, ◌≡◌, refl, ap, ◌∙◌, Bool, true, false, some, Result, ok, err, Bool-cases, inl, inr,
}
use ch_api_budgy.Prelude.Int.{ℤ}
use ch_api_budgy.Texte.{Texte}
use ch_api_budgy.Synchro.{
  BankDataSourceError, CompteEcheant, ConsentStatus, ParametresSynchro, PlanificationSynchro, Ports,
  RemonteeCompte, autre, consentement_expire, consentement_invalide,
}
use ch_api_budgy.Synchro.Execution.{
  Etat, apres_marquage, apres_reservation, avec_creneau, conclure, expirer, plan_apres_synchro,
  synchroniser_compte, traiter_echec_source,
}

module _ (ports : Ports) (parametres : ParametresSynchro) (maintenant : ℤ)
    (marque : (m : ports.Monde) (c : ℕ) (t : ConsentStatus)
      → (m' : ports.Monde) × (ports.marquer_statut m c t ≡ some m'))
    (reserve : (m : ports.Monde) (c : ℕ) (p : PlanificationSynchro) (q : ℕ)
      → (r : ports.Monde × Bool) × (ports.reserver_creneau m c p q ≡ some r)) where
  expirer_aboutit :
      (p : Texte) (consent : ℕ) (s : Etat ports.Monde)
      → (s' : Etat ports.Monde) × (expirer ports parametres maintenant p consent s ≡ some s')
  unfolding expirer apres_marquage
  expirer_aboutit p consent s =
      let m = marque s.monde consent ConsentStatus.expired in
      (_, ap (apres_marquage ports parametres maintenant p s) m.1)

  conclure_aboutit :
      (p : Texte) (c consent : ℕ) (x : Etat ports.Monde × Result BankDataSourceError RemonteeCompte)
      → (s' : Etat ports.Monde) × (conclure ports parametres maintenant p c consent x ≡ some s')
  unfolding conclure traiter_echec_source
  conclure_aboutit p c consent (s, ok r) = (_, refl)
  conclure_aboutit p c consent (s, err consentement_invalide) = expirer_aboutit p consent _
  conclure_aboutit p c consent (s, err autre) = (_, refl)

  avec_creneau_aboutit :
      (e : CompteEcheant) (s : Etat ports.Monde) (b : Bool)
      → (s' : Etat ports.Monde) × (avec_creneau ports parametres maintenant e s b ≡ some s')
  unfolding avec_creneau
  avec_creneau_aboutit e s false = (_, refl)
  avec_creneau_aboutit e s true = conclure_aboutit _ _ _ _

  -- When each write of a consent and of the planning returns, the synchronisation of an account
  -- ends with a state, whatever the bank answers.
  pub synchroniser_compte_aboutit :
      (e : CompteEcheant) (s : Etat ports.Monde)
      → (s' : Etat ports.Monde) × (synchroniser_compte ports parametres maintenant e s ≡ some s')
  unfolding synchroniser_compte apres_reservation
  synchroniser_compte_aboutit e s = elim (Bool-cases (consentement_expire e.consent maintenant)) [
    | inl b ↦ rw b (expirer_aboutit e.compte.proprietaire e.consent.id s)
    | inr b ↦
        let r =
          reserve s.monde e.compte.id (plan_apres_synchro ports parametres maintenant)
            parametres.quota_journalier in
        let suite = avec_creneau_aboutit e (record s { monde = r.0.0 }) r.0.1 in
        rw b (suite.0, ap (apres_reservation ports parametres maintenant e s) r.1 ∙ suite.1)
  ]
