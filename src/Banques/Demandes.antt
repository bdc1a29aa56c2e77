-- ===== src/Banques/Demandes.antt =====
-- A consent that is asked for or renewed, and the list of the consents: src/handlers/banques.rs.
use ch_api_budgy.Prelude.{
  ℕ, Bool, true, false, Option, none, some, List, [], ◌∷◌, Result, ok, err, map, if◌then◌else◌,
}
use ch_api_budgy.Prelude.Int.{ℤ, ltb_ℤ, leb_ℤ}
use ch_api_budgy.Prelude.Sort.{sort_by}
use ch_api_budgy.Texte.{Texte, trim, is_empty, text_eq}
use ch_api_budgy.Synchro.{BankDataSourceError, Consent, ConsentStatus}
use ch_api_budgy.Comptes.{Banque}
use ch_api_budgy.Consents.{
  est_renouvelable, fetch_pour_proprietaire, insert_initie, lister_par_proprietaire, mettre_a_jour,
}
use ch_api_budgy.Banques.{
  ApiError, ConsentementInitie, Contexte, Etat, Reponse, conflict, ecriture, not_found, source,
  validation,
}

pub record CreateConsentResponse : Type 0 where
  pub consent_id : ℕ
  pub authorization_url : Texte

module _ (contexte : Contexte) where
  open contexte use {Source, bank_callback_url, initier_consentement}

  pub reponse_creation : ConsentementInitie → CreateConsentResponse
  reponse_creation initie = record {
    consent_id = initie.consent.id;
    authorization_url = initie.url_autorisation;
  }

  pub enregistrer_initie :
      Texte
      → Texte
      → ℤ
      → Banque
      → Source × Result BankDataSourceError ConsentementInitie
      → Reponse contexte CreateConsentResponse
  unfolding reponse_creation
  enregistrer_initie proprietaire bank_id now banque (s, err e) = ((banque, s), err (source e))
  enregistrer_initie proprietaire bank_id now banque (s, ok initie) =
      elim (insert_initie banque
        (record {
          id = initie.consent.id;
          proprietaire = proprietaire;
          external_ref = initie.consent.external_ref;
          etablissement = bank_id;
          status = ConsentStatus.pending;
          expires_at = initie.consent.expires_at;
        })
        now) [
          | none ↦ ((banque, s), err ecriture)
          | some b ↦ ((b.0, s), ok (reponse_creation initie))
        ]

  -- `consent_id` is the key that the handler draws.
  pub create_consent :
      Texte → Texte → ℕ → ℤ → Etat contexte → Reponse contexte CreateConsentResponse
  unfolding enregistrer_initie
  create_consent proprietaire bank_id consent_id now (banque, s) =
      if is_empty (trim bank_id)
      then ((banque, s), err validation)
      else enregistrer_initie proprietaire (trim bank_id) now banque (
          initier_consentement s (record {
            consent_id = consent_id;
            proprietaire = proprietaire;
            etablissement = trim bank_id;
            url_retour = bank_callback_url;
          }))

  pub consent_renouvelable : Banque → Texte → ℕ → ℤ → ℤ → Result ApiError Consent
  consent_renouvelable banque proprietaire id now marge =
      elim (fetch_pour_proprietaire banque proprietaire id) [
        | none ↦ err not_found
        | some consent ↦ if est_renouvelable consent now marge then ok consent else err conflict
      ]

  pub reprendre :
      Texte
      → ℕ
      → ℤ
      → Banque
      → Source × Result BankDataSourceError ConsentementInitie
      → Reponse contexte CreateConsentResponse
  reprendre proprietaire id now banque (s, err e) = ((banque, s), err (source e))
  reprendre proprietaire id now banque (s, ok initie) = (
    (
      (mettre_a_jour banque proprietaire id
          (record {
            status = ConsentStatus.pending;
            external_ref = initie.consent.external_ref;
            expires_at = initie.consent.expires_at;
          })
          now).0,
      s,
    ),
    ok (record { consent_id = id; authorization_url = initie.url_autorisation }),
  )

  pub demander :
      Texte → ℕ → ℤ → Etat contexte → Option Texte → Reponse contexte CreateConsentResponse
  unfolding reprendre
  demander proprietaire id now (banque, s) none = ((banque, s), err conflict)
  demander proprietaire id now (banque, s) (some etablissement) =
      reprendre proprietaire id now banque (
        initier_consentement s (record {
          consent_id = id;
          proprietaire = proprietaire;
          etablissement = etablissement;
          url_retour = bank_callback_url;
        }))

  pub renouveler :
      Texte
      → ℕ
      → ℤ
      → Etat contexte
      → Result ApiError Consent
      → Reponse contexte CreateConsentResponse
  unfolding demander
  renouveler proprietaire id now etat (err e) = (etat, err e)
  renouveler proprietaire id now etat (ok consent) =
      demander proprietaire id now etat consent.etablissement

  pub renew_consent : Texte → ℕ → ℤ → ℤ → Etat contexte → Reponse contexte CreateConsentResponse
  unfolding renouveler consent_renouvelable
  renew_consent proprietaire id now marge (banque, s) =
      renouveler proprietaire id now (banque, s)
        (consent_renouvelable banque proprietaire id now marge)

-- One consent for each bank, the last one updated; `uuid` writes an id.
module _ (uuid : ℕ → Texte) where
  pub cle_etablissement : Consent → Texte
  cle_etablissement c = elim c.etablissement [ none ↦ uuid c.id | some e ↦ e ]

  pub garder_le_dernier : Texte → Consent → List (Texte × Consent) → List (Texte × Consent)
  garder_le_dernier cle c [] = (cle, c) ∷ []
  garder_le_dernier cle c ((k, d) ∷ reste) = elim (text_eq k cle) [
    | true ↦ (k, if ltb_ℤ d.updated_at c.updated_at then c else d) ∷ reste
    | false ↦ (k, d) ∷ garder_le_dernier cle c reste
  ]

  pub par_etablissement : List (Texte × Consent) → List Consent → List (Texte × Consent)
  unfolding garder_le_dernier cle_etablissement
  par_etablissement vus [] = vus
  par_etablissement vus (c ∷ cs) =
      par_etablissement (garder_le_dernier (cle_etablissement c) c vus) cs

  pub mis_a_jour_devant : Consent → Consent → Bool
  mis_a_jour_devant a b = leb_ℤ b.updated_at a.updated_at

  pub list_consents : Banque → Texte → List Consent
  unfolding par_etablissement mis_a_jour_devant
  list_consents banque proprietaire =
      sort_by mis_a_jour_devant
        (map (λ e. e.1) (par_etablissement [] (lister_par_proprietaire banque proprietaire)))
