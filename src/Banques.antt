-- ===== src/Banques.antt =====
-- src/handlers/banques.rs: a consent is asked for, completed and renewed. The bank's side of
-- src/domain/ports/bank_data_source.rs is a function on a state of its own; the tables always answer.
pub mod Isolement
pub mod Refus
pub mod Demandes
use ch_api_budgy.Prelude.{
  ℕ, suc, ◌+◌, Bool, true, false, not, Option, none, some, List, [], ◌∷◌, Result, ok, err, map,
  if◌then◌else◌,
}
use ch_api_budgy.Prelude.Int.{ℤ, ltb_ℤ}
use ch_api_budgy.Texte.{Texte, trim, is_empty}
use ch_api_budgy.Synchro.{BankAccount, BankDataSourceError, Consent, ConsentStatus}
use ch_api_budgy.Comptes.{Banque, NouveauBankAccount, lister_par_consent}
use ch_api_budgy.Comptes.Rattachement.{insert, proprietaire_concurrent}
use ch_api_budgy.Consents.{
  MiseAJourConsent, NouveauConsentInitie, est_renouvelable, fetch_pour_proprietaire, insert_initie,
  marquer_statut_proprietaire, mettre_a_jour,
}

pub data ApiError : Type 0 where
  validation not_found conflict ecriture : ApiError
  source : BankDataSourceError → ApiError

pub record DemandeConsentement : Type 0 where
  pub consent_id : ℕ
  pub proprietaire : Texte
  pub etablissement : Texte
  pub url_retour : Texte

pub record ReponseAutorisation : Type 0 where
  pub reference_autorisation : Texte
  pub code_autorisation : Texte

pub record ConsentementInitie : Type 0 where
  pub consent : Consent
  pub url_autorisation : Texte

pub record ConsentCompletion : Type 0 where
  pub consent_id : ℕ
  pub status : ConsentStatus
  pub comptes : List BankAccount

-- `Uuid::parse_str`, the keyed hashes, and the bank.
pub record Contexte : Type 1 where
  pub Source : Type 0
  pub parse_uuid : Texte → Option ℕ
  pub dedup_key : ℕ → Texte → Texte
  pub empreinte_compte : Texte → Texte
  pub bank_callback_url : Texte
  pub initier_consentement :
      Source → DemandeConsentement → Source × Result BankDataSourceError ConsentementInitie
  pub completer_consentement :
      Source → Texte → ReponseAutorisation → Source × Result BankDataSourceError Consent
  pub lister_comptes : Source → Consent → Source × Result BankDataSourceError (List BankAccount)

unfoldable pub est_en_attente : ConsentStatus → Bool
est_en_attente ConsentStatus.pending = true
est_en_attente ConsentStatus.active = false
est_en_attente ConsentStatus.expired = false
est_en_attente ConsentStatus.revoked = false
est_en_attente ConsentStatus.failed = false

module _ (contexte : Contexte) where
  open contexte use {
    Source, parse_uuid, dedup_key, empreinte_compte, bank_callback_url, initier_consentement,
    completer_consentement, lister_comptes,
  }

  abbrev pub Etat : Type 0
  Etat = Banque × Source

  abbrev pub Reponse : Type 0 → Type 0
  Reponse A = Etat × Result ApiError A

  pub completion_existante : Banque → Texte → ℕ → ConsentStatus → ConsentCompletion
  completion_existante banque proprietaire id status = record {
    consent_id = id;
    status = status;
    comptes = lister_par_consent banque proprietaire id;
  }

  pub echec_consentement : Banque → Texte → ℕ → ℤ → Banque
  echec_consentement banque proprietaire id now =
      (marquer_statut_proprietaire banque proprietaire id ConsentStatus.failed now).0

  -- The first of the accounts that somebody else has.
  pub premier_concurrent : Banque → Texte → List BankAccount → Option Texte
  premier_concurrent banque proprietaire [] = none
  premier_concurrent banque proprietaire (c ∷ cs) =
      let suite = premier_concurrent banque proprietaire cs in
      elim (proprietaire_concurrent empreinte_compte banque c.external_account_id proprietaire) [
        | none ↦ suite
        | some autre ↦ some autre
      ]

  pub a_rattacher : Texte → ℕ → BankAccount → NouveauBankAccount
  a_rattacher proprietaire id c = record {
    proprietaire = proprietaire;
    consent = id;
    external_account_id = c.external_account_id;
    iban = c.iban_masked;
    currency = c.currency;
    next_sync_at = c.next_sync_at;
  }

  -- `premier_id` is the key of the first row that the database adds; what was added stays added when
  -- a later row is refused.
  pub rattacher : Texte → ℕ → ℤ → List BankAccount → ℕ → Banque → Banque × Bool
  unfolding a_rattacher
  rattacher proprietaire id now [] premier_id banque = (banque, true)
  rattacher proprietaire id now (c ∷ cs) premier_id banque =
      elim (insert dedup_key empreinte_compte banque (a_rattacher proprietaire id c) premier_id
        now) [
          | none ↦ (banque, false)
          | some b ↦ rattacher proprietaire id now cs (suc premier_id) b.0
        ]

  pub apres_rattachement : Texte → ℕ → Source → Banque × Bool → Reponse ConsentCompletion
  unfolding completion_existante
  apres_rattachement proprietaire id s (banque, false) = ((banque, s), err ecriture)
  apres_rattachement proprietaire id s (banque, true) =
      ((banque, s), ok (completion_existante banque proprietaire id ConsentStatus.active))

  pub apres_controle :
      Texte
      → ℕ
      → ℤ
      → ℕ
      → List BankAccount
      → Source
      → Banque
      → Option Texte
      → Reponse ConsentCompletion
  unfolding echec_consentement rattacher apres_rattachement
  apres_controle proprietaire id now premier_id cs s banque (some autre) =
      ((echec_consentement banque proprietaire id now, s), err conflict)
  apres_controle proprietaire id now premier_id cs s banque none =
      apres_rattachement proprietaire id s (rattacher proprietaire id now cs premier_id banque)

  pub apres_comptes :
      Texte
      → ℕ
      → ℤ
      → ℕ
      → Banque
      → Source × Result BankDataSourceError (List BankAccount)
      → Reponse ConsentCompletion
  unfolding premier_concurrent apres_controle
  apres_comptes proprietaire id now premier_id banque (s, err e) = ((banque, s), err (source e))
  apres_comptes proprietaire id now premier_id banque (s, ok cs) =
      apres_controle proprietaire id now premier_id cs s banque
        (premier_concurrent banque proprietaire cs)

  pub activer : Banque → Texte → ℕ → Consent → ℤ → Banque
  activer banque proprietaire id actif now =
      (mettre_a_jour banque proprietaire id
        (record {
          status = ConsentStatus.active;
          external_ref = actif.external_ref;
          expires_at = actif.expires_at;
        })
        now).0

  pub apres_autorisation :
      Texte
      → ℕ
      → ℤ
      → ℕ
      → Banque
      → Source × Result BankDataSourceError Consent
      → Reponse ConsentCompletion
  unfolding echec_consentement activer apres_comptes
  apres_autorisation proprietaire id now premier_id banque (s, err e) =
      ((echec_consentement banque proprietaire id now, s), err (source e))
  apres_autorisation proprietaire id now premier_id banque (s, ok actif) =
      apres_comptes proprietaire id now premier_id (activer banque proprietaire id actif now)
        (lister_comptes s actif)

  pub completer :
      Texte → Texte → Texte → ℤ → ℕ → ℕ → Etat → Option Consent → Reponse ConsentCompletion
  unfolding apres_autorisation completion_existante est_en_attente
  completer proprietaire state code now premier_id id (banque, s) none =
      ((banque, s), err not_found)
  completer proprietaire state code now premier_id id (banque, s) (some consent) =
      if est_en_attente consent.status
      then apres_autorisation proprietaire id now premier_id banque (
          completer_consentement s proprietaire
            (record { reference_autorisation = state; code_autorisation = code }))
      else ((banque, s), ok (completion_existante banque proprietaire id consent.status))

  -- `state` and `code` are those of the bank's callback.
  unfoldable pub complete_consent : Texte → Texte → Texte → ℤ → ℕ → Etat → Reponse ConsentCompletion
  unfolding completer
  complete_consent proprietaire state code now premier_id (banque, s) =
      elim (parse_uuid (trim state)) [
        | none ↦ ((banque, s), err validation)
        | some id ↦
            completer proprietaire state code now premier_id id (banque, s)
              (fetch_pour_proprietaire banque proprietaire id)
      ]
