-- ===== src/Consents.antt =====
-- src/domain/consent.rs and src/repository/consents.rs: the consents of the bank, on the tables of
-- the accounts. A row is kept decrypted; `now` is the instant of the statement.
pub mod Renouvellement
use ch_api_budgy.Prelude.{
  ℕ, ◌+◌, Bool, true, false, ◌&&◌, ◌||◌, not, Option, none, some, List, [], ◌∷◌, ◌++◌, filter, ltb,
  ◌==◌, if◌then◌else◌,
}
use ch_api_budgy.Prelude.Int.{ℤ, pos, leb_ℤ, ◌+ℤ◌}
use ch_api_budgy.Prelude.Sort.{sort_by}
use ch_api_budgy.Prelude.Tables.{update, affected, delete, first}
use ch_api_budgy.Texte.{Texte, codes, text_eq}
use ch_api_budgy.Synchro.{Consent, ConsentStatus}
use ch_api_budgy.Comptes.{Banque}
use ch_api_budgy.Comptes.Planification.{est_actif}
use ch_api_budgy.Comptes.Rattachement.{cascade, un_consent}

pub data ConsentRenouvellement : Type 0 where
  a_jour renouvellement_exige expire : ConsentRenouvellement

-- `Expired` or `Failed`
pub perdu : ConsentStatus → Bool
perdu ConsentStatus.expired = true
perdu ConsentStatus.failed = true
perdu ConsentStatus.pending = false
perdu ConsentStatus.active = false
perdu ConsentStatus.revoked = false

unfoldable pub renouvellement : Consent → ℤ → ℤ → ConsentRenouvellement
unfolding perdu
renouvellement c maintenant marge = if perdu c.status then expire else elim c.expires_at [
  | none ↦ a_jour
  | some e ↦
      if leb_ℤ e maintenant
      then expire
      else if leb_ℤ e (maintenant +ℤ marge)
      then renouvellement_exige
      else a_jour
]

unfoldable pub est_renouvelable : Consent → ℤ → ℤ → Bool
est_renouvelable c maintenant marge = elim (renouvellement c maintenant marge) [
  | a_jour ↦ false
  | renouvellement_exige ↦ true
  | expire ↦ true
]

pub record NouveauConsent : Type 0 where
  pub proprietaire : Texte
  pub external_ref : Texte
  pub status : ConsentStatus
  pub expires_at : Option ℤ

pub record NouveauConsentInitie : Type 0 where
  pub id : ℕ
  pub proprietaire : Texte
  pub external_ref : Texte
  pub etablissement : Texte
  pub status : ConsentStatus
  pub expires_at : Option ℤ

pub record MiseAJourConsent : Type 0 where
  pub status : ConsentStatus
  pub external_ref : Texte
  pub expires_at : Option ℤ

-- `id` is the key that the database draws.
pub insert : Banque → NouveauConsent → ℕ → ℤ → Banque × ℕ
insert banque n id now = (
  record banque {
    consents =
        banque.consents
        ++ record {
          id = id;
          proprietaire = n.proprietaire;
          external_ref = n.external_ref;
          etablissement = none;
          status = n.status;
          expires_at = n.expires_at;
          created_at = now;
          updated_at = now;
        }
          ∷ [];
  },
  id,
)

-- `none` when the key is taken.
pub insert_initie : Banque → NouveauConsentInitie → ℤ → Option (Banque × ℕ)
unfolding un_consent
insert_initie banque n now =
    if un_consent n.id banque.consents
    then none
    else some (
      record banque {
        consents =
            banque.consents
            ++ record {
              id = n.id;
              proprietaire = n.proprietaire;
              external_ref = n.external_ref;
              etablissement = some n.etablissement;
              status = n.status;
              expires_at = n.expires_at;
              created_at = now;
              updated_at = now;
            }
              ∷ [];
      },
      n.id,
    )

-- `WHERE id = … AND owner_id = …`
unfoldable pub est_le_consent : Texte → ℕ → Consent → Bool
est_le_consent proprietaire id c = c.id == id && text_eq c.proprietaire proprietaire

unfoldable pub modifier : (Consent → Bool) → (Consent → Consent) → Banque → Banque
modifier cond modif banque = record banque { consents = update cond modif banque.consents }

unfoldable pub mettre_a_jour : Banque → Texte → ℕ → MiseAJourConsent → ℤ → Banque × Bool
unfolding modifier
mettre_a_jour banque proprietaire id m now = (
  modifier (est_le_consent proprietaire id)
      (λ c. record c {
        status = m.status;
        external_ref = m.external_ref;
        expires_at = m.expires_at;
        updated_at = now;
      })
      banque,
  ltb 0 (affected (est_le_consent proprietaire id) banque.consents),
)

unfoldable pub poser_statut : ConsentStatus → ℤ → Consent → Consent
poser_statut status now c = record c { status = status; updated_at = now }

unfoldable pub marquer_statut_proprietaire : Banque → Texte → ℕ → ConsentStatus → ℤ → Banque × Bool
unfolding modifier poser_statut
marquer_statut_proprietaire banque proprietaire id status now = (
  modifier (est_le_consent proprietaire id) (poser_statut status now) banque,
  ltb 0 (affected (est_le_consent proprietaire id) banque.consents),
)

unfoldable pub marquer_statut_consent : Banque → ℕ → ConsentStatus → ℤ → Banque
unfolding modifier poser_statut
marquer_statut_consent banque id status now =
    modifier (λ c. c.id == id) (poser_statut status now) banque

pub fetch : Banque → ℕ → Option Consent
fetch banque id = first (λ c. c.id == id) banque.consents

unfoldable pub fetch_pour_proprietaire : Banque → Texte → ℕ → Option Consent
fetch_pour_proprietaire banque proprietaire id =
    first (est_le_consent proprietaire id) banque.consents

unfoldable pub est_consent_de : Texte → Consent → Bool
est_consent_de proprietaire c = text_eq c.proprietaire proprietaire

pub plus_recent_devant : Consent → Consent → Bool
plus_recent_devant c d = leb_ℤ d.created_at c.created_at

pub lister_par_proprietaire : Banque → Texte → List Consent
unfolding plus_recent_devant
lister_par_proprietaire banque proprietaire =
    sort_by plus_recent_devant (filter (est_consent_de proprietaire) banque.consents)

unfoldable pub lister_actifs_par_proprietaire : Banque → Texte → List Consent
unfolding est_actif
lister_actifs_par_proprietaire banque proprietaire =
    filter (λ c. est_consent_de proprietaire c && est_actif c.status) banque.consents

-- A consent is deleted with its accounts, and they with their balances.
unfoldable pub supprimer_par_proprietaire : Banque → Texte → Banque × ℕ
unfolding un_consent cascade
supprimer_par_proprietaire banque proprietaire =
    let restants = delete (est_consent_de proprietaire) banque.consents in
    (
      cascade (record banque {
        consents = restants;
        comptes = filter (λ r. un_consent r.consent_id restants) banque.comptes;
      }),
      affected (est_consent_de proprietaire) banque.consents,
    )
