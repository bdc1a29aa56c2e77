-- ===== src/Synchro.antt =====
-- src/domain/synchro.rs: the synchronisation of the accounts that are due. Instants and durations
-- are numbers of one unit; the ports of src/domain/ports are functions on a state of the outside.
pub mod Execution
use ch_api_budgy.Prelude.{
  ℕ, ◌+◌, Bool, true, false, not, ◌&&◌, ◌||◌, Option, none, some, List, [], ◌∷◌, ◌++◌, Result, ok,
  err, ◌==◌, if◌then◌else◌,
}
use ch_api_budgy.Prelude.Int.{ℤ, pos, ltb_ℤ, leb_ℤ, ◌+ℤ◌, ◌-ℤ◌}
use ch_api_budgy.Texte.{Texte}
use ch_api_budgy.Budget.Solde.{Balance, BalanceType}
use ch_api_budgy.Transactions.{TransactionBancaire}
use ch_api_budgy.Transactions.Insertion.{
  NouvelleTransactionBancaire, ResultatInsertion, inseree, doublon,
}

pub data ConsentStatus : Type 0 where
  pending active expired revoked failed : ConsentStatus

pub record Consent : Type 0 where
  pub id : ℕ
  pub proprietaire : Texte
  pub external_ref : Texte
  pub etablissement : Option Texte
  pub status : ConsentStatus
  pub expires_at : Option ℤ
  pub created_at : ℤ
  pub updated_at : ℤ

pub record CompteASynchroniser : Type 0 where
  pub id : ℕ
  pub proprietaire : Texte
  pub consent : ℕ
  pub external_account_id : Texte
  pub currency : Texte
  pub sync_count_today : ℕ
  pub last_sync_day : Option ℤ

pub record BankAccount : Type 0 where
  pub id : ℕ
  pub proprietaire : Texte
  pub consent : ℕ
  pub external_account_id : Texte
  pub iban_masked : Texte
  pub currency : Texte
  pub next_sync_at : Option ℤ
  pub sync_count_today : ℕ
  pub created_at : ℤ
  pub updated_at : ℤ

pub record CompteEcheant : Type 0 where
  pub compte : CompteASynchroniser
  pub consent : Consent

pub record PlanificationSynchro : Type 0 where
  pub next_sync_at : ℤ
  pub last_sync_day : ℤ
  pub last_sync_at : ℤ

pub record ParametresSynchro : Type 0 where
  pub quota_journalier : ℕ
  pub intervalle : ℤ
  pub fenetre_transactions : ℤ
  pub marge_renouvellement : ℤ

pub record RapportSynchro : Type 0 where
  pub comptes_evalues : ℕ
  pub comptes_synchronises : ℕ
  pub comptes_ignores_quota : ℕ
  pub consentements_expires : ℕ
  pub transactions_inserees : ℕ
  pub transactions_doublons : ℕ
  pub soldes_enregistres : ℕ

abbrev pub rapport_vide : RapportSynchro
rapport_vide = record {
  comptes_evalues = 0;
  comptes_synchronises = 0;
  comptes_ignores_quota = 0;
  consentements_expires = 0;
  transactions_inserees = 0;
  transactions_doublons = 0;
  soldes_enregistres = 0;
}

pub record RemonteeCompte : Type 0 where
  pub transactions_inserees : ℕ
  pub solde_mis_a_jour : Bool

pub data TypeEvenementSynchro : Type 0 where
  sync_started sync_succeeded sync_failed account_transactions balance_updated :
      TypeEvenementSynchro
  consent_renewal_required consent_expired : TypeEvenementSynchro

pub record EvenementSynchro : Type 0 where
  pub proprietaire : Texte
  pub type_evenement : TypeEvenementSynchro
  pub compte : Option ℕ
  pub count : Option ℕ
  pub at : ℤ

-- `consentement_invalide`, or any of the other errors of the bank's side.
pub data BankDataSourceError : Type 0 where
  consentement_invalide autre : BankDataSourceError

pub record NouvelleBalance : Type 0 where
  pub bank_account : ℕ
  pub balance_type : BalanceType
  pub amount_cents : ℤ
  pub currency : Texte
  pub reference_date : ℤ

-- A failed read or write of the planning or of a consent.
pub data SynchroError : Type 0 where
  lecture ecriture : SynchroError

-- The dependencies; `date_naive` is chrono's day of an instant.
pub record Ports : Type 1 where
  pub Monde : Type 0
  pub date_naive : ℤ → ℤ
  pub lister_comptes_echeants : Monde → ℤ → ℕ → Option (List CompteEcheant)
  pub reserver_creneau : Monde → ℕ → PlanificationSynchro → ℕ → Option (Monde × Bool)
  pub marquer_statut : Monde → ℕ → ConsentStatus → Option Monde
  pub solde : Monde → Consent → BankAccount → Result BankDataSourceError (List Balance)
  pub lister_transactions :
      Monde → Consent → BankAccount → ℤ → Result BankDataSourceError (List TransactionBancaire)
  pub enregistrer_solde : Monde → NouvelleBalance → Monde × Bool
  pub enregistrer : Monde → NouvelleTransactionBancaire → Monde × Option ResultatInsertion
  pub recalculer_recurrences : Monde → Texte → Monde

unfoldable pub consentement_expire : Consent → ℤ → Bool
consentement_expire c maintenant = not (actif c.status) || passe c.expires_at
  where
    actif : ConsentStatus → Bool
    actif active = true
    actif pending = false
    actif expired = false
    actif revoked = false
    actif failed = false

    passe : Option ℤ → Bool
    passe none = false
    passe (some e) = leb_ℤ e maintenant

unfoldable pub renouvellement_requis : Consent → ℤ → ℤ → Bool
renouvellement_requis c maintenant marge = elim c.expires_at [
  | none ↦ false
  | some e ↦ ltb_ℤ maintenant e && leb_ℤ e (maintenant +ℤ marge)
]

pub vue_bank_account : CompteASynchroniser → ℤ → BankAccount
vue_bank_account c maintenant = record {
  id = c.id;
  proprietaire = c.proprietaire;
  consent = c.consent;
  external_account_id = c.external_account_id;
  iban_masked = [];
  currency = c.currency;
  next_sync_at = some maintenant;
  sync_count_today = c.sync_count_today;
  created_at = maintenant;
  updated_at = maintenant;
}

pub vers_nouvelle_balance : Balance → NouvelleBalance
vers_nouvelle_balance b = record {
  bank_account = b.bank_account;
  balance_type = b.balance_type;
  amount_cents = b.amount_cents;
  currency = b.currency;
  reference_date = b.reference_date;
}

pub vers_nouvelle_transaction : ℕ → TransactionBancaire → NouvelleTransactionBancaire
vers_nouvelle_transaction compte t = record {
  bank_account = compte;
  external_transaction_id = t.external_transaction_id;
  status = t.status;
  label = t.label;
  amount_cents = t.amount_cents;
  currency = t.currency;
  booking_date = t.booking_date;
  value_date = t.value_date;
}

pub evenement : TypeEvenementSynchro → Texte → Option ℕ → Option ℕ → ℤ → EvenementSynchro
evenement type_evenement proprietaire compte count at = record {
  proprietaire = proprietaire;
  type_evenement = type_evenement;
  compte = compte;
  count = count;
  at = at;
}
