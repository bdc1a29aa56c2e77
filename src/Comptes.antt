-- ===== src/Comptes.antt =====
-- src/repository/bank_accounts.rs and src/repository/balances.rs: the bank accounts with their
-- consents and balances. A row is kept decrypted; `now` is the instant of the statement.
pub mod Planification
pub mod Rattachement
pub mod SoldeRetenu
use ch_api_budgy.Prelude.{
  ℕ, ◌+◌, ◌-◌, Bool, true, false, ◌&&◌, ◌||◌, not, Option, none, some, List, [], ◌∷◌, ◌++◌, map,
  filter, take, drop, length, replicate, ltb, leb, ◌==◌, if◌then◌else◌, is_some,
}
use ch_api_budgy.Prelude.Int.{ℤ, leb_ℤ, ltb_ℤ, eqb_ℤ}
use ch_api_budgy.Prelude.Sort.{sort_by}
use ch_api_budgy.Prelude.Tables.{update, affected, delete, first}
use ch_api_budgy.Texte.{Texte, octets, is_whitespace, text_eq}
use ch_api_budgy.Budget.Solde.{Balance, BalanceType, CompteAvecSolde}
use ch_api_budgy.Synchro.{
  BankAccount, CompteASynchroniser, CompteEcheant, Consent, ConsentStatus, NouvelleBalance,
  PlanificationSynchro,
}
use ch_api_budgy.Transactions.Liste.{LectureResultat, Tranche}

-- A row of `budgy.bank_account`.
pub record BankAccountRow : Type 0 where
  pub id : ℕ
  pub owner_id : Texte
  pub consent_id : ℕ
  pub external_account_id : Texte
  pub iban : Texte
  pub iban_masked : Texte
  pub currency : Texte
  pub next_sync_at : Option ℤ
  pub last_sync_at : Option ℤ
  pub sync_count_today : ℕ
  pub last_sync_day : Option ℤ
  pub dedup_key : Texte
  pub empreinte_compte : Option Texte
  pub created_at : ℤ
  pub updated_at : ℤ

pub record NouveauBankAccount : Type 0 where
  pub proprietaire : Texte
  pub consent : ℕ
  pub external_account_id : Texte
  pub iban : Texte
  pub currency : Texte
  pub next_sync_at : Option ℤ

-- The three tables.
pub record Banque : Type 0 where
  pub consents : List Consent
  pub comptes : List BankAccountRow
  pub soldes : List Balance

-- The code point of `*`.
abbrev pub etoile : ℕ
etoile = 42

unfoldable pub masquer_iban : Texte → Texte
unfolding octets
masquer_iban iban =
    let compact = filter (λ c. not (is_whitespace c)) iban in
    if leb (octets compact) 4
    then replicate (octets compact) etoile
    else replicate (octets compact - 4) etoile ++ drop (octets compact - 4) compact

unfoldable pub into_bank_account : BankAccountRow → BankAccount
into_bank_account r = record {
  id = r.id;
  proprietaire = r.owner_id;
  consent = r.consent_id;
  external_account_id = r.external_account_id;
  iban_masked = r.iban_masked;
  currency = r.currency;
  next_sync_at = r.next_sync_at;
  sync_count_today = r.sync_count_today;
  created_at = r.created_at;
  updated_at = r.updated_at;
}

pub into_compte_echeant : BankAccountRow → Consent → CompteEcheant
into_compte_echeant r c = record {
  compte = record {
    id = r.id;
    proprietaire = r.owner_id;
    consent = r.consent_id;
    external_account_id = r.external_account_id;
    currency = r.currency;
    sync_count_today = r.sync_count_today;
    last_sync_day = r.last_sync_day;
  };
  consent = record c { id = r.consent_id; proprietaire = r.owner_id };
}

unfoldable pub est_du_proprietaire : Texte → BankAccountRow → Bool
est_du_proprietaire proprietaire r = text_eq r.owner_id proprietaire

unfoldable pub cree_avant : BankAccountRow → BankAccountRow → Bool
cree_avant a b = leb_ℤ a.created_at b.created_at

pub fetch : Banque → ℕ → Option BankAccount
unfolding into_bank_account
fetch banque id = elim (first (λ r. r.id == id) banque.comptes) [
  | none ↦ none
  | some r ↦ some (into_bank_account r)
]

pub lister_par_consent : Banque → Texte → ℕ → List BankAccount
unfolding into_bank_account est_du_proprietaire cree_avant
lister_par_consent banque proprietaire consent = map into_bank_account (
    sort_by cree_avant
      (filter (λ r. est_du_proprietaire proprietaire r && r.consent_id == consent) banque.comptes))

pub appartient_au_proprietaire : Banque → Texte → ℕ → Bool
unfolding est_du_proprietaire
appartient_au_proprietaire banque proprietaire compte =
    is_some (first (λ r. r.id == compte && est_du_proprietaire proprietaire r) banque.comptes)

-- The balances of an account, in the order in which they are looked for.
unfoldable pub est_de_type : BalanceType → Balance → Bool
est_de_type BalanceType.available b = elim b.balance_type [
  | BalanceType.available ↦ true
  | BalanceType.booked ↦ false
  | BalanceType.expected ↦ false
]
est_de_type BalanceType.booked b = elim b.balance_type [
  | BalanceType.available ↦ false
  | BalanceType.booked ↦ true
  | BalanceType.expected ↦ false
]
est_de_type BalanceType.expected b = elim b.balance_type [
  | BalanceType.available ↦ false
  | BalanceType.booked ↦ false
  | BalanceType.expected ↦ true
]

-- `a DESC`, then the rest: true stands before false.
unfoldable pub vrai_puis : Bool → Bool → Bool → Bool
vrai_puis true true reste = reste
vrai_puis true false reste = true
vrai_puis false true reste = false
vrai_puis false false reste = reste

unfoldable pub plus_recent : Balance → Balance → Bool
plus_recent a b =
    ltb_ℤ b.reference_date a.reference_date
    || (eqb_ℤ a.reference_date b.reference_date && leb_ℤ b.created_at a.created_at)

unfoldable pub solde_le : Balance → Balance → Bool
unfolding est_de_type vrai_puis plus_recent
solde_le a b = vrai_puis (est_de_type BalanceType.booked a) (est_de_type BalanceType.booked b) (
    vrai_puis (est_de_type BalanceType.available a) (est_de_type BalanceType.available b)
      (plus_recent a b))

unfoldable pub tete : List Balance → Option Balance
tete [] = none
tete (b ∷ bs) = some b

unfoldable pub solde_courant : Banque → ℕ → Option Balance
solde_courant banque compte =
    tete (sort_by solde_le (filter (λ b. b.bank_account == compte) banque.soldes))

unfoldable pub solde_a_venir : Banque → ℕ → Option Balance
solde_a_venir banque compte = tete (
    sort_by plus_recent
      (filter (λ b. b.bank_account == compte && est_de_type BalanceType.expected b) banque.soldes))

pub avec_solde : Banque → BankAccountRow → CompteAvecSolde BankAccount
unfolding into_bank_account
avec_solde banque r = record {
  compte = into_bank_account r;
  solde = solde_courant banque r.id;
  solde_a_venir = none;
}

pub avec_soldes : Banque → BankAccountRow → CompteAvecSolde BankAccount
unfolding into_bank_account
avec_soldes banque r = record {
  compte = into_bank_account r;
  solde = solde_courant banque r.id;
  solde_a_venir = solde_a_venir banque r.id;
}

unfoldable pub lister_avec_solde :
    Banque → Texte → Tranche → LectureResultat (CompteAvecSolde BankAccount)
lister_avec_solde banque proprietaire tranche =
    let lignes = filter (est_du_proprietaire proprietaire) banque.comptes in
    record {
      elements =
          map (avec_solde banque)
            (take tranche.limit (drop tranche.offset (sort_by cree_avant lignes)));
      total = length lignes;
    }

pub fetch_avec_solde : Banque → Texte → ℕ → Option (CompteAvecSolde BankAccount)
fetch_avec_solde banque proprietaire compte =
    elim (first (λ r. r.id == compte && est_du_proprietaire proprietaire r) banque.comptes) [
      | none ↦ none
      | some r ↦ some (avec_solde banque r)
    ]

unfoldable pub lister_soldes : Banque → Texte → List (CompteAvecSolde BankAccount)
lister_soldes banque proprietaire =
    map (avec_soldes banque)
      (sort_by cree_avant (filter (est_du_proprietaire proprietaire) banque.comptes))
