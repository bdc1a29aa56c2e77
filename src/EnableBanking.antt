-- ===== src/EnableBanking.antt =====
-- src/adapters/bank/enable_banking/mapping.rs: the answers of the bank's service become accounts,
-- balances and transactions.
pub mod Montants
use ch_api_budgy.Prelude.{
  ℕ, ◌+◌, ◌-◌, ◌*◌, ◌^◌, Bool, true, false, not, ◌&&◌, ◌||◌, Option, none, some, List, [], ◌∷◌,
  ◌++◌, Result, ok, err, map, leb, ◌==◌, if◌then◌else◌, unwrap_or, get_or,
}
use ch_api_budgy.Prelude.Int.{ℤ, pos, negsuc, ◌+ℤ◌}
use ch_api_budgy.Prelude.I64.{wrap, add_i64, neg_i64, abs_i64}
use ch_api_budgy.Prelude.Options.{or_else}
use ch_api_budgy.Texte.{Texte, codes, trim, is_empty, text_eq}
use ch_api_budgy.Cycle.Saisie.{
  borne, est_chiffre, negatif, nombre, plus, positif, split_once, tiret,
}
use ch_api_budgy.Budget.Solde.{Balance, BalanceType}
use ch_api_budgy.Synchro.{BankAccount, Consent}
use ch_api_budgy.Comptes.{masquer_iban}
use ch_api_budgy.Transactions.{CategorizationSource, TransactionBancaire, TransactionStatus}

pub record MontantWire : Type 0 where
  pub amount : Texte
  pub currency : Texte

pub record BalanceWire : Type 0 where
  pub balance_type : Texte
  pub balance_amount : MontantWire
  pub reference_date : Option Texte

pub record TransactionWire : Type 0 where
  pub entry_reference : Option Texte
  pub transaction_id : Option Texte
  pub transaction_amount : MontantWire
  pub credit_debit_indicator : Option Texte
  pub status : Texte
  pub booking_date : Option Texte
  pub value_date : Option Texte
  pub remittance_information : List Texte

-- The account's `iban` is that of its `account_id`, when both are there.
pub record CompteSession : Type 0 where
  pub uid : Texte
  pub iban : Option Texte
  pub currency : Option Texte

-- `BankDataSourceError::ReponseInvalide`
pub data ReponseInvalide : Type 0 where
  decimales_illisibles montant_illisible transaction_sans_reference : ReponseInvalide

abbrev pub point : ℕ
point = 46

-- `i64`'s product by 100.
unfoldable pub centupler : ℤ → ℤ
centupler (pos n) = wrap (pos (n * 100))
centupler (negsuc n) = wrap (negsuc (n * 100 + 99))

-- `str::parse` into `i64`.
unfoldable pub parse_i64 : Texte → Option ℤ
unfolding positif negatif
parse_i64 [] = none
parse_i64 (c ∷ s) =
    if c == tiret
    then negatif (borne (2 ^ 63) (nombre s))
    else if c == plus
    then positif (borne (2 ^ 63 - 1) (nombre s))
    else positif (borne (2 ^ 63 - 1) (nombre (c ∷ s)))

unfoldable pub parser_entier : Texte → Result ReponseInvalide ℤ
unfolding parse_i64
parser_entier s = elim (parse_i64 s) [ none ↦ err montant_illisible | some n ↦ ok n ]

unfoldable pub tous_chiffres : Texte → Bool
unfolding est_chiffre
tous_chiffres [] = true
tous_chiffres (c ∷ s) = est_chiffre c && tous_chiffres s

-- The digit of a position, or zero.
abbrev pub chiffre_de : Texte → ℕ → ℕ
chiffre_de s i = get_or s i 48 - 48

unfoldable pub centimes_arrondis : Texte → Result ReponseInvalide ℤ
unfolding tous_chiffres
centimes_arrondis decimales =
    if tous_chiffres decimales
    then ok (
        pos (
          chiffre_de decimales 0 * 10
          + chiffre_de decimales 1
          + (if leb 5 (chiffre_de decimales 2) then 1 else 0)))
    else err decimales_illisibles

unfoldable pub partager : Texte → Texte × Texte
partager s = elim (split_once point s) [ none ↦ (s, []) | some p ↦ p ]

unfoldable pub entiers_de : Texte → Result ReponseInvalide ℤ
entiers_de s = if is_empty s then ok (pos 0) else parser_entier s

unfoldable pub assembler :
    Result ReponseInvalide ℤ → Result ReponseInvalide ℤ → Result ReponseInvalide ℤ
assembler (err e) entiers = err e
assembler (ok c) (err e) = err e
assembler (ok c) (ok n) = ok (add_i64 (centupler n) c)

unfoldable pub sans_signe : Texte → Result ReponseInvalide ℤ
unfolding partager entiers_de assembler
sans_signe s = let p = partager s in assembler (centimes_arrondis p.1) (entiers_de p.0)

unfoldable pub opposer : Result ReponseInvalide ℤ → Result ReponseInvalide ℤ
opposer (ok n) = ok (neg_i64 n)
opposer (err e) = err e

unfoldable pub signe : Texte → Result ReponseInvalide ℤ
unfolding sans_signe opposer
signe [] = sans_signe []
signe (c ∷ s) =
    if c == tiret
    then opposer (sans_signe s)
    else if c == plus
    then sans_signe s
    else sans_signe (c ∷ s)

unfoldable pub montant_en_centimes : MontantWire → Result ReponseInvalide ℤ
unfolding signe
montant_en_centimes montant = signe (trim montant.amount)

unfoldable pub reference_externe : TransactionWire → Option Texte
reference_externe t = or_else t.entry_reference t.transaction_id

unfoldable pub est_un_debit : Option Texte → Bool
est_un_debit none = false
est_un_debit (some i) = text_eq i (codes "DBIT") || text_eq i (codes "Debit")

-- `-amount_cents.abs()`
unfoldable pub avec_le_sens : Option Texte → ℤ → ℤ
avec_le_sens indicateur cents = if est_un_debit indicateur then neg_i64 (abs_i64 cents) else cents

-- `join(" ")`
pub joindre : List Texte → Texte
joindre [] = []
joindre (s ∷ []) = s
joindre (s ∷ t ∷ ts) = s ++ 32 ∷ joindre (t ∷ ts)

pub libelle : Texte → List Texte → Texte
unfolding joindre
libelle reference lignes = if is_empty lignes then reference else joindre lignes

-- The ids are made from texts; `chrono` reads the dates.
module _ (uuid_depuis : Texte → ℕ) (ecrire_uuid : ℕ → Texte) (to_uppercase : Texte → Texte)
    (lire_date : Texte → Option ℤ) (lire_horodatage : Texte → Option ℤ) (minuit : ℤ → ℤ) where
  pub parser_date : Option Texte → Option ℤ
  parser_date none = none
  parser_date (some v) = lire_date v

  pub a_minuit : Option ℤ → Option ℤ
  a_minuit none = none
  a_minuit (some d) = some (minuit d)

  pub parser_horodatage : Option Texte → ℤ → ℤ
  unfolding a_minuit
  parser_horodatage none defaut = defaut
  parser_horodatage (some v) defaut =
      unwrap_or (or_else (lire_horodatage v) (a_minuit (lire_date v))) defaut

  pub vers_bank_account : CompteSession → Consent → ℤ → BankAccount
  vers_bank_account compte consent horodatage = record {
    id = uuid_depuis (codes "eb-account-" ++ compte.uid);
    proprietaire = consent.proprietaire;
    consent = consent.id;
    external_account_id = compte.uid;
    iban_masked = masquer_iban (unwrap_or compte.iban []);
    currency = unwrap_or compte.currency [];
    next_sync_at = none;
    sync_count_today = 0;
    created_at = horodatage;
    updated_at = horodatage;
  }

  pub type_balance : Texte → BalanceType
  type_balance valeur =
      let v = to_uppercase valeur in
      if text_eq v (codes "CLBD") || text_eq v (codes "BOOKED") || text_eq v (codes "PRCD")
      then BalanceType.booked
      else if text_eq v (codes "XPCD") || text_eq v (codes "EXPECTED")
      then BalanceType.expected
      else BalanceType.available

  pub nom_type : BalanceType → Texte
  nom_type BalanceType.available = codes "available"
  nom_type BalanceType.booked = codes "booked"
  nom_type BalanceType.expected = codes "expected"

  pub vers_balance : BalanceWire → BankAccount → ℤ → Result ReponseInvalide Balance
  unfolding parser_horodatage type_balance nom_type
  vers_balance b compte horodatage = elim (montant_en_centimes b.balance_amount) [
    | err e ↦ err e
    | ok cents ↦ ok (record {
      id = uuid_depuis (
          codes "eb-balance-"
          ++ ecrire_uuid compte.id
          ++ codes "-"
          ++ nom_type (type_balance b.balance_type));
      bank_account = compte.id;
      balance_type = type_balance b.balance_type;
      amount_cents = cents;
      currency = b.balance_amount.currency;
      reference_date = parser_horodatage b.reference_date horodatage;
      created_at = horodatage;
    })
  ]

  pub statut_transaction : Texte → TransactionStatus
  statut_transaction valeur =
      let v = to_uppercase valeur in
      if text_eq v (codes "BOOK") || text_eq v (codes "BOOKED")
      then TransactionStatus.booked
      else TransactionStatus.pending

  pub transaction_de : TransactionWire → BankAccount → ℤ → Texte → ℤ → TransactionBancaire
  unfolding parser_date statut_transaction libelle
  transaction_de t compte horodatage reference cents = record {
    id = uuid_depuis (codes "eb-tx-" ++ ecrire_uuid compte.id ++ codes "-" ++ reference);
    bank_account = compte.id;
    external_transaction_id = reference;
    status = statut_transaction t.status;
    label = libelle reference t.remittance_information;
    amount_cents = avec_le_sens t.credit_debit_indicator cents;
    currency = t.transaction_amount.currency;
    booking_date = parser_date t.booking_date;
    value_date = parser_date t.value_date;
    category = none;
    enveloppe = none;
    categorization_source = CategorizationSource.no_source;
    rule_id = none;
    is_recurrent = false;
    recurrence_interval = none;
    is_internal_transfer = false;
    created_at = horodatage;
  }

  pub avec_reference :
      TransactionWire
      → BankAccount
      → ℤ
      → Texte
      → Result ReponseInvalide ℤ
      → Result ReponseInvalide TransactionBancaire
  unfolding transaction_de
  avec_reference t compte horodatage reference (err e) = err e
  avec_reference t compte horodatage reference (ok cents) =
      ok (transaction_de t compte horodatage reference cents)

  unfoldable pub vers_transaction :
      TransactionWire → BankAccount → ℤ → Result ReponseInvalide TransactionBancaire
  unfolding avec_reference
  vers_transaction t compte horodatage = elim (reference_externe t) [
    | none ↦ err transaction_sans_reference
    | some reference ↦
        avec_reference t compte horodatage reference (montant_en_centimes t.transaction_amount)
  ]
