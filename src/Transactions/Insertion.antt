-- ===== src/Transactions/Insertion.antt =====
-- The insertion in the table of transactions, src/repository/bank_transactions.rs: a transaction
-- that is sent again only goes from pending to booked.
pub mod Doublons
use ch_api_budgy.Prelude.{
  ℕ, Bool, true, false, not, ◌&&◌, Option, none, some, List, [], ◌∷◌, if◌then◌else◌, Result, ok,
  err,
}
use ch_api_budgy.Prelude.Int.{ℤ}
use ch_api_budgy.Prelude.Map.{get}
use ch_api_budgy.Texte.{Texte, text_eq}
use ch_api_budgy.Transactions.{
  Base, TransactionBancaire, TransactionStatus, CategorizationSource,
  categoriser_transaction_inseree,
}

pub record NouvelleTransactionBancaire : Type 0 where
  pub bank_account : ℕ
  pub external_transaction_id : Texte
  pub status : TransactionStatus
  pub label : Texte
  pub amount_cents : ℤ
  pub currency : Texte
  pub booking_date : Option ℤ
  pub value_date : Option ℤ

pub data ResultatInsertion : Type 0 where
  inseree : ℕ → ResultatInsertion
  doublon : ResultatInsertion

-- `fetch_one` finds no account of this id.
pub data CompteInconnu : Type 0 where
  compte_inconnu : CompteInconnu

-- The id and the date of creation are PostgreSQL's; the other columns have their defaults.
pub ligne_inseree : NouvelleTransactionBancaire → ℕ → ℤ → TransactionBancaire
ligne_inseree n id created_at = record {
  id = id;
  bank_account = n.bank_account;
  external_transaction_id = n.external_transaction_id;
  status = n.status;
  label = n.label;
  amount_cents = n.amount_cents;
  currency = n.currency;
  booking_date = n.booking_date;
  value_date = n.value_date;
  category = none;
  enveloppe = none;
  categorization_source = CategorizationSource.no_source;
  rule_id = none;
  is_recurrent = false;
  recurrence_interval = none;
  is_internal_transfer = false;
  created_at = created_at;
}

-- `DO UPDATE SET`, and its `WHERE`.
pub confirmer : NouvelleTransactionBancaire → TransactionBancaire → TransactionBancaire
confirmer n t = record t {
  status = n.status;
  booking_date = n.booking_date;
  value_date = n.value_date;
}

pub a_confirmer : NouvelleTransactionBancaire → TransactionBancaire → Bool
a_confirmer n t = en_attente t.status && comptabilisee n.status
  where
    en_attente : TransactionStatus → Bool
    en_attente TransactionStatus.pending = true
    en_attente TransactionStatus.booked = false

    comptabilisee : TransactionStatus → Bool
    comptabilisee TransactionStatus.pending = false
    comptabilisee TransactionStatus.booked = true

-- `dedup_key`: the HMAC of the account and of the bank's id, by a library.
module _ (dedup_key : ℕ → Texte → Texte) where
  pub meme_cle : NouvelleTransactionBancaire → TransactionBancaire → Bool
  meme_cle n t =
      text_eq (dedup_key n.bank_account n.external_transaction_id)
        (dedup_key t.bank_account t.external_transaction_id)

  -- At most one row has the key.
  pub inserer :
      NouvelleTransactionBancaire
      → TransactionBancaire
      → List TransactionBancaire
      → List TransactionBancaire × Bool
  inserer n ligne [] = (ligne ∷ [], true)
  inserer n ligne (t ∷ ts) =
      let suite = inserer n ligne ts in
      if meme_cle n t
      then ((if a_confirmer n t then confirmer n t else t) ∷ ts, false)
      else (t ∷ suite.0, suite.1)

  pub insert :
      Base → NouvelleTransactionBancaire → ℕ → ℤ → Result CompteInconnu (Base × ResultatInsertion)
  unfolding inserer ligne_inseree
  insert base n id created_at = elim (get n.bank_account base.proprietaires) [
    | none ↦ err compte_inconnu
    | some _ ↦
        let r = inserer n (ligne_inseree n id created_at) base.transactions in
        ok (record base { transactions = r.0 }, if r.1 then inseree id else doublon)
  ]

  module _ (to_uppercase to_lowercase : Texte → Texte) where
    -- Only a row that is new goes through the rules.
    appliquer_regles_apres_insertion : NouvelleTransactionBancaire → Base → ResultatInsertion → Base
    unfolding categoriser_transaction_inseree
    appliquer_regles_apres_insertion n base (inseree id) =
        categoriser_transaction_inseree to_uppercase to_lowercase base n.bank_account id n.label
    appliquer_regles_apres_insertion n base doublon = base

    pub enregistrer :
        Base → NouvelleTransactionBancaire → ℕ → ℤ → Result CompteInconnu (Base × ResultatInsertion)
    unfolding insert appliquer_regles_apres_insertion
    enregistrer base n id created_at = elim (insert base n id created_at) [
      | err e ↦ err e
      | ok (suite, r) ↦ ok (appliquer_regles_apres_insertion n suite r, r)
    ]
