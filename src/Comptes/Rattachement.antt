-- ===== src/Comptes/Rattachement.antt =====
-- What src/repository/bank_accounts.rs and src/repository/balances.rs write of the accounts: an
-- account that is attached, its fingerprint, a balance, the erasure. The keyed hashes of
-- src/crypto.rs are parameters.
pub mod Dedoublonnage
pub mod Concurrence
use ch_api_budgy.Prelude.{
  ℕ, ◌+◌, Bool, true, false, ◌&&◌, ◌||◌, not, Option, none, some, List, [], ◌∷◌, ◌++◌, filter, ◌==◌,
  if◌then◌else◌,
}
use ch_api_budgy.Prelude.Int.{ℤ}
use ch_api_budgy.Prelude.Tables.{update, affected, delete, first}
use ch_api_budgy.Texte.{Texte, text_eq}
use ch_api_budgy.Budget.Solde.{Balance}
use ch_api_budgy.Synchro.{Consent, NouvelleBalance}
use ch_api_budgy.Comptes.{
  BankAccountRow, Banque, NouveauBankAccount, est_du_proprietaire, masquer_iban,
}

unfoldable pub memes_cles : ℕ → Texte → BankAccountRow → Bool
memes_cles consent dedup r = r.consent_id == consent && text_eq r.dedup_key dedup

unfoldable pub un_consent : ℕ → List Consent → Bool
un_consent consent [] = false
un_consent consent (c ∷ cs) = c.id == consent || un_consent consent cs

unfoldable pub id_de : Option BankAccountRow → Option ℕ
id_de none = none
id_de (some r) = some r.id

-- The row that is there already.
unfoldable pub id_par_dedup : Banque → ℕ → Texte → Option ℕ
unfolding memes_cles id_de
id_par_dedup banque consent dedup = id_de (first (memes_cles consent dedup) banque.comptes)

unfoldable pub proprietaire_de : Option BankAccountRow → Option Texte
proprietaire_de none = none
proprietaire_de (some r) = some r.owner_id

unfoldable pub a_l_empreinte : Texte → BankAccountRow → Bool
a_l_empreinte empreinte r = elim r.empreinte_compte [ none ↦ false | some e ↦ text_eq e empreinte ]

unfoldable pub sans_empreinte : BankAccountRow → Bool
sans_empreinte r = elim r.empreinte_compte [ none ↦ true | some e ↦ false ]

module _ (dedup_key : ℕ → Texte → Texte) (empreinte_compte : Texte → Texte) where
  -- `id` is the key that the database draws, and `now` its clock.
  unfoldable pub ligne_rattachee : NouveauBankAccount → ℕ → ℤ → BankAccountRow
  ligne_rattachee n id now = record {
    id = id;
    owner_id = n.proprietaire;
    consent_id = n.consent;
    external_account_id = n.external_account_id;
    iban = n.iban;
    iban_masked = masquer_iban n.iban;
    currency = n.currency;
    next_sync_at = n.next_sync_at;
    last_sync_at = none;
    sync_count_today = 0;
    last_sync_day = none;
    dedup_key = dedup_key n.consent n.external_account_id;
    empreinte_compte = some (empreinte_compte n.external_account_id);
    created_at = now;
    updated_at = now;
  }

  -- `ON CONFLICT … DO NOTHING`, then the id; `none` when the database refuses the consent.
  unfoldable pub insert : Banque → NouveauBankAccount → ℕ → ℤ → Option (Banque × ℕ)
  insert banque n id now =
      elim (id_par_dedup banque n.consent (dedup_key n.consent n.external_account_id)) [
        | some connu ↦ some (banque, connu)
        | none ↦
            if un_consent n.consent banque.consents
            then some
                (record banque { comptes = banque.comptes ++ ligne_rattachee n id now ∷ [] }, id)
            else none
      ]

module _ (empreinte_compte : Texte → Texte) where
  -- The owner of the same bank account, when that is somebody else.
  unfoldable pub proprietaire_concurrent : Banque → Texte → Texte → Option Texte
  unfolding a_l_empreinte proprietaire_de
  proprietaire_concurrent banque externe demandeur = proprietaire_de (
      first (λ r. a_l_empreinte (empreinte_compte externe) r && not (text_eq r.owner_id demandeur))
        banque.comptes)

  unfoldable pub poser_empreinte : BankAccountRow → BankAccountRow
  poser_empreinte r = record r { empreinte_compte = some (empreinte_compte r.external_account_id) }

  unfoldable pub reprendre_empreintes : Banque → Banque × ℕ
  unfolding sans_empreinte poser_empreinte
  reprendre_empreintes banque = (
    record banque { comptes = update sans_empreinte poser_empreinte banque.comptes },
    affected sans_empreinte banque.comptes,
  )

-- An account is erased with its balances.
unfoldable pub un_compte : ℕ → List BankAccountRow → Bool
un_compte compte [] = false
un_compte compte (r ∷ rs) = r.id == compte || un_compte compte rs

unfoldable pub cascade : Banque → Banque
unfolding un_compte
cascade banque = record banque {
  soldes = filter (λ b. un_compte b.bank_account banque.comptes) banque.soldes;
}

unfoldable pub supprimer_par_proprietaire : Banque → Texte → Banque × ℕ
unfolding est_du_proprietaire cascade
supprimer_par_proprietaire banque proprietaire = (
  cascade (record banque { comptes = delete (est_du_proprietaire proprietaire) banque.comptes }),
  affected (est_du_proprietaire proprietaire) banque.comptes,
)

-- `insert` of src/repository/balances.rs; `none` when the account is not there.
unfoldable pub enregistrer_solde : Banque → NouvelleBalance → ℕ → ℤ → Option (Banque × ℕ)
unfolding un_compte
enregistrer_solde banque n id now =
    if un_compte n.bank_account banque.comptes
    then some (
      record banque {
        soldes =
            banque.soldes
            ++ record {
              id = id;
              bank_account = n.bank_account;
              balance_type = n.balance_type;
              amount_cents = n.amount_cents;
              currency = n.currency;
              reference_date = n.reference_date;
              created_at = now;
            }
              ∷ [];
      },
      id,
    )
    else none
