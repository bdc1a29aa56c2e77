-- ===== src/Effacement/Tables.antt =====
-- The erasure of src/domain/effacement.rs on the tables of src/repository/bank_accounts.rs and
-- src/repository/consents.rs.
use mathlib.Core.Path.{subst}
use ch_api_budgy.Prelude.{
  ℕ, ◌≡◌, refl, ap, ◌∙◌, Bool, not, ◌&&◌, some, List, [], ◌∷◌, map, filter, ok, length, contains,
  Bool-cases, inl, inr, arith,
}
use ch_api_budgy.Prelude.Tables.{delete, filter-filter, filter_ext, ==_comm}
use ch_api_budgy.Texte.{Texte, text_eq}
use ch_api_budgy.Synchro.{Consent}
use ch_api_budgy.Comptes.{BankAccountRow, Banque, est_du_proprietaire}
use ch_api_budgy.Comptes.Rattachement
use ch_api_budgy.Comptes.Rattachement.{cascade, un_compte, un_consent}
use ch_api_budgy.Consents
use ch_api_budgy.Consents.{est_consent_de, lister_actifs_par_proprietaire}
use ch_api_budgy.Effacement.{Depots, RapportEffacement, effacer_donnees_proprietaire}
use ch_api_budgy.Effacement.Revocations.{effacer_donnees_proprietaire_lem, revoques}

module _ (Source : Type 0) (revoquer : Source → Consent → Source × Bool) where
  -- The tables, and the bank's side, which does not write them.
  abbrev pub depots : Depots
  depots = record {
    Monde = Banque × Source;
    lister_actifs_par_proprietaire = λ m p. some (lister_actifs_par_proprietaire m.0 p);
    revoquer_consentement = λ m c. ((m.0, (revoquer m.1 c).0), (revoquer m.1 c).1);
    supprimer_comptes = λ m p. some (
      ((Rattachement.supprimer_par_proprietaire m.0 p).0, m.1),
      (Rattachement.supprimer_par_proprietaire m.0 p).1,
    );
    supprimer_consents = λ m p. some (
      ((Consents.supprimer_par_proprietaire m.0 p).0, m.1),
      (Consents.supprimer_par_proprietaire m.0 p).1,
    );
  }

  revoques_tables : (cs : List Consent) (m : Banque × Source) → (revoques depots cs m).0 ≡ m.0
  unfolding revoques
  revoques_tables [] m = refl
  revoques_tables (c ∷ cs) m = revoques_tables cs (m.0, (revoquer m.1 c).0)

-- The consents of the others, their accounts at a consent that is left, and the balances of the
-- accounts that are left: these stay, as they were and in their order, and nothing else.
abbrev pub Efface : Texte → Banque → Banque → Type 0
Efface p banque banque' =
    (banque'.consents ≡ filter (λ c. not (text_eq c.proprietaire p)) banque.consents)
    × (banque'.comptes
        ≡ filter
            (λ r.
              not (text_eq r.owner_id p) && contains r.consent_id (map Consent.id banque'.consents))
            banque.comptes)
    × (banque'.soldes
        ≡ filter (λ b. contains b.bank_account (map BankAccountRow.id banque'.comptes))
            banque.soldes)

un_consent_lem : (k : ℕ) (cs : List Consent) → un_consent k cs ≡ contains k (map Consent.id cs)
unfolding un_consent
un_consent_lem k [] = refl
un_consent_lem k (c ∷ cs) = rw (==_comm c.id k, un_consent_lem k cs) refl

un_compte_lem :
    (k : ℕ) (rs : List BankAccountRow) → un_compte k rs ≡ contains k (map BankAccountRow.id rs)
unfolding un_compte
un_compte_lem k [] = refl
un_compte_lem k (r ∷ rs) = rw (==_comm r.id k, un_compte_lem k rs) refl

-- An account that is left was there.
un_compte-filter :
    (k : ℕ) (garde : BankAccountRow → Bool) (rs : List BankAccountRow)
    → (un_compte k rs && un_compte k (filter garde rs)) ≡ un_compte k (filter garde rs)
unfolding un_compte
un_compte-filter k garde [] = refl
un_compte-filter k garde (r ∷ rs) = elim (Bool-cases (garde r)) [
  | inl e ↦ rw e (ground (arith, un_compte-filter k garde rs))
  | inr e ↦ rw e (ground (arith, un_compte-filter k garde rs))
]

efface :
    (p : Texte) (banque : Banque)
    → Efface p banque
        (Consents.supprimer_par_proprietaire
          (Rattachement.supprimer_par_proprietaire banque p).0
          p).0
unfolding Consents.supprimer_par_proprietaire Rattachement.supprimer_par_proprietaire cascade
    est_du_proprietaire est_consent_de
efface p banque =
    let comptes = delete (est_du_proprietaire p) banque.comptes in
    let restants = delete (est_consent_de p) banque.consents in
    let gardes = filter (λ r. un_consent r.consent_id restants) comptes in
    (
      refl,
      filter-filter (λ r. un_consent r.consent_id restants) (λ r. not (est_du_proprietaire p r))
            banque.comptes
          ∙ filter_ext _ _
              (λ r.
                ap (λ b. not (est_du_proprietaire p r) && b) (un_consent_lem r.consent_id restants))
              banque.comptes,
      filter-filter (λ b. un_compte b.bank_account gardes) (λ b. un_compte b.bank_account comptes)
            banque.soldes
          ∙ filter_ext _ _
              (λ b.
                un_compte-filter b.bank_account (λ r. un_consent r.consent_id restants) comptes
                ∙ un_compte_lem b.bank_account gardes)
              banque.soldes,
    )

module _ (Source : Type 0) (revoquer : Source → Consent → Source × Bool) where
  -- On the tables the erasure always succeeds, whatever the bank answers to the revocations: it asks
  -- for one revocation for each active consent, and it deletes the consents and the accounts of the
  -- person with the balances of these, and the accounts of others at those consents; every other
  -- consent, account and balance stays as it was.
  pub effacer_donnees_proprietaire-Efface :
      (m : Banque × Source) (p : Texte)
      → (m' : Banque × Source) × (r : RapportEffacement) × (effacer_donnees_proprietaire
            (depots Source revoquer)
            m
            p
          ≡ ok (m', r))
        × (r.revocations_demandees ≡ length (lister_actifs_par_proprietaire m.0 p))
        × Efface p m.0 m'.0
  effacer_donnees_proprietaire-Efface m p =
      let actifs = lister_actifs_par_proprietaire m.0 p in
      let b' = (revoques (depots Source revoquer) actifs m).0 in
      (
        _,
        _,
        effacer_donnees_proprietaire_lem (depots Source revoquer) m _ _ p actifs _ _ refl refl refl,
        refl,
        subst
            (λ b.
              Efface p b
                (Consents.supprimer_par_proprietaire
                  (Rattachement.supprimer_par_proprietaire b' p).0 p).0)
            (revoques_tables Source revoquer actifs m) (efface p b'),
      )
