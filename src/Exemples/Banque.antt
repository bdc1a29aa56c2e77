-- ===== src/Exemples/Banque.antt =====
-- The accounts of the bank: src/repository/bank_accounts.rs, src/domain/effacement.rs.
use ch_api_budgy.Prelude.Sort.{sort_by}
use ch_api_budgy.Prelude.{
  ℕ, ◌≡◌, ◌≢◌, refl, sym, ap, ◌∙◌, some_inj, ◌≤◌, ◌⊎◌, ◌↔◌, inl, true, false, none, some, List, [],
  ◌∷◌, All, ok, err, ◌==◌, arith,
}
use ch_api_budgy.Prelude.Int.{ℤ, pos, pos_part, neg_part, ◌≤ℤ◌}
use ch_api_budgy.Texte.{Texte, codes, is_whitespace}
use ch_api_budgy.Budget.Solde.{Balance, BalanceType}
use ch_api_budgy.Synchro.{Consent, ConsentStatus, PlanificationSynchro}
use ch_api_budgy.Comptes.{
  BankAccountRow, Banque, NouveauBankAccount, masquer_iban, solde_courant, solde_le, tete,
}
use ch_api_budgy.Comptes.SoldeRetenu.{Retenu, solde_courant-Retenu}
use ch_api_budgy.Comptes.Planification.{
  lister_comptes_echeants, reserver_creneau, sous_le_quota, utilises, prendre_creneau,
}
use ch_api_budgy.Comptes.Planification.Reservation.{Octroye, Refuse, reserver_creneau_lem}
use ch_api_budgy.Comptes.Planification.Quota.{Essai, creneaux_obtenus, creneaux_obtenus-borne}
use ch_api_budgy.Comptes.Planification.Echeances.{
  Synchronisable, lister_comptes_echeants-Synchronisable,
}
use ch_api_budgy.Comptes.Rattachement
use ch_api_budgy.Consents
use ch_api_budgy.Comptes.Rattachement.{
  insert, ligne_rattachee, reprendre_empreintes, un_consent, id_par_dedup,
}
use ch_api_budgy.Comptes.Rattachement.Dedoublonnage.{insert-insert}
use ch_api_budgy.Comptes.Rattachement.Concurrence.{Signale, reprendre_empreintes-Signale}
use ch_api_budgy.Consents.{renouvellement, est_consent_de, lister_actifs_par_proprietaire}
use ch_api_budgy.Consents.Renouvellement.{renouvellement-verdict, verdict}
use ch_api_budgy.Effacement.{
  Depots, RapportEffacement, effacer_donnees_proprietaire, ecriture, lecture,
}
use ch_api_budgy.Effacement.Revocations.{
  Echoue, effacer_donnees_proprietaire_erreurs, effacer_donnees_proprietaire_lem, rapport_de,
  refusees, revoques,
}
use ch_api_budgy.Effacement.Tables.{Efface, depots, effacer_donnees_proprietaire-Efface}

abbrev consent : Consent
consent = record {
  id = 1;
  proprietaire = codes "a";
  external_ref = [];
  etablissement = none;
  status = ConsentStatus.active;
  expires_at = some (pos 900);
  created_at = pos 0;
  updated_at = pos 0;
}

abbrev compte : BankAccountRow
compte = record {
  id = 10;
  owner_id = codes "a";
  consent_id = 1;
  external_account_id = codes "x";
  iban = [];
  iban_masked = [];
  currency = codes "EUR";
  next_sync_at = none;
  last_sync_at = none;
  sync_count_today = 1;
  last_sync_day = some (pos 5);
  dedup_key = codes "x";
  empreinte_compte = none;
  created_at = pos 0;
  updated_at = pos 0;
}

abbrev solde : ℕ → BalanceType → ℤ → Balance
solde n type jour = record {
  id = n;
  bank_account = 10;
  balance_type = type;
  amount_cents = pos n;
  currency = codes "EUR";
  reference_date = jour;
  created_at = pos 0;
}

abbrev banque : Banque
banque = record {
  consents = consent ∷ [];
  comptes = compte ∷ [];
  soldes =
      solde 1 BalanceType.available (pos 9)
      ∷ solde 2 BalanceType.booked (pos 4)
      ∷ solde 3 BalanceType.booked (pos 6)
      ∷ [];
}

abbrev plan : PlanificationSynchro
plan = record { next_sync_at = pos 11; last_sync_day = pos 5; last_sync_at = pos 5 }

-- Two slots a day, of which one is taken.
abbrev deux_essais : List Essai
deux_essais =
    record { compte = 10; plan = plan; now = pos 5 }
    ∷ record { compte = 10; plan = plan; now = pos 6 }
    ∷ []

creneaux_obtenus-un : creneaux_obtenus 2 10 (pos 5) deux_essais banque ≡ 1
unfolding creneaux_obtenus reserver_creneau sous_le_quota utilises prendre_creneau
creneaux_obtenus-un = refl

au_plus : {j : ℤ} → j ≡ pos 5 → j ≤ℤ pos 5
au_plus e = omega (arith, ap pos_part e, ap neg_part e)

creneaux_obtenus-borne_example : creneaux_obtenus 2 10 (pos 5) deux_essais banque ≤ 2
creneaux_obtenus-borne_example =
    creneaux_obtenus-borne 2 10 (pos 5) (pos 5) deux_essais banque (tt, tt)
      (λ r e j f. au_plus (some_inj (sym f ∙ ap BankAccountRow.last_sync_day (sym (some_inj e)))))
      (omega arith, (omega arith, tt))

reserver_creneau_lem_example :
    Refuse banque 10 (pos 5) 2 (reserver_creneau banque 10 plan 2 (pos 5))
    ⊎ Octroye banque 10 plan 2 (pos 5) (reserver_creneau banque 10 plan 2 (pos 5))
reserver_creneau_lem_example = reserver_creneau_lem banque 10 plan 2 (pos 5) (tt, tt)

lister_comptes_echeants-Synchronisable_example :
    All
      (Synchronisable banque (pos 5) (pos 5) 2)
      (lister_comptes_echeants (λ t. t) banque (pos 5) 2)
lister_comptes_echeants-Synchronisable_example =
    lister_comptes_echeants-Synchronisable (λ t. t) banque (pos 5) 2 (tt, tt)

abbrev nouveau : NouveauBankAccount
nouveau = record {
  proprietaire = codes "a";
  consent = 1;
  external_account_id = codes "y";
  iban = codes "FR76";
  currency = codes "EUR";
  next_sync_at = none;
}

abbrev cle : ℕ → Texte → Texte
cle c externe = externe

abbrev empreinte : Texte → Texte
empreinte externe = externe

abbrev avec_nouveau : Banque
avec_nouveau = record banque {
  comptes = compte ∷ ligne_rattachee cle empreinte nouveau 11 (pos 7) ∷ [];
}

insert-insert_example :
    insert cle empreinte avec_nouveau nouveau 12 (pos 8) ≡ some (avec_nouveau, 11)
unfolding insert id_par_dedup un_consent
insert-insert_example =
    insert-insert cle empreinte banque avec_nouveau nouveau nouveau 11 12 11 (pos 7) (pos 8) refl
      refl refl

reprendre_empreintes-Signale_example :
    All
      (λ r.
        (demandeur : Texte)
        → r.owner_id ≢ demandeur
        → Signale empreinte
            (reprendre_empreintes empreinte banque).0
            r.external_account_id
            demandeur)
      (reprendre_empreintes empreinte banque).0.comptes
reprendre_empreintes-Signale_example = reprendre_empreintes-Signale empreinte banque (inl refl, tt)

solde_courant-Retenu_example :
    All
      (λ c. (c.bank_account == 10) ≡ true → Retenu (solde 3 BalanceType.booked (pos 6)) c)
      banque.soldes
unfolding solde_courant tete sort_by solde_le
solde_courant-Retenu_example =
    solde_courant-Retenu banque 10 (solde 3 BalanceType.booked (pos 6)) refl

renouvellement-verdict_example :
    renouvellement consent (pos 895) (pos 7) ≡ verdict consent (pos 895) (pos 7)
renouvellement-verdict_example = renouvellement-verdict consent (pos 895) (pos 7) refl

-- The bank refuses every revocation.
abbrev depots_banque : Depots
depots_banque = depots ℕ (λ s c. (s, false))

abbrev apres_comptes_effaces : Banque × ℕ
apres_comptes_effaces = (record { consents = consent ∷ []; comptes = []; soldes = [] }, 0)

abbrev tout_efface : Banque × ℕ
tout_efface = (record { consents = []; comptes = []; soldes = [] }, 0)

effacer_donnees_proprietaire_lem_example :
    effacer_donnees_proprietaire depots_banque (banque, 0) (codes "a")
    ≡ ok (
      tout_efface,
      rapport_de depots_banque 1 1 1 (refusees depots_banque (consent ∷ []) (banque, 0)),
    )
unfolding lister_actifs_par_proprietaire est_consent_de Consents.supprimer_par_proprietaire
    Rattachement.supprimer_par_proprietaire revoques
effacer_donnees_proprietaire_lem_example =
    effacer_donnees_proprietaire_lem depots_banque (banque, 0) apres_comptes_effaces tout_efface
      (codes "a") (consent ∷ []) 1 1 refl refl refl

effacer_donnees_proprietaire_erreurs_example :
    ((effacer_donnees_proprietaire depots_banque (banque, 0) (codes "a") ≡ err lecture)
      ↔ (depots_banque.lister_actifs_par_proprietaire (banque, 0) (codes "a") ≡ none))
    × ((effacer_donnees_proprietaire depots_banque (banque, 0) (codes "a") ≡ err ecriture)
        ↔ Echoue depots_banque (banque, 0) (codes "a"))
effacer_donnees_proprietaire_erreurs_example =
    effacer_donnees_proprietaire_erreurs depots_banque (banque, 0) (codes "a")

effacer_donnees_proprietaire-Efface_example :
    (m' : Banque × ℕ) × (r : RapportEffacement) × (effacer_donnees_proprietaire depots_banque
        (banque, 0)
        (codes "a")
      ≡ ok (m', r))
    × (r.revocations_demandees ≡ 1)
    × Efface (codes "a") banque m'.0
unfolding lister_actifs_par_proprietaire est_consent_de
effacer_donnees_proprietaire-Efface_example =
    effacer_donnees_proprietaire-Efface ℕ (λ s c. (s, false)) (banque, 0) (codes "a")

masquer_iban-francais : masquer_iban (codes "FR76 3000 1234") ≡ codes "********1234"
unfolding masquer_iban is_whitespace
masquer_iban-francais = refl
