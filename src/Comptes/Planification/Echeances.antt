-- ===== src/Comptes/Planification/Echeances.antt =====
-- The accounts that are due, src/repository/bank_accounts.rs, against the tests of
-- src/domain/synchro.rs.
use ch_api_budgy.Prelude.{
  ℕ, ◌≡◌, sym, Bool, true, false, inl, inr, some, List, [], ◌∷◌, filter, All, All-map, All-imp,
  All-append, Bool-cases, ◌==◌, ltb, arith,
}
use mathlib.Core.Path.{subst}
use mathlib.Core.List
use ch_api_budgy.Prelude.Int.{ℤ}
use ch_api_budgy.Prelude.Sort.{All-perm, sort_by-perm}
use ch_api_budgy.Prelude.Tables.{of_key-All}
use ch_api_budgy.Synchro.{CompteEcheant, Consent, PlanificationSynchro, consentement_expire}
use ch_api_budgy.Comptes.{BankAccountRow, Banque, into_compte_echeant}
use ch_api_budgy.Comptes.Planification.{
  apres_ou_nul, echeance_le, est_actif, est_echeant, joindre, joindre_consents,
  lister_comptes_echeants, reserver_creneau, sous_le_quota, utilises,
}
use ch_api_budgy.Comptes.Planification.Reservation.{CleUnique, ligne, reserver_creneau-cas}

All-filter {ℓ κ} :
    {A : Type ℓ} (P : A → Type κ) (p : A → Bool) (xs : List A)
    → All P xs
    → All (λ x. P x × (p x ≡ true)) (filter p xs)
All-filter P p [] h = tt
All-filter P p (x ∷ xs) h = elim (Bool-cases (p x)) [
  | inl e ↦ rw e ((h.0, e), All-filter P p xs h.1)
  | inr e ↦ rw e (All-filter P p xs h.1)
]

joindre_consents-All :
    (P : BankAccountRow → Type 0) (r : BankAccountRow) (cs : List Consent)
    → P r
    → All (λ p. P p.0) (joindre_consents r cs)
unfolding joindre_consents
joindre_consents-All P r [] h = tt
joindre_consents-All P r (c ∷ cs) h = elim (Bool-cases (c.id == r.consent_id)) [
  | inl e ↦ rw e (h, joindre_consents-All P r cs h)
  | inr e ↦ rw e (joindre_consents-All P r cs h)
]

joindre-All :
    (P : BankAccountRow → Type 0) (rs : List BankAccountRow) (cs : List Consent)
    → All P rs
    → All (λ p. P p.0) (joindre rs cs)
unfolding joindre
joindre-All P [] cs h = tt
joindre-All P (r ∷ rs) cs h =
    All-append _ (joindre_consents r cs) (joindre rs cs) (joindre_consents-All P r cs h.0)
      (joindre-All P rs cs h.1)

contraire : {b : Bool} → b ≡ false → b ≡ true → ⊥
contraire e f = cc

module _ (banque : Banque) (maintenant : ℤ) (jour : ℤ) (quota : ℕ) where
  -- What the synchronisation checks of an account that is due.
  abbrev pub Synchronisable : CompteEcheant → Type 0
  Synchronisable e =
      (consentement_expire e.consent maintenant ≡ false)
      × ((plan : PlanificationSynchro) (now : ℤ)
          → plan.last_sync_day ≡ jour
          → (reserver_creneau banque e.compte.id plan quota now).1 ≡ true)

  non_expire :
      (r : BankAccountRow) (c : Consent)
      → est_echeant maintenant jour quota r c ≡ true
      → (consentement_expire c maintenant ≡ false) × (ltb (utilises jour r) quota ≡ true)
  unfolding est_echeant consentement_expire est_actif apres_ou_nul sous_le_quota
  non_expire r c h = ground (arith, h)

  synchronisable :
      CleUnique banque
      → (r : BankAccountRow) (c : Consent) → ligne banque r.id ≡ some r
      → est_echeant maintenant jour quota r c ≡ true
      → Synchronisable (into_compte_echeant r c)
  unfolding into_compte_echeant consentement_expire
  synchronisable unique r c l h = ((non_expire r c h).0, obtenu)
    where
      obtenu :
          (plan : PlanificationSynchro) (now : ℤ)
          → plan.last_sync_day ≡ jour
          → (reserver_creneau banque r.id plan quota now).1 ≡ true
      obtenu plan now e = elim (reserver_creneau-cas banque r.id plan quota now unique) [
        | inl i ↦ absurd (
            contraire (i.2 r l)
              (subst (λ j. ltb (utilises j r) quota ≡ true) (sym e) (non_expire r c h).1))
        | inr t ↦ t.3
      ]

module _ (date_naive : ℤ → ℤ) where
  -- When the key is unique, each account that is listed as due has a consent that the
  -- synchronisation finds valid at that instant, and a reservation of the account on the same day,
  -- under the same quota, is granted.
  pub lister_comptes_echeants-Synchronisable :
      (banque : Banque) (maintenant : ℤ) (quota : ℕ)
      → CleUnique banque
      → All
          (Synchronisable banque maintenant (date_naive maintenant) quota)
          (lister_comptes_echeants date_naive banque maintenant quota)
  unfolding lister_comptes_echeants
  lister_comptes_echeants-Synchronisable banque maintenant quota unique =
      let jour = date_naive maintenant in
      let lignes = joindre banque.comptes banque.consents in
      let retenus = filter (λ p. est_echeant maintenant jour quota p.0 p.1) lignes in
      All-map _ _ _ (
        All-perm _ (List.Permᴰ.symm (sort_by-perm echeance_le retenus)) (
          All-imp _ _ _ (λ p h. synchronisable banque maintenant jour quota unique p.0 p.1 h.0 h.1)
            (All-filter _ (λ p. est_echeant maintenant jour quota p.0 p.1) lignes
              (joindre-All _ banque.comptes banque.consents
                (of_key-All BankAccountRow.id banque.comptes unique)))))
