-- ===== src/Banques/Refus.antt =====
-- The refusal of an account that somebody else has: src/handlers/banques.rs.
use mathlib.Core.Path.{subst}
use ch_api_budgy.Prelude.{
  ℕ, ◌≡◌, refl, sym, ap, ◌∙◌, Bool, true, false, inl, inr, some, List, [], ◌∷◌, ◌++◌, ok, err, All,
  Bool-cases, Option-cases,
}
use ch_api_budgy.Prelude.Int.{ℤ}
use ch_api_budgy.Prelude.Tables.{update}
use ch_api_budgy.Texte.{Texte, trim}
use ch_api_budgy.Synchro.{BankAccount, Consent, ConsentStatus}
use ch_api_budgy.Comptes.{Banque}
use ch_api_budgy.Comptes.Rattachement.{proprietaire_concurrent}
use ch_api_budgy.Consents.{
  est_le_consent, fetch_pour_proprietaire, marquer_statut_proprietaire, mettre_a_jour, modifier,
  poser_statut,
}
use ch_api_budgy.Banques.{
  Contexte, activer, apres_autorisation, apres_comptes, apres_controle, complete_consent, completer,
  conflict, echec_consentement, est_en_attente, premier_concurrent,
}

-- After a mark, each consent of that key and owner has the status.
marques :
    (p : Texte) (id : ℕ) (t : ConsentStatus) (now : ℤ) (cs : List Consent)
    → All
        (λ c. est_le_consent p id c ≡ true → c.status ≡ t)
        (update (est_le_consent p id) (poser_statut t now) cs)
unfolding poser_statut
marques p id t now [] = tt
marques p id t now (c ∷ cs) = elim (Bool-cases (est_le_consent p id c)) [
  | inl e ↦ rw e (λ f. refl, marques p id t now cs)
  | inr e ↦ rw e (λ f. absurd (contraire e f), marques p id t now cs)
]
  where
    contraire : {b : Bool} → b ≡ false → b ≡ true → ⊥
    contraire e f = cc

module _ (c : Contexte) (p : Texte) where
  trouve_concurrent :
      (banque : Banque) (avant apres : List BankAccount) (d : BankAccount) (autre : Texte)
      → proprietaire_concurrent c.empreinte_compte banque d.external_account_id p ≡ some autre
      → (a : Texte) × (premier_concurrent c banque p (avant ++ d ∷ apres) ≡ some a)
  unfolding premier_concurrent
  trouve_concurrent banque [] apres d autre h = (autre, rw (premier_concurrent, h) refl)
  trouve_concurrent banque (b ∷ avant) apres d autre h =
      let ih = trouve_concurrent banque avant apres d autre h in
      elim (Option-cases
        (proprietaire_concurrent c.empreinte_compte banque b.external_account_id p)) [
          | inl e ↦ (ih.0, rw (premier_concurrent, e) ih.1)
          | inr e ↦ (e.0, rw (premier_concurrent, e.1) refl)
        ]

  active :
      (banque : Banque) (id : ℕ) (actif : Consent) (now : ℤ) (externe : Texte)
      → proprietaire_concurrent c.empreinte_compte (activer c banque p id actif now) externe p
        ≡ proprietaire_concurrent c.empreinte_compte banque externe p
  unfolding activer mettre_a_jour modifier proprietaire_concurrent
  active banque id actif now externe = refl

  -- The answer, the accounts, and the status of the consent after a refusal.
  abbrev pub EstRefuse : Banque → ℕ → Banque → Type 0
  EstRefuse banque id banque' =
      (banque'.comptes ≡ banque.comptes)
      × All (λ d. est_le_consent p id d ≡ true → d.status ≡ ConsentStatus.failed) banque'.consents

  refuse :
      (banque : Banque) (id : ℕ) (actif : Consent) (now : ℤ)
      → EstRefuse banque id (echec_consentement c (activer c banque p id actif now) p id now)
  unfolding echec_consentement marquer_statut_proprietaire activer mettre_a_jour modifier
  refuse banque id actif now = (refl, marques p id ConsentStatus.failed now _)

  module _ (state code : Texte) (now : ℤ) (k : ℕ) (banque : Banque) (s s₁ s₂ : c.Source) where
    connu :
        (id : ℕ)
        → c.parse_uuid (trim state) ≡ some id
        → complete_consent c p state code now k (banque, s)
          ≡ completer c p state code now k id (banque, s) (fetch_pour_proprietaire banque p id)
    unfolding complete_consent
    connu id u = rw (complete_consent, u) refl

    en_attente :
        (id : ℕ) (consent : Consent)
        → est_en_attente consent.status ≡ true
        → completer c p state code now k id (banque, s) (some consent)
          ≡ apres_autorisation c p id now k banque (
              c.completer_consentement s p
                (record { reference_autorisation = state; code_autorisation = code }))
    unfolding completer
    en_attente id consent a = rw (completer, a) refl

    chemin :
        (id : ℕ) (consent actif : Consent) (avant apres : List BankAccount) (d : BankAccount)
        (autre : Texte)
        → c.parse_uuid (trim state) ≡ some id
        → fetch_pour_proprietaire banque p id ≡ some consent
        → est_en_attente consent.status ≡ true
        → c.completer_consentement s p
            (record { reference_autorisation = state; code_autorisation = code })
          ≡ (s₁, ok actif)
        → c.lister_comptes s₁ actif ≡ (s₂, ok (avant ++ d ∷ apres))
        → proprietaire_concurrent c.empreinte_compte banque d.external_account_id p ≡ some autre
        → complete_consent c p state code now k (banque, s)
          ≡ ((echec_consentement c (activer c banque p id actif now) p id now, s₂), err conflict)
    unfolding apres_autorisation apres_comptes apres_controle
    chemin id consent actif avant apres d autre u f a g l h =
        let b = activer c banque p id actif now in
        let t =
          trouve_concurrent b avant apres d autre
            (active banque id actif now d.external_account_id ∙ h) in
        connu id u
        ∙ ap (completer c p state code now k id (banque, s)) f
        ∙ en_attente id consent a
        ∙ ap (apres_autorisation c p id now k banque) g
        ∙ ap (apres_comptes c p id now k b) l
        ∙ ap (apres_controle c p id now k (avant ++ d ∷ apres) s₂ b) t.1

    -- A pending consent, which the bank completes, and the accounts that the bank returns: when one
    -- of them is attached to somebody else, the answer is a conflict, no account is attached or
    -- changed, not even those that nobody else has, and the consent has failed.
    pub complete_consent_conflit :
        (id : ℕ) (consent actif : Consent) (avant apres : List BankAccount) (d : BankAccount)
        (autre : Texte)
        → c.parse_uuid (trim state) ≡ some id
        → fetch_pour_proprietaire banque p id ≡ some consent
        → est_en_attente consent.status ≡ true
        → c.completer_consentement s p
            (record { reference_autorisation = state; code_autorisation = code })
          ≡ (s₁, ok actif)
        → c.lister_comptes s₁ actif ≡ (s₂, ok (avant ++ d ∷ apres))
        → proprietaire_concurrent c.empreinte_compte banque d.external_account_id p ≡ some autre
        → ((complete_consent c p state code now k (banque, s)).1 ≡ err conflict)
          × EstRefuse banque id (complete_consent c p state code now k (banque, s)).0.0
    complete_consent_conflit id consent actif avant apres d autre u f a g l h =
        subst (λ r. (r.1 ≡ err conflict) × EstRefuse banque id r.0.0)
          (sym (chemin id consent actif avant apres d autre u f a g l h))
          (refl, refuse banque id actif now)
