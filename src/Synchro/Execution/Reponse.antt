-- ===== src/Synchro/Execution/Reponse.antt =====
-- What the bank answers and what is written of it, and the tests on the consent, apart from the run:
-- src/domain/synchro.rs.
use mathlib.Core.Path.{ap₂}
use ch_api_budgy.Prelude.{
  ℕ, ◌≡◌, refl, ap, ◌∙◌, Bool, true, false, Option, none, some, List, [], ◌∷◌, Result, ok, err,
  ◌&&◌, ◌||◌, Option-cases, ◌⊎◌, inl, inr, arith,
}
use ch_api_budgy.Prelude.Int.{ℤ, ◌+ℤ◌, ◌<ℤ◌, ◌≤ℤ◌, ltb_ℤ, leb_ℤ}
use ch_api_budgy.Budget.Solde.{Balance}
use ch_api_budgy.Transactions.{TransactionBancaire}
use ch_api_budgy.Transactions.Insertion.{ResultatInsertion, inseree, doublon}
use ch_api_budgy.Synchro.{
  BankAccount, BankDataSourceError, Consent, ConsentStatus, ParametresSynchro, Ports,
  RemonteeCompte, consentement_expire, renouvellement_requis, vers_nouvelle_balance,
  vers_nouvelle_transaction,
}
use ch_api_budgy.Synchro.Execution.{
  Etat, apres_soldes, apres_transactions, les_soldes, les_transactions, depuis_pour,
  remonter_donnees, un_solde, une_transaction,
}

-- The consent can be used at an instant, and it is about to end.
abbrev pub Valide : Consent → ℤ → Type 0
Valide c t =
    (c.status ≡ ConsentStatus.active) × (elim c.expires_at [ none ↦ Unit | some e ↦ t <ℤ e ])

abbrev pub Bientot : Consent → ℤ → ℤ → Type 0
Bientot c t marge = elim c.expires_at [ none ↦ ⊥ | some e ↦ (t <ℤ e) × (e ≤ℤ t +ℤ marge) ]

abbrev pub Demande : Bool → Type 0 → Type 0
Demande true P = P
Demande false P = ¬ P

statuts :
    (s : ConsentStatus)
    → (s ≡ ConsentStatus.active)
      ⊎ ((s ≡ ConsentStatus.pending)
          ⊎ ((s ≡ ConsentStatus.expired)
              ⊎ ((s ≡ ConsentStatus.revoked) ⊎ (s ≡ ConsentStatus.failed))))
statuts ConsentStatus.active = inl refl
statuts ConsentStatus.pending = inr (inl refl)
statuts ConsentStatus.expired = inr (inr (inl refl))
statuts ConsentStatus.revoked = inr (inr (inr (inl refl)))
statuts ConsentStatus.failed = inr (inr (inr (inr refl)))

pub Valide_lem :
    (c : Consent) (t : ℤ)
    → (consentement_expire c t ≡ true → ¬ Valide c t)
      × (consentement_expire c t ≡ false → Valide c t)
unfolding consentement_expire
Valide_lem c t = elim (statuts c.status) [
  | inl e ↦ elim (Option-cases c.expires_at) [
    | inl n ↦ rw (e, n) (λ h v. ground (arith, h), λ h. (refl, tt))
    | inr (x, n) ↦ rw (e, n) (λ h v. ground (arith, h, v.1), λ h. (refl, ground (arith, h)))
  ]
  | inr (inl e) ↦ rw e (λ h v. cc, λ h. absurd (ground (arith, h)))
  | inr (inr (inl e)) ↦ rw e (λ h v. cc, λ h. absurd (ground (arith, h)))
  | inr (inr (inr (inl e))) ↦ rw e (λ h v. cc, λ h. absurd (ground (arith, h)))
  | inr (inr (inr (inr e))) ↦ rw e (λ h v. cc, λ h. absurd (ground (arith, h)))
]

pub Bientot_lem :
    (c : Consent) (t marge : ℤ) → Demande (renouvellement_requis c t marge) (Bientot c t marge)
unfolding renouvellement_requis
Bientot_lem c t marge = elim (Option-cases c.expires_at) [
  | inl n ↦ rw n (λ b. b)
  | inr (x, n) ↦ rw n (borne (ltb_ℤ t x && leb_ℤ x (t +ℤ marge)) x refl)
]
  where
    borne :
        (b : Bool) (x : ℤ)
        → (ltb_ℤ t x && leb_ℤ x (t +ℤ marge)) ≡ b
        → Demande b ((t <ℤ x) × (x ≤ℤ t +ℤ marge))
    borne true x h = (ground arith, ground arith)
    borne false x h = λ v. ground (arith, h, v.0, v.1)

module _ (ports : Ports) (parametres : ParametresSynchro) (maintenant : ℤ) where
  -- The balances written in turn: the outside after them, and whether one was.
  unfoldable pub soldes_ecrits : List Balance → ports.Monde → ports.Monde × Bool
  soldes_ecrits [] m = (m, false)
  soldes_ecrits (b ∷ bs) m =
      let w = ports.enregistrer_solde m (vers_nouvelle_balance b) in
      let r = soldes_ecrits bs w.0 in (r.0, w.1 || r.1)

  -- The two calls of the bank, the second after the balances are written.
  abbrev pub lues :
      Bool → Result BankDataSourceError (List TransactionBancaire) → Result BankDataSourceError Bool
  lues ecrit (err e) = err e
  lues ecrit (ok ts) = ok ecrit

  abbrev pub lus :
      Consent
      → BankAccount
      → ports.Monde
      → Result BankDataSourceError (List Balance)
      → Result BankDataSourceError Bool
  lus consent compte m (err e) = err e
  lus consent compte m (ok bs) =
      let r = soldes_ecrits bs m in
      lues r.1 (
        ports.lister_transactions r.0 consent compte
          (depuis_pour ports parametres maintenant compte))

  abbrev pub reponse : Consent → BankAccount → ports.Monde → Result BankDataSourceError Bool
  reponse consent compte m = lus consent compte m (ports.solde m consent compte)

  open ports use {Monde}

  unfoldable pub ecrit : Result BankDataSourceError RemonteeCompte → Result BankDataSourceError Bool
  ecrit (err e) = err e
  ecrit (ok r) = ok r.solde_mis_a_jour

  un_solde_lem :
      (b : Bool) (s : Etat Monde) (r : RemonteeCompte)
      → ((un_solde ports parametres maintenant b s r).0.monde ≡ s.monde)
        × ((un_solde ports parametres maintenant b s r).1.solde_mis_a_jour
            ≡ (r.solde_mis_a_jour || b))
  unfolding un_solde
  un_solde_lem true s r = (refl, ground arith)
  un_solde_lem false s r = (refl, ground arith)

  les_soldes_lem :
      (bs : List Balance) (s : Etat Monde) (r : RemonteeCompte)
      → let u = les_soldes ports parametres maintenant bs (s, r) in
        let v = soldes_ecrits bs s.monde in
        (u.0.monde ≡ v.0) × (u.1.solde_mis_a_jour ≡ (r.solde_mis_a_jour || v.1))
  unfolding les_soldes soldes_ecrits
  les_soldes_lem [] s r = (refl, ground arith)
  les_soldes_lem (b ∷ bs) s r =
      let w = ports.enregistrer_solde s.monde (vers_nouvelle_balance b) in
      let u = un_solde ports parametres maintenant w.1 (record s { monde = w.0 }) r in
      let l = un_solde_lem w.1 (record s { monde = w.0 }) r in
      let ih = les_soldes_lem bs u.0 u.1 in
      (
        ih.0 ∙ ap (λ m. (soldes_ecrits bs m).0) l.0,
        ih.1 ∙ ap₂ (λ f m. f || (soldes_ecrits bs m).1) l.1 l.0 ∙ ou_assoc r.solde_mis_a_jour w.1 _,
      )
    where
      ou_assoc : (a b c : Bool) → ((a || b) || c) ≡ (a || (b || c))
      ou_assoc a b c = ground arith

  une_transaction_lem :
      (o : Option ResultatInsertion) (s : Etat Monde) (r : RemonteeCompte)
      → (une_transaction ports parametres maintenant o s r).1.solde_mis_a_jour ≡ r.solde_mis_a_jour
  unfolding une_transaction
  une_transaction_lem none s r = refl
  une_transaction_lem (some (inseree _)) s r = refl
  une_transaction_lem (some doublon) s r = refl

  les_transactions_lem :
      (c : ℕ) (ts : List TransactionBancaire) (s : Etat Monde) (r : RemonteeCompte)
      → (les_transactions ports parametres maintenant c ts (s, r)).1.solde_mis_a_jour
        ≡ r.solde_mis_a_jour
  unfolding les_transactions
  les_transactions_lem c [] s r = refl
  les_transactions_lem c (t ∷ ts) s r =
      let w = ports.enregistrer s.monde (vers_nouvelle_transaction c t) in
      let u = une_transaction ports parametres maintenant w.1 (record s { monde = w.0 }) r in
      les_transactions_lem c ts u.0 u.1 ∙ une_transaction_lem w.1 (record s { monde = w.0 }) r

  apres_transactions_lem :
      (c : ℕ) (s : Etat Monde) (r : RemonteeCompte)
      (x : Result BankDataSourceError (List TransactionBancaire))
      → ecrit (apres_transactions ports parametres maintenant c (s, r) x).1
        ≡ lues r.solde_mis_a_jour x
  unfolding apres_transactions ecrit
  apres_transactions_lem c s r (err e) = refl
  apres_transactions_lem c s r (ok ts) = ap (λ b. ok b) (les_transactions_lem c ts s r)

  apres_soldes_lem :
      (consent : Consent) (compte : BankAccount) (s : Etat Monde)
      (x : Result BankDataSourceError (List Balance))
      → ecrit (apres_soldes ports parametres maintenant consent compte s x).1
        ≡ lus consent compte s.monde x
  unfolding apres_soldes ecrit
  apres_soldes_lem consent compte s (err e) = refl
  apres_soldes_lem consent compte s (ok bs) =
      let vide : RemonteeCompte = record { transactions_inserees = 0; solde_mis_a_jour = false } in
      let r = les_soldes ports parametres maintenant bs (s, vide) in
      let l = les_soldes_lem bs s vide in
      apres_transactions_lem compte.id r.0 r.1 (
        ports.lister_transactions r.0.monde consent compte
          (depuis_pour ports parametres maintenant compte))
      ∙ ap₂
          (λ b m. lues b (
            ports.lister_transactions m consent compte
              (depuis_pour ports parametres maintenant compte)))
          l.1 l.0

  -- What is brought back from the bank is its answer.
  pub remonter_donnees_lem :
      (consent : Consent) (compte : BankAccount) (s : Etat Monde)
      → ecrit (remonter_donnees ports parametres maintenant consent compte s).1
        ≡ reponse consent compte s.monde
  unfolding remonter_donnees
  remonter_donnees_lem consent compte s = apres_soldes_lem consent compte s _
