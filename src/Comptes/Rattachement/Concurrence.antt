-- ===== src/Comptes/Rattachement/Concurrence.antt =====
-- The guard against a bank account that somebody else has attached, src/repository/bank_accounts.rs.
use ch_api_budgy.Prelude.{
  ◌≡◌, ◌≢◌, refl, ap, Bool, true, false, not, ◌&&◌, ◌⊎◌, inl, inr, none, some, List, [], ◌∷◌, All,
  All-imp, Bool-cases, arith, if◌then◌else◌,
}
use ch_api_budgy.Prelude.Tables.{first, update}
use ch_api_budgy.Texte.{Texte, text_eq}
use ch_api_budgy.Texte.Ordre.{text_eq_iff}
use ch_api_budgy.Comptes.{BankAccountRow, Banque}
use ch_api_budgy.Comptes.Rattachement.{
  a_l_empreinte, poser_empreinte, proprietaire_concurrent, proprietaire_de, reprendre_empreintes,
  sans_empreinte,
}

abbrev Trouve {ℓ} : {A : Type ℓ} → (A → Bool) → List A → Type ℓ
Trouve {A} p xs = (y : A) × (first p xs ≡ some y) × (p y ≡ true)

partout {ℓ κ} : {A : Type ℓ} {P : A → Type κ} (xs : List A) → ((x : A) → P x) → All P xs
partout [] f = tt
partout (x ∷ xs) f = (f x, partout xs f)

first-Trouve {ℓ} :
    {A : Type ℓ} (p : A → Bool) (xs : List A) → All (λ x. p x ≡ true → Trouve p xs) xs
first-Trouve p [] = tt
first-Trouve p (x ∷ xs) = elim (Bool-cases (p x)) [
  | inl e ↦ partout (x ∷ xs) (λ y h. (x, rw e refl, e))
  | inr e ↦ (
    λ h. absurd (ground (arith, e, h)),
    All-imp _ _ xs (λ y f h. let t = f h in (t.0, rw e t.1, t.2)) (first-Trouve p xs),
  )
]

echanger {ℓ κ μ} :
    {I : Type μ} {A : Type ℓ} (P : I → A → Type κ) (xs : List A)
    → ((i : I) → All (P i) xs)
    → All (λ x. (i : I) → P i x) xs
echanger P [] f = tt
echanger P (x ∷ xs) f = (λ i. (f i).0, echanger P xs (λ i. (f i).1))

ensemble {ℓ κ μ ν} :
    {A : Type ℓ} {P : A → Type κ} {Q : A → Type μ} {R : A → Type ν} (xs : List A)
    → ((x : A) → P x → Q x → R x)
    → All P xs
    → All Q xs
    → All R xs
ensemble [] f p q = tt
ensemble (x ∷ xs) f p q = (f x p.0 q.0, ensemble xs f p.1 q.1)

module _ (empreinte_compte : Texte → Texte) where
  -- The fingerprint of a row, if it has one, is that of its account.
  abbrev pub Juste : BankAccountRow → Type 0
  Juste r =
      (r.empreinte_compte ≡ none)
      ⊎ (r.empreinte_compte ≡ some (empreinte_compte r.external_account_id))

  abbrev Posee : BankAccountRow → Type 0
  Posee r = r.empreinte_compte ≡ some (empreinte_compte r.external_account_id)

  poser :
      (r : BankAccountRow)
      → Juste r
      → Posee (if sans_empreinte r then poser_empreinte empreinte_compte r else r)
  unfolding sans_empreinte poser_empreinte
  poser r (inl e) = rw e refl
  poser r (inr e) = rw e refl

  tous_posees :
      (rs : List BankAccountRow)
      → All Juste rs
      → All Posee (update sans_empreinte (poser_empreinte empreinte_compte) rs)
  tous_posees [] h = tt
  tous_posees (r ∷ rs) h = (poser r h.0, tous_posees rs h.1)

  -- Somebody, who is not the one who asks, has the account.
  abbrev pub Signale : Banque → Texte → Texte → Type 0
  Signale banque externe demandeur =
      (p : Texte) × (proprietaire_concurrent empreinte_compte banque externe demandeur ≡ some p)
      × (p ≢ demandeur)

  signale :
      (banque : Banque) (externe demandeur : Texte)
      → Trouve
          (λ r. a_l_empreinte (empreinte_compte externe) r && not (text_eq r.owner_id demandeur))
          banque.comptes
      → Signale banque externe demandeur
  unfolding proprietaire_concurrent proprietaire_de
  signale banque externe demandeur t = (
    t.0.owner_id,
    ap proprietaire_de t.1,
    λ e. absurd (ground (arith, t.2, (text_eq_iff t.0.owner_id demandeur).1 e)),
  )

  reconnue :
      (r : BankAccountRow)
      → Posee r
      → a_l_empreinte (empreinte_compte r.external_account_id) r ≡ true
  unfolding a_l_empreinte
  reconnue r e = rw e (
      (text_eq_iff (empreinte_compte r.external_account_id)
          (empreinte_compte r.external_account_id)).1
        refl)

  different : (a b : Texte) → a ≢ b → text_eq a b ≡ false
  different a b d = elim (Bool-cases (text_eq a b)) [
    | inl e ↦ absurd (d ((text_eq_iff a b).0 e))
    | inr e ↦ e
  ]

  -- A row that is found by its own fingerprint.
  ligne_signalee :
      (banque : Banque) (r : BankAccountRow)
      → Posee r
      → ((externe demandeur : Texte)
          → (a_l_empreinte (empreinte_compte externe) r && not (text_eq r.owner_id demandeur))
            ≡ true
          → Trouve
              (λ x.
                a_l_empreinte (empreinte_compte externe) x && not (text_eq x.owner_id demandeur))
              banque.comptes)
      → (demandeur : Texte) → r.owner_id ≢ demandeur
      → Signale banque r.external_account_id demandeur
  ligne_signalee banque r posee trouve demandeur d =
      signale banque r.external_account_id demandeur (
        trouve r.external_account_id demandeur
          (rw (reconnue r posee, different r.owner_id demandeur d) refl))

  -- When each fingerprint that is there is right, then once the missing ones are computed, each
  -- account of the table is reported to whoever is not its owner, and the owner who is named is
  -- never the one who asks.
  pub reprendre_empreintes-Signale :
      (banque : Banque)
      → All Juste banque.comptes
      → All
          (λ r.
            (demandeur : Texte)
            → r.owner_id ≢ demandeur
            → Signale
                (reprendre_empreintes empreinte_compte banque).0
                r.external_account_id
                demandeur)
          (reprendre_empreintes empreinte_compte banque).0.comptes
  unfolding reprendre_empreintes
  reprendre_empreintes-Signale banque h =
      let banque' = (reprendre_empreintes empreinte_compte banque).0 in
      ensemble banque'.comptes
        (λ r p t. ligne_signalee banque' r p (λ externe demandeur. t (externe, demandeur)))
        (tous_posees banque.comptes h)
        (echanger {I = Texte × Texte} _ banque'.comptes (λ i.
          first-Trouve (λ x. a_l_empreinte (empreinte_compte i.0) x && not (text_eq x.owner_id i.1))
            banque'.comptes))
