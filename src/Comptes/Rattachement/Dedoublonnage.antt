-- ===== src/Comptes/Rattachement/Dedoublonnage.antt =====
-- An account is attached once to a consent: `insert` of src/repository/bank_accounts.rs.
use mathlib.Core.Path.{subst}
use ch_api_budgy.Prelude.{
  ℕ, ◌≡◌, refl, ap, ◌∙◌, Bool, true, inl, inr, Option, none, some, List, [], ◌∷◌, ◌++◌, Bool-cases,
  Option-cases, ==_refl, arith,
}
use ch_api_budgy.Prelude.Int.{ℤ}
use ch_api_budgy.Prelude.Tables.{first}
use ch_api_budgy.Texte.{Texte}
use ch_api_budgy.Texte.Ordre.{text_eq_iff}
use ch_api_budgy.Comptes.{Banque, NouveauBankAccount}
use ch_api_budgy.Comptes.Rattachement.{
  id_de, id_par_dedup, insert, ligne_rattachee, memes_cles, un_consent,
}

first-append {ℓ} :
    {A : Type ℓ} (p : A → Bool) (xs : List A) (x : A)
    → first p xs ≡ none
    → p x ≡ true
    → first p (xs ++ x ∷ []) ≡ some x
first-append p [] x h e = rw e refl
first-append p (y ∷ ys) x h e = elim (Bool-cases (p y)) [
  | inl f ↦ absurd (ground (arith, f, h))
  | inr f ↦ rw f (first-append p ys x (ground (arith, f, h)) e)
]

module _ (dedup_key : ℕ → Texte → Texte) (empreinte_compte : Texte → Texte) where
  abbrev cle : NouveauBankAccount → Texte
  cle n = dedup_key n.consent n.external_account_id

  connue :
      (banque : Banque) (n : NouveauBankAccount) (id : ℕ) (now : ℤ) (i : ℕ)
      → id_par_dedup banque n.consent (cle n) ≡ some i
      → insert dedup_key empreinte_compte banque n id now ≡ some (banque, i)
  unfolding insert
  connue banque n id now i e = rw (insert, e) refl

  -- The account can be found again, under the id that was given.
  abbrev Retrouve : NouveauBankAccount → Option (Banque × ℕ) → Type 0
  Retrouve n none = Unit
  Retrouve n (some (banque, i)) = id_par_dedup banque n.consent (cle n) ≡ some i

  aucune :
      (banque : Banque) (consent : ℕ) (dedup : Texte)
      → id_par_dedup banque consent dedup ≡ none
      → first (memes_cles consent dedup) banque.comptes ≡ none
  unfolding id_par_dedup id_de
  aucune banque consent dedup e =
      elim (Option-cases (first (memes_cles consent dedup) banque.comptes)) [
        | inl f ↦ f
        | inr f ↦ absurd (ground (arith, e, f.1))
      ]

  posee :
      (banque : Banque) (n : NouveauBankAccount) (id : ℕ) (now : ℤ)
      → id_par_dedup banque n.consent (cle n) ≡ none
      → id_par_dedup
          (record banque {
            comptes = banque.comptes ++ ligne_rattachee dedup_key empreinte_compte n id now ∷ [];
          })
          n.consent
          (cle n)
        ≡ some id
  unfolding id_par_dedup memes_cles ligne_rattachee id_de
  posee banque n id now e = ap id_de (
      first-append (memes_cles n.consent (cle n)) banque.comptes
        (ligne_rattachee dedup_key empreinte_compte n id now) (aucune banque n.consent (cle n) e)
        (rw (==_refl n.consent) ((text_eq_iff (cle n) (cle n)).1 refl)))

  retrouve :
      (banque : Banque) (n : NouveauBankAccount) (id : ℕ) (now : ℤ)
      → Retrouve n (insert dedup_key empreinte_compte banque n id now)
  unfolding insert
  retrouve banque n id now = elim (Option-cases (id_par_dedup banque n.consent (cle n))) [
    | inl e ↦ elim (Bool-cases (un_consent n.consent banque.consents)) [
      | inl f ↦ rw (insert, e, f) (posee banque n id now e)
      | inr f ↦ rw (insert, e, f) tt
    ]
    | inr e ↦ rw (insert, e.1) e.1
  ]

  -- Once an account is attached to a consent under an id, attaching the same account of the bank to
  -- the same consent again changes nothing and answers that id, whatever the rest of the request.
  pub insert-insert :
      (banque banque' : Banque) (n m : NouveauBankAccount) (id id' i : ℕ) (now now' : ℤ)
      → insert dedup_key empreinte_compte banque n id now ≡ some (banque', i)
      → m.consent ≡ n.consent
      → m.external_account_id ≡ n.external_account_id
      → insert dedup_key empreinte_compte banque' m id' now' ≡ some (banque', i)
  insert-insert banque banque' n m id id' i now now' h c x = connue banque' m id' now' i (
      ap (λ u. id_par_dedup banque' u (dedup_key u m.external_account_id)) c
      ∙ ap (λ u. id_par_dedup banque' n.consent (dedup_key n.consent u)) x
      ∙ subst (Retrouve n) h (retrouve banque n id now))
