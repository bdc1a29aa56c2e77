-- ===== src/Budget/Solde/Totaux.antt =====
-- The consolidated totals of src/domain/solde_consolide.rs as sums of integers.
use ch_api_budgy.Prelude.{
  ℕ, ◌+◌, ◌-◌, ◌^◌, ◌≤◌, ◌≡◌, ap, ◌∙◌, List, [], ◌∷◌, Option, none, some, arith, All, true, false,
  ◌⊎◌, inl, inr, refl, Option-cases,
}
use ch_api_budgy.Prelude.Int.{ℤ, pos, pos_part, neg_part, ◌+ℤ◌, int_laws}
use ch_api_budgy.Prelude.I64.{saturating_add, saturating_add_exact}
use ch_api_budgy.Budget.Solde.{
  Balance, CompteAvecSolde, total_courant, total_a_venir, montant_a_venir, un_solde_a_venir,
  consolider,
}

abbrev pub size : ℤ → ℕ
size a = pos_part a + neg_part a

pub size-+ℤ : (a b : ℤ) → size (a +ℤ b) ≤ size a + size b
unfolding ◌+ℤ◌
size-+ℤ a b = ground arith

no_saturation : (a b : ℤ) → size a + size b ≤ 2 ^ 63 - 1 → saturating_add a b ≡ a +ℤ b
no_saturation a b h = saturating_add_exact a b (omega (arith, size-+ℤ a b))

pub regroup : (a b c : ℤ) → a +ℤ b +ℤ c ≡ a +ℤ (b +ℤ c)
regroup a b c = omega int_laws

pub zero_left : (a : ℤ) → pos 0 +ℤ a ≡ a
zero_left a = omega int_laws

ajout_courant :
    (acc : ℤ) (o : Option Balance)
    → size acc + size (elim o [ none ↦ pos 0 | some s ↦ s.amount_cents ]) ≤ 2 ^ 63 - 1
    → (elim o [ none ↦ acc | some s ↦ saturating_add acc s.amount_cents ])
      ≡ acc +ℤ (elim o [ none ↦ pos 0 | some s ↦ s.amount_cents ])
ajout_courant acc none h = omega int_laws
ajout_courant acc (some s) h = no_saturation acc s.amount_cents h

module _ {Compte : Type 0} where
  -- The current balance of an account, zero where none is known.
  abbrev pub montant_courant : CompteAvecSolde Compte → ℤ
  montant_courant c = elim c.solde [ none ↦ pos 0 | some s ↦ s.amount_cents ]

  abbrev pub somme : (CompteAvecSolde Compte → ℤ) → List (CompteAvecSolde Compte) → ℤ
  somme f [] = pos 0
  somme f (c ∷ cs) = f c +ℤ somme f cs

  -- The balance to come of an account, or else its current one, or else zero.
  abbrev pub a_venir : CompteAvecSolde Compte → ℤ
  a_venir c = elim c.solde_a_venir [ none ↦ montant_courant c | some s ↦ s.amount_cents ]

  -- No account exposes a balance to come.
  abbrev pub SansVenir : List (CompteAvecSolde Compte) → Type 0
  SansVenir cs = All (λ c. c.solde_a_venir ≡ none) cs

  -- The sum of the absolute values, which bounds every partial sum.
  abbrev pub ampleur : (CompteAvecSolde Compte → ℤ) → List (CompteAvecSolde Compte) → ℕ
  ampleur f [] = 0
  ampleur f (c ∷ cs) = size (f c) + ampleur f cs

  total_courant_lem :
      (acc : ℤ) (cs : List (CompteAvecSolde Compte))
      → size acc + ampleur montant_courant cs ≤ 2 ^ 63 - 1
      → total_courant acc cs ≡ acc +ℤ somme montant_courant cs
  unfolding total_courant
  total_courant_lem acc [] h = omega int_laws
  total_courant_lem acc (c ∷ cs) h =
      let m = montant_courant c in
      rw (ajout_courant acc c.solde (omega arith)) (
        total_courant_lem (acc +ℤ m) cs (omega (arith, size-+ℤ acc m))
        ∙ regroup acc m (somme montant_courant cs))

  montant_a_venir_lem : (c : CompteAvecSolde Compte) → montant_a_venir c ≡ a_venir c
  unfolding montant_a_venir
  montant_a_venir_lem c = elim (Option-cases c.solde_a_venir) [
    | inl e ↦ rw e refl
    | inr e ↦ rw e.1 refl
  ]

  total_a_venir_lem :
      (acc : ℤ) (cs : List (CompteAvecSolde Compte))
      → size acc + ampleur a_venir cs ≤ 2 ^ 63 - 1
      → total_a_venir acc cs ≡ acc +ℤ somme a_venir cs
  unfolding total_a_venir
  total_a_venir_lem acc [] h = omega int_laws
  total_a_venir_lem acc (c ∷ cs) h =
      let m = a_venir c in
      rw (montant_a_venir_lem c, no_saturation acc m (omega arith))
        (total_a_venir_lem (acc +ℤ m) cs (omega (arith, size-+ℤ acc m))
          ∙ regroup acc m (somme a_venir cs))

  un_solde_a_venir_lem :
      (cs : List (CompteAvecSolde Compte))
      → ((un_solde_a_venir cs ≡ false) × SansVenir cs)
        ⊎ ((un_solde_a_venir cs ≡ true) × (¬ SansVenir cs))
  unfolding un_solde_a_venir
  un_solde_a_venir_lem [] = inl (refl, tt)
  un_solde_a_venir_lem (c ∷ cs) = elim (Option-cases c.solde_a_venir) [
    | inl e ↦ elim (un_solde_a_venir_lem cs) [
      | inl h ↦ inl (rw e (h.0), (e, h.1))
      | inr h ↦ inr (rw e (h.0), λ a. h.1 a.1)
    ]
    | inr e ↦ inr (rw e.1 refl, λ a. absurd (ground (arith, e.1, a.0)))
  ]

  -- As long as the absolute values add up to at most `i64::MAX`, the total is the sum of the known
  -- current balances; the total to come is there exactly when some account exposes one, and is then
  -- the sum of the balances to come, the current balance standing in for a missing one.
  pub consolider_exact :
      (comptes : List (CompteAvecSolde Compte))
      → ampleur montant_courant comptes ≤ 2 ^ 63 - 1
      → ampleur a_venir comptes ≤ 2 ^ 63 - 1
      → let s = consolider comptes in
        (s.total_cents ≡ somme montant_courant comptes)
        × ((SansVenir comptes × (s.total_a_venir_cents ≡ none))
            ⊎ ((¬ SansVenir comptes) × (s.total_a_venir_cents ≡ some (somme a_venir comptes))))
  unfolding consolider
  consolider_exact comptes h k = (
    total_courant_lem (pos 0) comptes (omega arith) ∙ zero_left _,
    elim (un_solde_a_venir_lem comptes) [
      | inl (e, sans) ↦ inl (sans, rw e refl)
      | inr (e, avec) ↦ inr (
        avec,
        rw e (ap (λ t. some t) (total_a_venir_lem (pos 0) comptes (omega arith) ∙ zero_left _)),
      )
    ],
  )
