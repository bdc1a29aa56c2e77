-- ===== src/Comptes/SoldeRetenu.antt =====
-- The balance that an account shows: `solde_courant` of src/repository/bank_accounts.rs.
use mathlib.Core.Path.{subst}
use ch_api_budgy.Prelude.{
  ℕ, some_inj, ◌≡◌, refl, Bool, true, false, ◌⊎◌, inl, inr, some, List, [], ◌∷◌, All, All-imp,
  filter, Bool-cases, arith, if◌then◌else◌, ◌==◌,
}
use ch_api_budgy.Prelude.Int.{◌≤ℤ◌}
use ch_api_budgy.Prelude.Sort.{
  IsSorted, IsTotal, IsTransitive, sort_by, sort_by-IsSorted, sort_by-perm, All-perm,
}
use ch_api_budgy.Budget.Solde.{Balance, BalanceType}
use ch_api_budgy.Comptes.{
  Banque, est_de_type, plus_recent, solde_courant, solde_le, tete, vrai_puis,
}

plus_recent_total : IsTotal plus_recent
unfolding plus_recent
plus_recent_total a b = ground arith

plus_recent_trans : IsTransitive plus_recent
unfolding plus_recent
plus_recent_trans a b c p q = ground (arith, p, q)

vrai_puis_total :
    (p q r s : Bool) → (r ≡ true) ⊎ (s ≡ true) → (vrai_puis p q r ≡ true) ⊎ (vrai_puis q p s ≡ true)
unfolding vrai_puis
vrai_puis_total true true r s h = h
vrai_puis_total true false r s h = inl refl
vrai_puis_total false true r s h = inr refl
vrai_puis_total false false r s h = h

vrai_puis_trans :
    (p q r s t u : Bool)
    → (s ≡ true → t ≡ true → u ≡ true)
    → vrai_puis p q s ≡ true
    → vrai_puis q r t ≡ true
    → vrai_puis p r u ≡ true
unfolding vrai_puis
vrai_puis_trans p q r s t u h e f = ground (arith, h, e, f)

-- One level of the order, by a Boolean that stands before the rest.
module _ (cle : Balance → Bool) (reste : Balance → Balance → Bool) where
  abbrev niveau : Balance → Balance → Bool
  niveau a b = vrai_puis (cle a) (cle b) (reste a b)

  niveau_total : IsTotal reste → IsTotal niveau
  niveau_total h a b = vrai_puis_total (cle a) (cle b) (reste a b) (reste b a) (h a b)

  niveau_trans : IsTransitive reste → IsTransitive niveau
  niveau_trans h a b c =
      vrai_puis_trans (cle a) (cle b) (cle c) (reste a b) (reste b c) (reste a c) (h a b c)

abbrev comptable : Balance → Bool
comptable = est_de_type BalanceType.booked

abbrev disponible : Balance → Bool
disponible = est_de_type BalanceType.available

solde_le_total : IsTotal solde_le
unfolding solde_le
solde_le_total =
    niveau_total comptable (niveau disponible plus_recent)
      (niveau_total disponible plus_recent plus_recent_total)

solde_le_trans : IsTransitive solde_le
unfolding solde_le
solde_le_trans =
    niveau_trans comptable (niveau disponible plus_recent)
      (niveau_trans disponible plus_recent plus_recent_trans)

tete-All :
    (le : Balance → Balance → Bool)
    → ((x : Balance) → le x x ≡ true)
    → (b : Balance) (bs : List Balance) → IsSorted le bs
    → tete bs ≡ some b
    → All (λ c. le b c ≡ true) bs
unfolding tete
tete-All le r b [] h e = tt
tete-All le r b (x ∷ xs) h e =
    subst (λ y. All (λ c. le y c ≡ true) (x ∷ xs)) (some_inj e) (r x, h.0)

solde_le_refl : (b : Balance) → solde_le b b ≡ true
solde_le_refl b = elim (solde_le_total b b) [ inl e ↦ e | inr e ↦ e ]

depuis_filtre {ℓ κ} :
    {A : Type ℓ} (P : A → Type κ) (p : A → Bool) (xs : List A)
    → All P (filter p xs)
    → All (λ x. p x ≡ true → P x) xs
depuis_filtre P p [] h = tt
depuis_filtre P p (x ∷ xs) h =
    let selon = λ (b : Bool). All P (if b then x ∷ filter p xs else filter p xs) in
    elim (Bool-cases (p x)) [
      | inl e ↦ (λ f. (subst selon e h).0, depuis_filtre P p xs (subst selon e h).1)
      | inr e ↦ (λ f. absurd (ground (arith, e, f)), depuis_filtre P p xs (subst selon e h))
    ]

-- The balance is booked if any is, and among those of its type none is later.
abbrev pub Retenu : Balance → Balance → Type 0
Retenu b c =
    (comptable c ≡ true → comptable b ≡ true)
    × (b.balance_type ≡ c.balance_type → c.reference_date ≤ℤ b.reference_date)

solde_le-Retenu : (b c : Balance) → solde_le b c ≡ true → Retenu b c
unfolding solde_le vrai_puis plus_recent est_de_type
solde_le-Retenu b c h = (ground (arith, h), λ e. ground (arith, h, e))

module _ (banque : Banque) (compte : ℕ) where
  abbrev soldes_de : List Balance
  soldes_de = filter (λ b. b.bank_account == compte) banque.soldes

  -- The balance that is retained is preferred to every balance of the account: it is booked as soon
  -- as one is, and none of its own type has a later date.
  pub solde_courant-Retenu :
      (b : Balance)
      → solde_courant banque compte ≡ some b
      → All (λ c. (c.bank_account == compte) ≡ true → Retenu b c) banque.soldes
  unfolding solde_courant
  solde_courant-Retenu b e =
      depuis_filtre _ (λ c. c.bank_account == compte) banque.soldes
        (All-imp _ _ soldes_de (solde_le-Retenu b) (
          All-perm _ (sort_by-perm solde_le soldes_de) (
            tete-All solde_le solde_le_refl b (sort_by solde_le soldes_de)
              (sort_by-IsSorted solde_le solde_le_total solde_le_trans soldes_de) e)))
