-- ===== src/EnableBanking/Montants.antt =====
-- The amounts of the bank's service, src/adapters/bank/enable_banking/mapping.rs.
use mathlib.Core.Path.{subst}
use ch_api_budgy.Prelude.{
  ℕ, ◌⊎◌, ◌≡◌, refl, sym, ◌∙◌, true, Option, none, some, [], ◌∷◌, Result, ok, err, Bool-cases,
  Option-cases, inl, inr, arith, ◌==◌,
}
use ch_api_budgy.Prelude.Int.{ℤ, pos, ◌≤ℤ◌, ◌<ℤ◌, ◌-ℤ◌, int_laws, eq_of_parts}
use ch_api_budgy.Prelude.I64.{
  InRange, i64_max, i64_min, neg_i64_exact, abs_i64, add_i64, neg_i64, wrap, wrap-InRange,
}
use ch_api_budgy.Texte.{Texte, trim, is_empty}
use ch_api_budgy.Synchro.{BankAccount}
use ch_api_budgy.Transactions.{TransactionBancaire}
use ch_api_budgy.Cycle.Saisie.{plus, tiret}
use ch_api_budgy.EnableBanking.{
  libelle, MontantWire, ReponseInvalide, TransactionWire, assembler, avec_le_sens, avec_reference,
  est_un_debit, montant_en_centimes, opposer, reference_externe, sans_signe, signe, transaction_de,
  transaction_sans_reference, vers_transaction,
}

-- What is read is an `i64`.
abbrev DansI64 : Result ReponseInvalide ℤ → Type 0
DansI64 (err e) = Unit
DansI64 (ok n) = InRange n

assembler-DansI64 : (c n : Result ReponseInvalide ℤ) → DansI64 (assembler c n)
unfolding assembler add_i64
assembler-DansI64 (err e) n = tt
assembler-DansI64 (ok c) (err e) = tt
assembler-DansI64 (ok c) (ok n) = wrap-InRange _

opposer-DansI64 : (r : Result ReponseInvalide ℤ) → DansI64 (opposer r)
unfolding opposer neg_i64
opposer-DansI64 (ok n) = wrap-InRange _
opposer-DansI64 (err e) = tt

abs_positif : (n : ℤ) → pos 0 ≤ℤ n → abs_i64 n ≡ n
unfolding abs_i64
abs_positif n h = ground (arith, h)

abs_negatif : (n : ℤ) → n <ℤ pos 0 → abs_i64 n ≡ neg_i64 n
unfolding abs_i64
abs_negatif n h = ground (arith, h)

oppose : (n : ℤ) → i64_min <ℤ n → n ≤ℤ i64_max → InRange (pos 0 -ℤ n)
oppose n l u = (omega (int_laws, l), omega (int_laws, l))

cas : (n : ℤ) → InRange n → (pos 0 ≤ℤ n) ⊎ ((n <ℤ pos 0) × (i64_min <ℤ n)) ⊎ (n ≡ i64_min)
cas n h = ground (arith, eq_of_parts n i64_min, h)

moindre : neg_i64 (abs_i64 i64_min) ≤ℤ pos 0
unfolding neg_i64 abs_i64 wrap ◌-ℤ◌
moindre = omega arith

-- `-x.abs()` is never positive, even for the least `i64`.
debit : (n : ℤ) → InRange n → neg_i64 (abs_i64 n) ≤ℤ pos 0
debit n h = elim (cas n h) [
  | inl p ↦
      subst (λ x. neg_i64 x ≤ℤ pos 0) (sym (abs_positif n p))
        (subst (λ x. x ≤ℤ pos 0) (sym (neg_i64_exact n (oppose n (omega (arith, p)) h.1)))
          (omega (int_laws, p)))
  | inr (inl q) ↦
      let e = neg_i64_exact n (oppose n q.1 h.1) in
      subst (λ x. neg_i64 x ≤ℤ pos 0) (sym (abs_negatif n q.0 ∙ e))
        (subst (λ x. x ≤ℤ pos 0)
          (sym (neg_i64_exact (pos 0 -ℤ n) (omega (int_laws, q.0, h.0), omega (int_laws, q.0))))
          (omega (int_laws, q.0)))
  | inr (inr e) ↦ subst (λ x. neg_i64 (abs_i64 x) ≤ℤ pos 0) (sym e) moindre
]

sans_signe-DansI64 : (s : Texte) → DansI64 (sans_signe s)
unfolding sans_signe
sans_signe-DansI64 s = assembler-DansI64 _ _

signe-DansI64 : (s : Texte) → DansI64 (signe s)
unfolding signe
signe-DansI64 [] = sans_signe-DansI64 []
signe-DansI64 (c ∷ s) = elim (Bool-cases (c == tiret)) [
  | inl e ↦ rw e (opposer-DansI64 (sans_signe s))
  | inr e ↦ elim (Bool-cases (c == plus)) [
    | inl f ↦ rw (e, f) (sans_signe-DansI64 s)
    | inr f ↦ rw (e, f) (sans_signe-DansI64 (c ∷ s))
  ]
]

montant-DansI64 : (m : MontantWire) → DansI64 (montant_en_centimes m)
unfolding montant_en_centimes
montant-DansI64 m = signe-DansI64 (trim m.amount)

-- What an answer says of a transaction: its reference and its account, the sign of a debit, and a
-- label that is never missing.
abbrev pub Fidele :
    TransactionWire → BankAccount → Result ReponseInvalide TransactionBancaire → Type 0
Fidele t compte (err e) = Unit
Fidele t compte (ok x) =
    (reference_externe t ≡ some x.external_transaction_id)
    × (x.bank_account ≡ compte.id)
    × (est_un_debit t.credit_debit_indicator ≡ true → x.amount_cents ≤ℤ pos 0)
    × (is_empty t.remittance_information ≡ true → x.label ≡ x.external_transaction_id)

module _ (uuid_depuis : Texte → ℕ) (ecrire_uuid : ℕ → Texte) (to_uppercase : Texte → Texte)
    (lire_date : Texte → Option ℤ) (lire_horodatage : Texte → Option ℤ) (minuit : ℤ → ℤ) where
  fidele :
      (t : TransactionWire) (compte : BankAccount) (horodatage : ℤ) (r : Texte)
      (m : Result ReponseInvalide ℤ)
      → DansI64 m
      → reference_externe t ≡ some r
      → Fidele t compte (
          avec_reference uuid_depuis ecrire_uuid to_uppercase lire_date lire_horodatage minuit t
            compte horodatage r m)
  unfolding avec_reference transaction_de avec_le_sens libelle
  fidele t compte horodatage r (err e) d h = tt
  fidele t compte horodatage r (ok n) d h = (h, refl, λ e. rw e (debit n d), λ e. rw e refl)

  -- A transaction of the bank's service that has no reference is refused. One that is accepted keeps
  -- its reference and its account, is not positive when it is a debit, even if its amount has no
  -- sign, and is labelled by its reference when there is no other text.
  pub vers_transaction-Fidele :
      (t : TransactionWire) (compte : BankAccount) (horodatage : ℤ)
      → let r =
          vers_transaction uuid_depuis ecrire_uuid to_uppercase lire_date lire_horodatage minuit t
            compte horodatage in
        (reference_externe t ≡ none → r ≡ err transaction_sans_reference) × Fidele t compte r
  unfolding vers_transaction
  vers_transaction-Fidele t compte horodatage = elim (Option-cases (reference_externe t)) [
    | inl e ↦ (λ f. rw (vers_transaction, e) refl, rw (vers_transaction, e) tt)
    | inr e ↦ (
      λ f. absurd (ground (arith, f, e.1)),
      rw (vers_transaction, e.1)
          (fidele t compte horodatage e.0 (montant_en_centimes t.transaction_amount)
            (montant-DansI64 t.transaction_amount) e.1),
    )
  ]
