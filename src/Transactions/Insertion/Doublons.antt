-- ===== src/Transactions/Insertion/Doublons.antt =====
-- A transaction that is inserted again: src/repository/bank_transactions.rs.
use mathlib.Core.Path.{subst}
use ch_api_budgy.Prelude.{
  ℕ, ◌≡◌, refl, sym, ap, ◌∙◌, Bool, true, false, some, List, [], ◌∷◌, Bool-cases, inl, inr, arith,
  if◌then◌else◌, ok,
}
use ch_api_budgy.Prelude.Int.{ℤ}
use ch_api_budgy.Prelude.Map.{get}
use ch_api_budgy.Texte.{Texte}
use ch_api_budgy.Texte.Ordre.{text_eq_iff}
use ch_api_budgy.Transactions.{Base, TransactionBancaire}
use ch_api_budgy.Transactions.Insertion.{
  NouvelleTransactionBancaire, doublon, inseree, ResultatInsertion, ligne_inseree, confirmer,
  a_confirmer, meme_cle, inserer, insert,
}

ligne_a_jour :
    (n : NouvelleTransactionBancaire) (id : ℕ) (date : ℤ)
    → a_confirmer n (ligne_inseree n id date) ≡ false
unfolding a_confirmer ligne_inseree
ligne_a_jour n id date = ground arith

confirmee_a_jour :
    (n : NouvelleTransactionBancaire) (t : TransactionBancaire)
    → a_confirmer n (if a_confirmer n t then confirmer n t else t) ≡ false
unfolding a_confirmer confirmer
confirmee_a_jour n t = ground arith

module _ (dedup_key : ℕ → Texte → Texte) (n : NouvelleTransactionBancaire) where
  meme_cle-ligne_inseree :
      (id : ℕ) (date : ℤ) → meme_cle dedup_key n (ligne_inseree n id date) ≡ true
  unfolding meme_cle ligne_inseree
  meme_cle-ligne_inseree id date =
      let cle = dedup_key n.bank_account n.external_transaction_id in (text_eq_iff cle cle).1 refl

  meme_cle-confirmer :
      (b : Bool) (t : TransactionBancaire)
      → meme_cle dedup_key n (if b then confirmer n t else t) ≡ meme_cle dedup_key n t
  unfolding meme_cle confirmer
  meme_cle-confirmer true t = refl
  meme_cle-confirmer false t = refl

  trouve :
      (l t : TransactionBancaire) (ts : List TransactionBancaire)
      → meme_cle dedup_key n t ≡ true
      → inserer dedup_key n l (t ∷ ts)
        ≡ ((if a_confirmer n t then confirmer n t else t) ∷ ts, false)
  unfolding inserer
  trouve l t ts e = rw e refl

  passe :
      (l t : TransactionBancaire) (ts : List TransactionBancaire)
      → meme_cle dedup_key n t ≡ false
      → inserer dedup_key n l (t ∷ ts)
        ≡ (t ∷ (inserer dedup_key n l ts).0, (inserer dedup_key n l ts).1)
  unfolding inserer
  passe l t ts e = rw e refl

  -- A row with the key, which needs no confirmation, is left as it is.
  inserer-present :
      (l t : TransactionBancaire) (ts : List TransactionBancaire)
      → meme_cle dedup_key n t ≡ true
      → a_confirmer n t ≡ false
      → inserer dedup_key n l (t ∷ ts) ≡ (t ∷ ts, false)
  inserer-present l t ts e f =
      trouve l t ts e ∙ ap (λ c. ((if c then confirmer n t else t) ∷ ts, false)) f

  inserer_idem :
      (l m : TransactionBancaire)
      → meme_cle dedup_key n l ≡ true
      → a_confirmer n l ≡ false
      → (ts : List TransactionBancaire)
      → inserer dedup_key n m (inserer dedup_key n l ts).0 ≡ ((inserer dedup_key n l ts).0, false)
  inserer_idem l m e f [] = unfold inserer in inserer-present m l [] e f
  inserer_idem l m e f (t ∷ ts) = elim (Bool-cases (meme_cle dedup_key n t)) [
    | inl g ↦
        let u = if a_confirmer n t then confirmer n t else t in
        subst (λ r. inserer dedup_key n m r.0 ≡ (r.0, false)) (sym (trouve l t ts g))
          (inserer-present m u ts (meme_cle-confirmer (a_confirmer n t) t ∙ g)
            (confirmee_a_jour n t))
    | inr g ↦
        let s = inserer dedup_key n l ts in
        subst (λ r. inserer dedup_key n m r.0 ≡ (r.0, false)) (sym (passe l t ts g))
          (passe m t s.0 g ∙ ap (λ r. (t ∷ r.0, r.1)) (inserer_idem l m e f ts))
  ]

  -- On an account that exists an insertion succeeds, and the same transaction sent again is a
  -- duplicate that changes nothing: no second row, no status and no date.
  pub insert_idem :
      (base : Base) (proprietaire : Texte) (id id' : ℕ) (date date' : ℤ)
      → get n.bank_account base.proprietaires ≡ some proprietaire
      → (suite : Base) × (r : ResultatInsertion) × (insert dedup_key base n id date ≡ ok (suite, r))
        × (insert dedup_key suite n id' date' ≡ ok (suite, doublon))
  unfolding insert
  insert_idem base proprietaire id id' date date' h =
      let s = inserer dedup_key n (ligne_inseree n id date) base.transactions in
      let suite : Base = record base { transactions = s.0 } in
      (
        suite,
        (if s.1 then inseree id else doublon),
        rw (insert, h) refl,
        rw (insert, h)
            (ap
              (λ v. ok (record suite { transactions = v.0 }, if v.1 then inseree id' else doublon))
              (inserer_idem (ligne_inseree n id date) (ligne_inseree n id' date')
                (meme_cle-ligne_inseree id date) (ligne_a_jour n id date) base.transactions)),
      )
