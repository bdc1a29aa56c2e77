-- ===== src/Transactions/Manuelle.antt =====
-- The categorisation by hand of src/repository/bank_transactions.rs.
use mathlib.Core.Path.{ap₂}
use ch_api_budgy.Prelude.{
  ℕ, ◌≡◌, refl, ap, ◌∙◌, Bool, true, false, ◌&&◌, ◌⊎◌, inl, inr, none, some, List, [], ◌∷◌, All,
  Bool-cases, arith, if◌then◌else◌, ◌==◌,
}
use ch_api_budgy.Prelude.Map.{get}
use ch_api_budgy.Prelude.Tables.{Uniques, of_key, guarded, update, affected, touche}
use ch_api_budgy.Texte.{Texte, text_eq}
use ch_api_budgy.Categorie.{Category}
use ch_api_budgy.Transactions.{
  Base, TransactionBancaire, CategorizationSource, CategorisationTransaction, categorisee,
  transaction_introuvable, categorie_introuvable, categorie_virements_internes, mettre_a_jour,
  update_where, trouver, cible, est_a, ranger_a_la_main, parmi, categorie_accessible, categoriser,
  issue, fetch,
}
use ch_api_budgy.Transactions.Lignes.{autres, update_where-autres}

mettre_a_jour-update :
    (cond cond' : TransactionBancaire → Bool)
    (modif modif' : TransactionBancaire → TransactionBancaire)
    → ((t : TransactionBancaire) → cond t ≡ cond' t)
    → ((t : TransactionBancaire) → modif t ≡ modif' t)
    → (ts : List TransactionBancaire) → mettre_a_jour cond modif ts ≡ update cond' modif' ts
unfolding mettre_a_jour
mettre_a_jour-update cond cond' modif modif' c m [] = refl
mettre_a_jour-update cond cond' modif modif' c m (t ∷ ts) =
    let ih = mettre_a_jour-update cond cond' modif modif' c m ts in
    λ i. (if c t i then m t i else t) ∷ ih i

-- The key is that of the row looked for, so that no row touched means none found.
trouver-of_key :
    (id : ℕ) (ts : List TransactionBancaire)
    → trouver (λ t. t.id == id) ts ≡ of_key TransactionBancaire.id id ts
unfolding trouver
trouver-of_key id [] = refl
trouver-of_key id (t ∷ ts) = rw (trouver-of_key id ts) refl

trouver-rien :
    (cond cond' : TransactionBancaire → Bool)
    → ((t : TransactionBancaire) → cond t ≡ cond' t)
    → (ts : List TransactionBancaire) → affected cond' ts ≡ 0
    → (trouver cond ts ≡ none) × All (λ t. cond' t ≡ false) ts
unfolding trouver
trouver-rien cond cond' c [] h = (refl, tt)
trouver-rien cond cond' c (t ∷ ts) h = elim (Bool-cases (cond' t)) [
  | inl e ↦ absurd (ground (arith, e, h))
  | inr e ↦
      let ih = trouver-rien cond cond' c ts (ground (arith, e, h)) in (rw (c t, e) ih.0, (e, ih.1))
]

trouver-un :
    (cond cond' : TransactionBancaire → Bool)
    → ((t : TransactionBancaire) → cond t ≡ cond' t)
    → (ts : List TransactionBancaire) → affected cond' ts ≡ 1
    → (u : TransactionBancaire) × (trouver cond ts ≡ some u)
unfolding trouver
trouver-un cond cond' c [] h = absurd (ground (arith, h))
trouver-un cond cond' c (t ∷ ts) h = elim (Bool-cases (cond' t)) [
  | inl e ↦ (t, rw (c t, e) refl)
  | inr e ↦ let ih = trouver-un cond cond' c ts (ground (arith, e, h)) in (ih.0, rw (c t, e) ih.1)
]

-- What the request asks for: the transaction with this id, on this account of this owner.
module _ (base : Base) (p : Texte) (compte id category : ℕ) where
  abbrev pub sur_le_compte : TransactionBancaire → Bool
  sur_le_compte t =
      t.bank_account == compte
      && elim (get t.bank_account base.proprietaires) [ none ↦ false | some o ↦ text_eq o p ]

  abbrev pub visee : TransactionBancaire → Bool
  visee = guarded TransactionBancaire.id id sur_le_compte

  -- What becomes of it.
  abbrev pub rangee : TransactionBancaire → TransactionBancaire
  rangee t = record t {
    category = some category;
    categorization_source = CategorizationSource.manual;
    rule_id = none;
    is_internal_transfer = category == categorie_virements_internes;
  }

  -- The category is neither the owner's nor everybody's.
  abbrev pub Inaccessible : List Category → Type 0
  Inaccessible cs =
      All
        (λ c. (c.id == category && elim c.owner_id [ none ↦ true | some o ↦ text_eq o p ]) ≡ false)
        cs

  -- The three ends.
  abbrev pub Categorisation : Base × CategorisationTransaction → Type 0
  Categorisation r =
      ((r ≡ (base, categorie_introuvable)) × Inaccessible base.categories)
      ⊎ ((¬ Inaccessible base.categories)
          × (((r ≡ (base, transaction_introuvable)) × All (λ t. visee t ≡ false) base.transactions)
              ⊎ ((u : TransactionBancaire) × (of_key TransactionBancaire.id id base.transactions
                    ≡ some u)
                  × (sur_le_compte u ≡ true)
                  × (r ≡ (
                    record base { transactions = update visee rangee base.transactions },
                    categorisee (rangee u),
                  )))))

  parmi_lem :
      (cs : List Category)
      → ((parmi p category cs ≡ false) × Inaccessible cs)
        ⊎ ((parmi p category cs ≡ true) × (¬ Inaccessible cs))
  unfolding parmi
  parmi_lem [] = inl (refl, tt)
  parmi_lem (c ∷ cs) =
      elim (Bool-cases
        (c.id == category && elim c.owner_id [ none ↦ true | some o ↦ text_eq o p ])) [
          | inl e ↦ inr (rw e refl, λ a. absurd (ground (arith, e, a.0)))
          | inr e ↦ elim (parmi_lem cs) [
            | inl h ↦ inl (rw e h.0, (e, h.1))
            | inr h ↦ inr (rw e h.0, λ a. h.1 a.1)
          ]
        ]

  cible-visee : (t : TransactionBancaire) → cible base p compte id t ≡ visee t
  unfolding cible est_a
  cible-visee t = ground arith

  cible-est_a : (t : TransactionBancaire) → cible base p compte id t ≡ true → est_a base p t ≡ true
  unfolding cible
  cible-est_a t e = ground arith

  rangee_lem : (t : TransactionBancaire) → ranger_a_la_main category t ≡ rangee t
  unfolding ranger_a_la_main
  rangee_lem t = refl

  apres_lem :
      mettre_a_jour (cible base p compte id) (ranger_a_la_main category) base.transactions
      ≡ update visee rangee base.transactions
  apres_lem = mettre_a_jour-update _ _ _ _ cible-visee rangee_lem base.transactions

  fin :
      Uniques TransactionBancaire.id base.transactions
      → ¬ Inaccessible base.categories
      → Categorisation (
        update_where (cible base p compte id) (ranger_a_la_main category) base,
        issue
            (trouver (cible base p compte id) base.transactions)
            (fetch (update_where (cible base p compte id) (ranger_a_la_main category) base) id),
      )
  unfolding issue fetch update_where
  fin uniques a =
      elim (touche TransactionBancaire.id id sur_le_compte rangee (λ t. refl) base.transactions
        uniques) [
          | inl i ↦
              let r = trouver-rien _ _ cible-visee base.transactions i.0 in
              inr (
                a,
                inl (
                  ap₂
                      (λ ts o. (
                        record base { transactions = ts },
                        issue o (
                            trouver (λ v. v.id == id)
                              (mettre_a_jour (cible base p compte id) (ranger_a_la_main category)
                                base.transactions)),
                      ))
                      (apres_lem ∙ i.1) r.0,
                  r.1,
                ),
              )
          | inr t ↦
              let u = trouver-un _ _ cible-visee base.transactions t.3 in
              inr (
                a,
                inr (
                  t.0,
                  t.1,
                  t.2,
                  ap₂
                        (λ ts o. (
                          record base { transactions = ts },
                          issue o (trouver (λ v. v.id == id) ts),
                        ))
                        apres_lem u.1
                      ∙ ap
                          (λ o. (
                            record base { transactions = update visee rangee base.transactions },
                            issue (some u.0) o,
                          ))
                          (trouver-of_key id (update visee rangee base.transactions) ∙ t.4),
                ),
              )
        ]

  -- The ids are those of distinct rows. A categorisation by hand has one of three ends. The category
  -- is neither the owner's nor everybody's, and nothing changes; or it is, but no transaction of
  -- that id stands on that account of that owner, and nothing changes; or it is, and the row of that
  -- id stands there: it gets the category, the source `manual`, no rule, and is marked as an
  -- internal transfer exactly when the category is theirs; it is returned, and nothing else changes.
  -- The rows of the other owners never change.
  pub categoriser_lem :
      Uniques TransactionBancaire.id base.transactions
      → (autres (categoriser base p compte id category).0 p ≡ autres base p)
        × Categorisation (categoriser base p compte id category)
  unfolding categoriser categorie_accessible
  categoriser_lem uniques = elim (parmi_lem base.categories) [
    | inr (e, a) ↦ rw e (
      update_where-autres base p (cible base p compte id) (ranger_a_la_main category)
          (λ t f. cible-est_a t f) (λ t. unfold ranger_a_la_main in refl),
      fin uniques a,
    )
    | inl (e, a) ↦ rw e (refl, inl (refl, a))
  ]
