-- ===== src/Transactions/Lignes.antt =====
-- `mettre_a_jour`, row by row: src/repository/bank_transactions.rs.
use ch_api_budgy.Prelude.{
  ℕ, ◌≡◌, refl, ap, Bool, true, false, not, Option, none, some, List, [], ◌∷◌, map, filter,
  Bool-cases, inl, inr, if◌then◌else◌,
}
use mathlib.Core.Path.{ap₂}
use ch_api_budgy.Prelude.Map.{get}
use ch_api_budgy.Texte.{Texte, text_eq}
use ch_api_budgy.Transactions.{
  Base, CategorizationSource, TransactionBancaire, mettre_a_jour, est_a, update_where,
}

-- What the user chose for a transaction, when the user did.
abbrev pub Choix : Type 0
Choix = Option (ℕ × Option ℕ × Option ℕ)

abbrev pub choix : TransactionBancaire → Choix
choix t = elim t.categorization_source [
  | CategorizationSource.manual ↦ some (t.id, t.category, t.rule_id)
  | CategorizationSource.rule ↦ none
  | CategorizationSource.no_source ↦ none
]

abbrev pub choix_manuels : Base → List Choix
choix_manuels base = map choix base.transactions

-- The transactions of everybody else.
abbrev pub autres : Base → Texte → List TransactionBancaire
autres base proprietaire = filter (λ t. not (est_a base proprietaire t)) base.transactions

map-mettre_a_jour {κ} :
    {B : Type κ} (f : TransactionBancaire → B) (cond : TransactionBancaire → Bool)
    (modif : TransactionBancaire → TransactionBancaire)
    → ((t : TransactionBancaire) → cond t ≡ true → f (modif t) ≡ f t)
    → (ts : List TransactionBancaire) → map f (mettre_a_jour cond modif ts) ≡ map f ts
unfolding mettre_a_jour
map-mettre_a_jour f cond modif h [] = refl
map-mettre_a_jour f cond modif h (t ∷ ts) =
    ap₂ (λ a b. a ∷ b) (tete t (cond t) refl) (map-mettre_a_jour f cond modif h ts)
  where
    tete : (t : TransactionBancaire) (b : Bool) → cond t ≡ b → f (if b then modif t else t) ≡ f t
    tete t true e = h t e
    tete t false e = refl

filter-mettre_a_jour :
    (p cond : TransactionBancaire → Bool) (modif : TransactionBancaire → TransactionBancaire)
    → ((t : TransactionBancaire) → cond t ≡ true → p t ≡ false)
    → ((t : TransactionBancaire) → p (modif t) ≡ p t)
    → (ts : List TransactionBancaire) → filter p (mettre_a_jour cond modif ts) ≡ filter p ts
unfolding mettre_a_jour
filter-mettre_a_jour p cond modif h k [] = refl
filter-mettre_a_jour p cond modif h k (t ∷ ts) = elim (Bool-cases (cond t)) [
  | inl e ↦ rw (e, k t, h t e) (filter-mettre_a_jour p cond modif h k ts)
  | inr e ↦ rw (e, filter-mettre_a_jour p cond modif h k ts) refl
]

pub update_where-choix_manuels :
    (cond : TransactionBancaire → Bool) (modif : TransactionBancaire → TransactionBancaire)
    → ((t : TransactionBancaire) → cond t ≡ true → choix (modif t) ≡ choix t)
    → (base : Base) → choix_manuels (update_where cond modif base) ≡ choix_manuels base
unfolding update_where
update_where-choix_manuels cond modif h base =
    map-mettre_a_jour choix cond modif h base.transactions

pub update_where-autres :
    (base : Base) (proprietaire : Texte) (cond : TransactionBancaire → Bool)
    (modif : TransactionBancaire → TransactionBancaire)
    → ((t : TransactionBancaire) → cond t ≡ true → est_a base proprietaire t ≡ true)
    → ((t : TransactionBancaire) → (modif t).bank_account ≡ t.bank_account)
    → autres (update_where cond modif base) proprietaire ≡ autres base proprietaire
unfolding update_where est_a
update_where-autres base proprietaire cond modif h k =
    filter-mettre_a_jour (λ t. not (est_a base proprietaire t)) cond modif (λ t e. ap not (h t e))
      (λ t.
        ap
          (λ c.
            not
              (elim (get c base.proprietaires) [ none ↦ false | some o ↦ text_eq o proprietaire ]))
          (k t))
      base.transactions
