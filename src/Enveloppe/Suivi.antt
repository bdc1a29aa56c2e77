-- ===== src/Enveloppe/Suivi.antt =====
-- What the list of the envelopes shows of each: src/repository/enveloppes.rs.
use ch_api_budgy.Prelude.{
  ℕ, suc, ◌+◌, ◌-◌, ◌^◌, ◌≤◌, ◌≡◌, refl, ap, ◌∙◌, Bool, true, false, Option, none, some, List, [],
  ◌∷◌, Bool-cases, inl, inr, filter, length, ◌==◌, ==_iff, ◌&&◌, if◌then◌else◌, unwrap_or, arith,
}
use ch_api_budgy.Prelude.Int.{ℤ, pos, ◌+ℤ◌, ◌-ℤ◌, int_laws}
use ch_api_budgy.Prelude.I64.{add_i64_exact, neg_i64_exact}
use ch_api_budgy.Budget.Solde.Totaux.{size, size-+ℤ, regroup, zero_left}
use ch_api_budgy.Prelude.Map.{Map, get, get-insert}
use ch_api_budgy.Texte.{Texte}
use ch_api_budgy.Transactions.{Base, TransactionBancaire, est_a}
use ch_api_budgy.Enveloppe.{Consommation, aucune, consommations, cumuler, totaliser, une_ligne}

abbrev pub est_la : Option ℕ → ℕ → Bool
est_la none id = false
est_la (some e) id = e == id

-- The owner's transactions that are in the envelope, in turn.
abbrev pub les_siennes : Base → Texte → ℕ → List TransactionBancaire → List TransactionBancaire
les_siennes base p id ts = filter (λ t. est_a base p t && est_la t.enveloppe id) ts

-- What was paid less what came back: an expense is a negative amount.
abbrev pub paye : List TransactionBancaire → ℤ
paye [] = pos 0
paye (t ∷ ts) = (pos 0 -ℤ t.amount_cents) +ℤ paye ts

-- The sum of the absolute values, which bounds every partial sum.
abbrev pub ampleur : List TransactionBancaire → ℕ
ampleur [] = 0
ampleur (t ∷ ts) = size t.amount_cents + ampleur ts

abbrev pub bilan : List TransactionBancaire → Option Consommation
bilan [] = none
bilan (t ∷ ts) = some (record { depense_cents = paye (t ∷ ts); nombre = pos (length (t ∷ ts)) })

abbrev cumul : Option Consommation → List TransactionBancaire → Option Consommation
cumul o [] = o
cumul o (t ∷ ts) = cumul (some (cumuler t (unwrap_or o aucune))) ts

size_oppose : (a : ℤ) → size (pos 0 -ℤ a) ≡ size a
unfolding ◌-ℤ◌
size_oppose a = ground arith

cumuler_exact :
    (t : TransactionBancaire) (d : ℤ) (n : ℕ)
    → size d + size t.amount_cents ≤ 2 ^ 63 - 1
    → n + 1 ≤ 2 ^ 63 - 1
    → cumuler t (record { depense_cents = d; nombre = pos n })
      ≡ record { depense_cents = d +ℤ (pos 0 -ℤ t.amount_cents); nombre = pos (n + 1) }
unfolding cumuler
cumuler_exact t d n h k =
    let a = t.amount_cents in
    let o = size_oppose a in
    rw (neg_i64_exact a (omega (arith, o, h))) (
      rw (add_i64_exact d (pos 0 -ℤ a) (omega (arith, o, h, size-+ℤ d (pos 0 -ℤ a)))) (
        rw (add_i64_exact (pos n) (pos 1) (omega int_laws))
          (λ i. record { depense_cents = d +ℤ (pos 0 -ℤ a); nombre = un_de_plus n i })))
  where
    un_de_plus : (n : ℕ) → pos n +ℤ pos 1 ≡ pos (n + 1)
    un_de_plus n = omega int_laws

cumul_exact :
    (ts : List TransactionBancaire) (d : ℤ) (n : ℕ)
    → size d + ampleur ts ≤ 2 ^ 63 - 1
    → n + length ts ≤ 2 ^ 63 - 1
    → cumul (some (record { depense_cents = d; nombre = pos n })) ts
      ≡ some (record { depense_cents = d +ℤ paye ts; nombre = pos (n + length ts) })
cumul_exact [] d n h k =
    λ i. some (record { depense_cents = rien d i; nombre = pos (zero_de_plus n i) })
  where
    rien : (d : ℤ) → d ≡ d +ℤ pos 0
    rien d = omega int_laws

    zero_de_plus : (n : ℕ) → n ≡ n + 0
    zero_de_plus n = omega arith
cumul_exact (t ∷ ts) d n h k =
    let o = pos 0 -ℤ t.amount_cents in
    let borne = size-+ℤ d o in
    ap (λ c. cumul (some c) ts) (cumuler_exact t d n (omega arith) (omega arith))
    ∙ cumul_exact ts (d +ℤ o) (n + 1) (omega (arith, borne, size_oppose t.amount_cents))
        (omega arith)
    ∙ (λ i.
        some (record {
          depense_cents = regroup d o (paye ts) i;
          nombre = pos (suite n (length ts) i);
        }))
  where
    suite : (n l : ℕ) → n + 1 + l ≡ n + suc l
    suite n l = omega arith

bilan_lem :
    (ts : List TransactionBancaire)
    → ampleur ts ≤ 2 ^ 63 - 1
    → length ts ≤ 2 ^ 63 - 1
    → cumul none ts ≡ bilan ts
bilan_lem [] h k = refl
bilan_lem (t ∷ ts) h k = cumul_exact (t ∷ ts) (pos 0) 0 (omega arith) (omega arith) ∙ (λ i.
    some (record {
      depense_cents = zero_left (paye (t ∷ ts)) i;
      nombre = pos (zero_plus (length (t ∷ ts)) i);
    }))
  where
    zero_plus : (n : ℕ) → 0 + n ≡ n
    zero_plus n = omega arith

une_ligne_lem :
    (o : Option ℕ) (t : TransactionBancaire) (id : ℕ) (totaux : Map Consommation)
    → get id (une_ligne o t totaux)
      ≡ (if est_la o id then some (cumuler t (unwrap_or (get id totaux) aucune)) else get id totaux)
unfolding une_ligne
une_ligne_lem none t id totaux = refl
une_ligne_lem (some e) t id totaux =
    get-insert e id (cumuler t (unwrap_or (get e totaux) aucune)) totaux ∙ meme (e == id) refl
  where
    meme :
        (b : Bool)
        → (e == id) ≡ b
        → (if b then some (cumuler t (unwrap_or (get e totaux) aucune)) else get id totaux)
          ≡ (if b then some (cumuler t (unwrap_or (get id totaux) aucune)) else get id totaux)
    meme true f = ap (λ k. some (cumuler t (unwrap_or (get k totaux) aucune))) ((==_iff e id).0 f)
    meme false f = refl

module _ (base : Base) (p : Texte) (id : ℕ) where
  -- One transaction: it counts for the envelope when it is the owner's and in it.
  pas :
      (t : TransactionBancaire) (totaux : Map Consommation)
      → get id (if est_a base p t then une_ligne t.enveloppe t totaux else totaux) ≡ (
          if est_a base p t && est_la t.enveloppe id
          then some (cumuler t (unwrap_or (get id totaux) aucune))
          else get id totaux)
  pas t totaux = elim (Bool-cases (est_a base p t)) [
    | inl e ↦ rw e (une_ligne_lem t.enveloppe t id totaux)
    | inr e ↦ rw e refl
  ]

  cumul-si :
      (b : Bool) (t : TransactionBancaire) (o : Option Consommation) (ts : List TransactionBancaire)
      → cumul (if b then some (cumuler t (unwrap_or o aucune)) else o) ts
        ≡ cumul o (if b then t ∷ ts else ts)
  cumul-si true t o ts = refl
  cumul-si false t o ts = refl

  totaliser_lem :
      (totaux : Map Consommation) (ts : List TransactionBancaire)
      → get id (totaliser base p totaux ts) ≡ cumul (get id totaux) (les_siennes base p id ts)
  unfolding totaliser
  totaliser_lem totaux [] = refl
  totaliser_lem totaux (t ∷ ts) =
      totaliser_lem (if est_a base p t then une_ligne t.enveloppe t totaux else totaux) ts
      ∙ ap (λ o. cumul o (les_siennes base p id ts)) (pas t totaux)
      ∙ cumul-si (est_a base p t && est_la t.enveloppe id) t (get id totaux)
          (les_siennes base p id ts)

  -- What is spent of an envelope is the sum of what its owner's transactions in it paid, less what
  -- came back, and their number; without any, there is nothing. The absolute values, and the number,
  -- are at most `i64::MAX`.
  pub get-consommations :
      let siennes = les_siennes base p id base.transactions in
      ampleur siennes ≤ 2 ^ 63 - 1
      → length siennes ≤ 2 ^ 63 - 1
      → get id (consommations base p) ≡ bilan siennes
  unfolding consommations
  get-consommations h k =
      totaliser_lem [] base.transactions ∙ bilan_lem (les_siennes base p id base.transactions) h k
