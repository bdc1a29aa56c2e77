-- ===== src/Transactions/Liste/Pages.antt =====
-- Sorted pages: src/repository/bank_transactions.rs.
use mathlib.Core.List.{Permᴰ}
use mathlib.Core.Path.{ap₂, subst}
use ch_api_budgy.Prelude.{
  ℕ, ◌≤◌, ◌≡◌, refl, sym, ap, ◌∙◌, Bool, true, false, not, ◌⊎◌, inl, inr, Option, none, some, List,
  [], ◌∷◌, All, All-imp, Option-cases, filter, length, take, drop, arith, ltb,
}
use ch_api_budgy.Prelude.Int.{ℤ, pos, negsuc, ◌<ℤ◌, ltb_ℤ, eqb_ℤ_iff}
use ch_api_budgy.Prelude.Sort.{sort_by-perm, sort_by-IsSorted, IsSorted, IsTotal, IsTransitive}
use ch_api_budgy.Prelude.Tables.{filter_ext}
use ch_api_budgy.Transactions.{TransactionBancaire, date_effective}
use ch_api_budgy.Transactions.Liste.{
  SensTransaction, entree, sortie, a_le_sens, ChampTriTransaction, date, montant, OrdreTri,
  ascendant, descendant, TriTransactions, Tranche, garder_le_sens, date_puis, montant_puis, selon,
  base_le, tri_le, trier, filtrer_trier_paginer,
}

montant_puis_trans :
    (a b c : ℤ) (u v w : Bool)
    → (u ≡ true → v ≡ true → w ≡ true)
    → montant_puis a b u ≡ true
    → montant_puis b c v ≡ true
    → montant_puis a c w ≡ true
unfolding montant_puis
montant_puis_trans a b c u v w f h k = ground arith

montant_puis_total :
    (a b : ℤ) (u v : Bool)
    → (u ≡ true) ⊎ (v ≡ true)
    → (montant_puis a b u ≡ true) ⊎ (montant_puis b a v ≡ true)
unfolding montant_puis
montant_puis_total a b u v f = ground arith

date_puis_trans :
    (a b c : Option ℤ) (u v w : Bool)
    → (u ≡ true → v ≡ true → w ≡ true)
    → date_puis a b u ≡ true
    → date_puis b c v ≡ true
    → date_puis a c w ≡ true
unfolding date_puis
date_puis_trans none none none u v w f h k = f h k
date_puis_trans none none (some c) u v w f h k = refl
date_puis_trans none (some b) none u v w f h k = cc
date_puis_trans none (some b) (some c) u v w f h k = refl
date_puis_trans (some a) none c u v w f h k = cc
date_puis_trans (some a) (some b) none u v w f h k = cc
date_puis_trans (some a) (some b) (some c) u v w f h k = ground arith

date_puis_total :
    (a b : Option ℤ) (u v : Bool)
    → (u ≡ true) ⊎ (v ≡ true)
    → (date_puis a b u ≡ true) ⊎ (date_puis b a v ≡ true)
unfolding date_puis
date_puis_total none none u v f = f
date_puis_total none (some b) u v f = inl refl
date_puis_total (some a) none u v f = inr refl
date_puis_total (some a) (some b) u v f = ground arith

id_trans : (a b c : ℕ) → not (ltb b a) ≡ true → not (ltb c b) ≡ true → not (ltb c a) ≡ true
id_trans a b c h k = ground arith

id_total : (a b : ℕ) → (not (ltb b a) ≡ true) ⊎ (not (ltb a b) ≡ true)
id_total a b = ground arith

base_le-IsTransitive : (c : ChampTriTransaction) → IsTransitive (base_le c)
unfolding base_le
base_le-IsTransitive date x y z =
    date_puis_trans (date_effective x) (date_effective y) (date_effective z) _ _ _
      (montant_puis_trans x.created_at y.created_at z.created_at _ _ _ (id_trans x.id y.id z.id))
base_le-IsTransitive montant x y z =
    montant_puis_trans x.amount_cents y.amount_cents z.amount_cents _ _ _
      (montant_puis_trans x.created_at y.created_at z.created_at _ _ _ (id_trans x.id y.id z.id))

base_le-IsTotal : (c : ChampTriTransaction) → IsTotal (base_le c)
unfolding base_le
base_le-IsTotal date x y =
    date_puis_total (date_effective x) (date_effective y) _ _
      (montant_puis_total x.created_at y.created_at _ _ (id_total x.id y.id))
base_le-IsTotal montant x y =
    montant_puis_total x.amount_cents y.amount_cents _ _
      (montant_puis_total x.created_at y.created_at _ _ (id_total x.id y.id))

selon-IsTransitive :
    (o : OrdreTri) (le : TransactionBancaire → TransactionBancaire → Bool)
    → IsTransitive le
    → IsTransitive (selon o le)
unfolding selon
selon-IsTransitive ascendant le h = h
selon-IsTransitive descendant le h = λ x y z p q. h z y x q p

selon-IsTotal :
    (o : OrdreTri) (le : TransactionBancaire → TransactionBancaire → Bool)
    → IsTotal le
    → IsTotal (selon o le)
unfolding selon
selon-IsTotal ascendant le h = h
selon-IsTotal descendant le h = λ x y. h y x

trier-IsSorted :
    (tri : TriTransactions) (ts : List TransactionBancaire) → IsSorted (tri_le tri) (trier ts tri)
unfolding trier tri_le
trier-IsSorted tri ts =
    sort_by-IsSorted (tri_le tri)
      (selon-IsTotal tri.ordre (base_le tri.champ) (base_le-IsTotal tri.champ))
      (selon-IsTransitive tri.ordre (base_le tri.champ) (base_le-IsTransitive tri.champ)) ts

unfoldable pub est_negatif : ℤ → Bool
est_negatif (pos n) = false
est_negatif (negsuc n) = true

-- The transactions of a direction: an exit is a negative amount.
abbrev pub demandees : Option SensTransaction → List TransactionBancaire → List TransactionBancaire
demandees none ts = ts
demandees (some sortie) ts = filter (λ t. est_negatif t.amount_cents) ts
demandees (some entree) ts = filter (λ t. not (est_negatif t.amount_cents)) ts

-- The day of a transaction: that of its booking, or else its value date.
abbrev pub jour : TransactionBancaire → Option ℤ
jour t = elim t.booking_date [ none ↦ t.value_date | some d ↦ some d ]

-- A transaction without a day is before the others.
abbrev pub JourAvant : Option ℤ → Option ℤ → Type 0
JourAvant none none = ⊥
JourAvant none (some e) = Unit
JourAvant (some d) none = ⊥
JourAvant (some d) (some e) = d <ℤ e

-- Between equals the creation decides, then the id.
abbrev pub Departage : TransactionBancaire → TransactionBancaire → Type 0
Departage g d = (g.created_at <ℤ d.created_at) ⊎ ((g.created_at ≡ d.created_at) × (g.id ≤ d.id))

abbrev pub Croissant : ChampTriTransaction → TransactionBancaire → TransactionBancaire → Type 0
Croissant date g d = JourAvant (jour g) (jour d) ⊎ ((jour g ≡ jour d) × Departage g d)
Croissant montant g d =
    (g.amount_cents <ℤ d.amount_cents) ⊎ ((g.amount_cents ≡ d.amount_cents) × Departage g d)

abbrev pub EnOrdre :
    OrdreTri → ChampTriTransaction → TransactionBancaire → TransactionBancaire → Type 0
EnOrdre ascendant champ g d = Croissant champ g d
EnOrdre descendant champ g d = Croissant champ d g

abbrev pub Triees : OrdreTri → ChampTriTransaction → List TransactionBancaire → Type 0
Triees ordre champ [] = Unit
Triees ordre champ (t ∷ ts) = All (EnOrdre ordre champ t) ts × Triees ordre champ ts

negatif_lem : (a : ℤ) → ltb_ℤ a (pos 0) ≡ est_negatif a
unfolding est_negatif
negatif_lem (pos n) = ground arith
negatif_lem (negsuc n) = ground arith

garder_le_sens_lem :
    (sens : Option SensTransaction) (ts : List TransactionBancaire)
    → garder_le_sens sens ts ≡ demandees sens ts
unfolding garder_le_sens a_le_sens
garder_le_sens_lem none ts = refl
garder_le_sens_lem (some sortie) ts = filter_ext _ _ (λ t. negatif_lem t.amount_cents) ts
garder_le_sens_lem (some entree) ts = filter_ext _ _ (λ t. ap not (negatif_lem t.amount_cents)) ts

montant_puis_lem :
    (a b : ℤ) (suite : Bool) → montant_puis a b suite ≡ true → (a <ℤ b) ⊎ ((a ≡ b) × (suite ≡ true))
unfolding montant_puis
montant_puis_lem a b suite h = ground (arith, eqb_ℤ_iff a b)

date_puis_lem :
    (a b : Option ℤ) (suite : Bool)
    → date_puis a b suite ≡ true
    → JourAvant a b ⊎ ((a ≡ b) × (suite ≡ true))
unfolding date_puis
date_puis_lem none none suite h = inr (refl, h)
date_puis_lem none (some e) suite h = inl tt
date_puis_lem (some d) none suite h = absurd (ground arith)
date_puis_lem (some d) (some e) suite h = ground (arith, eqb_ℤ_iff d e)

date_effective-jour : (t : TransactionBancaire) → date_effective t ≡ jour t
unfolding date_effective
date_effective-jour t = elim (Option-cases t.booking_date) [
  | inl e ↦ rw e refl
  | inr e ↦ rw e.1 refl
]

departage :
    (g d : TransactionBancaire)
    → montant_puis g.created_at d.created_at (not (ltb d.id g.id)) ≡ true
    → Departage g d
departage g d h = elim (montant_puis_lem g.created_at d.created_at (not (ltb d.id g.id)) h) [
  | inl a ↦ inl a
  | inr (e, n) ↦ inr (e, ground (arith, n))
]

base_le-Croissant :
    (champ : ChampTriTransaction) (g d : TransactionBancaire)
    → base_le champ g d ≡ true
    → Croissant champ g d
unfolding base_le
base_le-Croissant date g d h =
    elim (date_puis_lem (jour g) (jour d) _ (
      ap₂ (λ a b. date_puis a b (montant_puis g.created_at d.created_at (not (ltb d.id g.id))))
        (sym (date_effective-jour g)) (sym (date_effective-jour d))
      ∙ h)) [ inl a ↦ inl a | inr (e, n) ↦ inr (e, departage g d n) ]
base_le-Croissant montant g d h = elim (montant_puis_lem g.amount_cents d.amount_cents _ h) [
  | inl a ↦ inl a
  | inr (e, n) ↦ inr (e, departage g d n)
]

tri_le-EnOrdre :
    (champ : ChampTriTransaction) (ordre : OrdreTri) (g d : TransactionBancaire)
    → selon ordre (base_le champ) g d ≡ true
    → EnOrdre ordre champ g d
unfolding selon
tri_le-EnOrdre champ ascendant g d h = base_le-Croissant champ g d h
tri_le-EnOrdre champ descendant g d h = base_le-Croissant champ d g h

IsSorted-Triees :
    (champ : ChampTriTransaction) (ordre : OrdreTri) (ts : List TransactionBancaire)
    → IsSorted (selon ordre (base_le champ)) ts
    → Triees ordre champ ts
IsSorted-Triees champ ordre [] h = tt
IsSorted-Triees champ ordre (t ∷ ts) h = (
  All-imp _ _ ts (λ u e. tri_le-EnOrdre champ ordre t u e) h.0,
  IsSorted-Triees champ ordre ts h.1,
)

-- The pages of a request are cut, one after the other, from one list: the transactions of the
-- direction asked for, each once, in the order asked for on their day or their amount, then on their
-- creation and their id. The total is their number, on whatever page.
pub filtrer_trier_paginer_lem :
    (ts : List TransactionBancaire) (sens : Option SensTransaction) (tri : TriTransactions)
    → (xs : List TransactionBancaire) × Triees tri.ordre tri.champ xs
      × Permᴰ xs (demandees sens ts)
      × ((tranche : Tranche)
          → ((filtrer_trier_paginer ts sens tri tranche).elements
              ≡ take tranche.limit (drop tranche.offset xs))
            × ((filtrer_trier_paginer ts sens tri tranche).total ≡ length (demandees sens ts)))
unfolding filtrer_trier_paginer trier tri_le
filtrer_trier_paginer_lem ts sens tri =
    let e = garder_le_sens_lem sens ts in
    let ys = garder_le_sens sens ts in
    (
      trier ys tri,
      IsSorted-Triees tri.champ tri.ordre (trier ys tri) (trier-IsSorted tri ys),
      subst (λ zs. Permᴰ (trier ys tri) zs) e (sort_by-perm (tri_le tri) ys),
      λ tranche. (refl, ap length e),
    )
