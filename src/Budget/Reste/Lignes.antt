-- ===== src/Budget/Reste/Lignes.antt =====
-- The lines of src/domain/reste_a_depenser.rs: one for each budget or prediction, coherent, in order.
use mathlib.Core.List.{Permᴰ, map-map}
use mathlib.Core.List
use ch_api_budgy.Prelude.{
  ℕ, ◌-◌, ◌^◌, ◌≡◌, refl, sym, ap, ◌∙◌, ◌⊎◌, true, false, List, [], ◌∷◌, map, Option, none, some,
  arith, unwrap_or, All, All-imp,
}
use ch_api_budgy.Prelude.Int.{ℤ, pos, negsuc, ◌-ℤ◌, ◌≤ℤ◌, ◌<ℤ◌}
use ch_api_budgy.Prelude.Sort.{sort_by-perm, sort_by-IsSorted, IsSorted, All-perm}
use ch_api_budgy.Prelude.Map.{Map, get, get-entry, All-get, All-collect_from}
use ch_api_budgy.Texte.Ordre.{text_le_total, text_le_trans}
use ch_api_budgy.Categorie.{Category}
use ch_api_budgy.Agregation.{
  RepartitionDepenses, LigneDepenseCategorie, paires, indexer_par_categorie, medianes_par_categorie,
  mediane,
}
use ch_api_budgy.Agregation.Historique.{
  montants, si_positive, medianes_par_categorie-IsMap, get-medianes_par_categorie,
}
use ch_api_budgy.Budget.Reste.{
  Budget, ResteCategorie, nom_categorie, reste_avant, trier_par_reste_croissant, ligne_predite,
  calculer_reste_a_depenser_predit,
}

-- Amounts far from the bounds of `i64`.
abbrev pub IsModere : ℤ → Type 0
IsModere a = (negsuc (2 ^ 62 - 1) ≤ℤ a) × (a ≤ℤ pos (2 ^ 62 - 1))

-- The figures of a line agree: what is left is the plan less the expense, the overrun is its
-- opposite when it is positive, and the flag says that there is an overrun.
pub record IsCoherent (l : ResteCategorie) : Type 0 where
  pub reste_is : l.reste_cents ≡ l.montant_prevu_cents -ℤ l.depense_cents
  pub depassement_is :
      ((l.montant_prevu_cents <ℤ l.depense_cents)
        × (l.depassement_cents ≡ l.depense_cents -ℤ l.montant_prevu_cents)
        × (l.depasse ≡ true))
      ⊎ ((l.depense_cents ≤ℤ l.montant_prevu_cents)
          × (l.depassement_cents ≡ pos 0)
          × (l.depasse ≡ false))

-- Amounts of a month that stay far from the bounds.
abbrev pub IsMoisModere : RepartitionDepenses → Type 0
IsMoisModere r = All (λ l. IsModere l.montant_cents) r.lignes

paire-IsModere :
    (o : Option Category) (montant : ℤ) (r : List (ℕ × ℤ))
    → IsModere montant
    → All (λ e. IsModere e.1) r
    → All (λ e. IsModere e.1) (elim o [ none ↦ r | some c ↦ (c.id, montant) ∷ r ])
paire-IsModere none montant r h hs = hs
paire-IsModere (some c) montant r h hs = (h, hs)

paires-IsModere :
    (ls : List LigneDepenseCategorie)
    → All (λ l. IsModere l.montant_cents) ls
    → All (λ e. IsModere e.1) (paires ls)
unfolding paires
paires-IsModere [] h = tt
paires-IsModere (l ∷ ls) h =
    paire-IsModere l.category l.montant_cents (paires ls) h.0 (paires-IsModere ls h.1)

pub depense-IsModere :
    (k : ℕ) (r : RepartitionDepenses)
    → IsMoisModere r
    → IsModere (unwrap_or (get k (indexer_par_categorie r)) (pos 0))
unfolding indexer_par_categorie
depense-IsModere k r h =
    All-get IsModere k (pos 0) (indexer_par_categorie r) (omega arith)
      (All-collect_from IsModere [] (paires r.lignes) tt (paires-IsModere r.lignes h))

reste_avant_total : (a b : ResteCategorie) → (reste_avant a b ≡ true) ⊎ (reste_avant b a ≡ true)
unfolding reste_avant
reste_avant_total a b = ground (arith, text_le_total (nom_categorie a) (nom_categorie b))

reste_avant_trans :
    (a b c : ResteCategorie)
    → reste_avant a b ≡ true
    → reste_avant b c ≡ true
    → reste_avant a c ≡ true
unfolding reste_avant
reste_avant_trans a b c p q =
    ground (arith, text_le_trans (nom_categorie a) (nom_categorie b) (nom_categorie c))

-- The category of a line and its planned amount.
abbrev pub prevue : ResteCategorie → ℕ × ℤ
prevue l = (l.category_id, l.montant_prevu_cents)

map-prevue :
    (reel : Map ℤ) (categories : Map Category) (m : Map ℤ)
    → map prevue (map (ligne_predite reel categories) m) ≡ m
unfolding ligne_predite
map-prevue reel categories [] = refl
map-prevue reel categories ((k, v) ∷ m) = ap (λ r. (k, v) ∷ r) (map-prevue reel categories m)

All-predites :
    (h : List RepartitionDepenses)
    → All (λ e. si_positive (mediane (montants e.0 h)) ≡ some e.1) (medianes_par_categorie h)
All-predites h =
    All-imp (λ e. get e.0 (medianes_par_categorie h) ≡ some e.1) _ (medianes_par_categorie h)
      (λ e f. sym (get-medianes_par_categorie e.0 h) ∙ f)
      (get-entry (medianes_par_categorie h) (medianes_par_categorie-IsMap h))

All-lignes_predites :
    (reel : Map ℤ) (categories : Map Category) (h : List RepartitionDepenses) (m : Map ℤ)
    → All (λ e. si_positive (mediane (montants e.0 h)) ≡ some e.1) m
    → All
        (λ l. si_positive (mediane (montants l.category_id h)) ≡ some l.montant_prevu_cents)
        (map (ligne_predite reel categories) m)
unfolding ligne_predite
All-lignes_predites reel categories h [] hs = tt
All-lignes_predites reel categories h ((k, v) ∷ m) hs =
    (hs.0, All-lignes_predites reel categories h m hs.1)

-- Without budgets, the lines are those of the categories whose median over the history is
-- positive: each line plans that median, a month without the category counting zero, and the lines
-- are in order.
pub calculer_reste_a_depenser_predit_lem :
    (h : List RepartitionDepenses) (courant : RepartitionDepenses) (categories : Map Category)
    → let lignes = calculer_reste_a_depenser_predit h courant categories in
      All
        (λ l. si_positive (mediane (montants l.category_id h)) ≡ some l.montant_prevu_cents)
        lignes
      × IsSorted reste_avant lignes
      × Permᴰ (map prevue lignes) (medianes_par_categorie h)
unfolding calculer_reste_a_depenser_predit trier_par_reste_croissant
calculer_reste_a_depenser_predit_lem h courant categories =
    let predite = ligne_predite (indexer_par_categorie courant) categories in
    let brutes = map predite (medianes_par_categorie h) in
    let p = sort_by-perm reste_avant brutes in
    let reel = indexer_par_categorie courant in
    (
      All-perm _ (List.Permᴰ.symm p)
          (All-lignes_predites reel categories h (medianes_par_categorie h) (All-predites h)),
      sort_by-IsSorted reste_avant reste_avant_total reste_avant_trans brutes,
      rw (map-prevue reel categories (medianes_par_categorie h)) at (List.Permᴰ.map prevue p),
    )
