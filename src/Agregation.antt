-- ===== src/Agregation.antt =====
-- src/domain/agregation.rs: medians over a monthly history, with `RepartitionDepenses` of
-- src/domain/depense.rs. Amounts are `i64` cents.
pub mod Mediane
pub mod Historique
use ch_api_budgy.Prelude.{
  ℕ, ◌+◌, ◌-◌, ◌/◌, ◌%◌, Bool, Option, none, some, List, [], ◌∷◌, ◌++◌, length, get_or, take,
  replicate, ◌==◌, if◌then◌else◌,
}
use ch_api_budgy.Prelude.Int.{ℤ, pos, negsuc, ltb_ℤ, leb_ℤ, ◌-ℤ◌}
use ch_api_budgy.Prelude.I64.{add_i64}
use ch_api_budgy.Prelude.Sort.{sort_by}
use ch_api_budgy.Prelude.Map.{Map, collect, update}
use ch_api_budgy.Categorie.{Category}

pub record LigneDepenseCategorie : Type 0 where
  pub category : Option Category
  pub montant_cents : ℤ

pub record RepartitionDepenses : Type 0 where
  pub total_cents : ℤ
  pub lignes : List LigneDepenseCategorie

-- The pairs of a category and its amount; a line without a category gives none.
unfoldable pub paires : List LigneDepenseCategorie → List (ℕ × ℤ)
paires [] = []
paires (l ∷ ls) = elim l.category [
  | none ↦ paires ls
  | some c ↦ (c.id, l.montant_cents) ∷ paires ls
]

unfoldable pub indexer_par_categorie : RepartitionDepenses → Map ℤ
unfolding paires
indexer_par_categorie r = collect (paires r.lignes)

-- `/ 2` on `i64`, towards zero.
abbrev pub half : ℤ → ℤ
half (pos n) = pos (n / 2)
half (negsuc n) = pos 0 -ℤ pos ((n + 1) / 2)

unfoldable pub mediane : List ℤ → ℤ
unfolding sort_by add_i64
mediane valeurs =
    let triees = sort_by leb_ℤ valeurs in
    let milieu = length valeurs / 2 in
    if length valeurs == 0
    then pos 0
    else if length valeurs % 2 == 0
    then half (add_i64 (get_or triees (milieu - 1) (pos 0)) (get_or triees milieu (pos 0)))
    else get_or triees milieu (pos 0)

-- The two loops that gather the amounts of each category.
unfoldable pub ajouter_mois : Map (List ℤ) → List (ℕ × ℤ) → Map (List ℤ)
ajouter_mois m [] = m
ajouter_mois m ((k, v) ∷ r) = ajouter_mois (update k [] (λ l. l ++ v ∷ []) m) r

unfoldable pub montants_par_categorie : Map (List ℤ) → List RepartitionDepenses → Map (List ℤ)
unfolding ajouter_mois indexer_par_categorie
montants_par_categorie m [] = m
montants_par_categorie m (mois ∷ h) =
    montants_par_categorie (ajouter_mois m (indexer_par_categorie mois)) h

-- `Vec::resize`
abbrev pub resize {ℓ} : {A : Type ℓ} → ℕ → A → List A → List A
resize n a l = take n l ++ replicate (n - length l) a

-- The `filter_map` that keeps the positive medians.
unfoldable pub garder_positives : ℕ → Map (List ℤ) → Map ℤ
garder_positives n [] = []
garder_positives n ((k, l) ∷ m) =
    let v = mediane (resize n (pos 0) l) in
    let reste = garder_positives n m in if ltb_ℤ (pos 0) v then (k, v) ∷ reste else reste

unfoldable pub medianes_par_categorie : List RepartitionDepenses → Map ℤ
unfolding garder_positives montants_par_categorie mediane
medianes_par_categorie historique =
    garder_positives (length historique) (montants_par_categorie [] historique)
