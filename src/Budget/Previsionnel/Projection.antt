-- ===== src/Budget/Previsionnel/Projection.antt =====
-- The projection of src/domain/previsionnel.rs as exact integer arithmetic.
use native.Mathlib.Nat.{add-zero, zero-add, add_assoc}
use mathlib.Core.Path.{ap₂}
use mathlib.Core.List.{Permᴰ, append-nil, append_assoc}
use ch_api_budgy.Prelude.{
  ℕ, ◌+◌, ◌-◌, ◌^◌, ◌≤◌, ◌≡◌, refl, ap, ◌∙◌, List, [], ◌∷◌, ◌++◌, map, arith, unwrap_or, All,
}
use ch_api_budgy.Prelude.Int.{ℤ, pos, negsuc, pos_part, ◌+ℤ◌, ◌-ℤ◌, ◌≤ℤ◌, max_ℤ, int_laws}
use ch_api_budgy.Prelude.I64.{add_i64, sub_i64, add_i64_exact, sub_i64_exact}
use ch_api_budgy.Prelude.Sort.{sort_by-perm}
use ch_api_budgy.Prelude.Map.{Map, get, All-get}
use ch_api_budgy.Categorie.{Category}
use ch_api_budgy.Agregation.{RepartitionDepenses, indexer_par_categorie}
use ch_api_budgy.Budget.Previsionnel.{
  LignePrevisionCategorie, ligne_prevision, cumuler, trier_lignes, prevision_avant,
  calculer_previsionnel,
}

-- An amount of zero or more, far from the bound of `i64`.
abbrev pub IsMontant : ℤ → Type 0
IsMontant a = (pos 0 ≤ℤ a) × (a ≤ℤ pos (2 ^ 62))

abbrev pub Montants : Map ℤ → Type 0
Montants m = All (λ e. IsMontant e.1) m

abbrev pub total : Map ℤ → ℕ
total [] = 0
total ((k, v) ∷ m) = pos_part v + total m

-- What is still to come, category by category: the plan less what has come, never below zero.
abbrev pub restants : Map ℤ → Map ℤ → ℕ
restants reel [] = 0
restants reel ((k, prevu) ∷ m) =
    (pos_part prevu - pos_part (unwrap_or (get k reel) (pos 0))) + restants reel m

restant_lem :
    (prevu realise : ℤ)
    → IsMontant prevu
    → IsMontant realise
    → max_ℤ (sub_i64 prevu realise) (pos 0) ≡ pos (pos_part prevu - pos_part realise)
restant_lem prevu realise hp hr =
    rw (sub_i64_exact prevu realise (omega int_laws)) (unfold ◌-ℤ◌ in ground arith)

add_lem : (s r : ℕ) → s + r ≤ 2 ^ 62 → add_i64 (pos s) (pos r) ≡ pos (s + r)
add_lem s r h = add_i64_exact (pos s) (pos r) (omega int_laws) ∙ omega int_laws

module _ (reel : Map ℤ) (categories : Map Category) (hr : Montants reel) where
  ligne_restant :
      (k : ℕ) (prevu : ℤ)
      → IsMontant prevu
      → (ligne_prevision reel categories (k, prevu)).restant_cents
        ≡ pos (pos_part prevu - pos_part (unwrap_or (get k reel) (pos 0)))
  unfolding ligne_prevision
  ligne_restant k prevu hp =
      restant_lem prevu (unwrap_or (get k reel) (pos 0)) hp
        (All-get IsMontant k (pos 0) reel (omega arith) hr)

  cumuler_lem :
      (prevus : Map ℤ) (s : ℕ) (lignes : List LignePrevisionCategorie)
      → Montants prevus
      → s + total prevus ≤ 2 ^ 62
      → cumuler reel categories prevus (pos s, lignes)
        ≡ (pos (s + restants reel prevus), lignes ++ map (ligne_prevision reel categories) prevus)
  unfolding cumuler
  cumuler_lem [] s lignes hp hs = rw (add-zero, append-nil) refl
  cumuler_lem ((k, prevu) ∷ m) s lignes hp hs =
      let r = pos_part prevu - pos_part (unwrap_or (get k reel) (pos 0)) in
      let l = ligne_prevision reel categories (k, prevu) in
      ap (λ a. cumuler reel categories m (a, lignes ++ l ∷ []))
        (ap (add_i64 (pos s)) (ligne_restant k prevu hp.0) ∙ add_lem s r (omega arith))
      ∙ (cumuler_lem m (s + r) (lignes ++ l ∷ []) hp.1 (omega arith)
          ∙ ap₂ (λ a b. (pos a, b)) (add_assoc s r (restants reel m))
              (append_assoc lignes (l ∷ []) (map (ligne_prevision reel categories) m)))

  cumuler_complet :
      (prevus : Map ℤ) (lignes : List LignePrevisionCategorie)
      → Montants prevus
      → total prevus ≤ 2 ^ 62
      → cumuler reel categories prevus (pos 0, lignes)
        ≡ (pos (restants reel prevus), lignes ++ map (ligne_prevision reel categories) prevus)
  cumuler_complet prevus lignes hp hs =
      cumuler_lem prevus 0 lignes hp (omega arith)
      ∙ ap (λ a. (pos a, lignes ++ map (ligne_prevision reel categories) prevus))
          (zero-add (restants reel prevus))

restants-le-total : (reel m : Map ℤ) → restants reel m ≤ total m
restants-le-total reel [] = omega arith
restants-le-total reel ((k, v) ∷ m) = omega (arith, restants-le-total reel m)

solde_lem :
    (solde : ℤ) (r d : ℕ)
    → (negsuc (2 ^ 61) ≤ℤ solde) × (solde ≤ℤ pos (2 ^ 61))
    → r ≤ 2 ^ 62
    → d ≤ 2 ^ 62
    → sub_i64 (add_i64 solde (pos r)) (pos d) ≡ solde +ℤ pos r -ℤ pos d
solde_lem solde r d hs hr hd =
    rw (add_i64_exact solde (pos r) (omega int_laws))
      (sub_i64_exact (solde +ℤ pos r) (pos d) (omega int_laws))

-- The projected balance is the current one, plus the revenues still expected, less the expenses
-- still expected, each of them category by category and never negative; each planned category has
-- its line. No operation wraps around, as long as the current balance lies between -(2 ^ 61) - 1 and
-- 2 ^ 61, the amounts are of zero cents or more and at most 2 ^ 62, and the plans of the expenses,
-- and those of the revenues, add up to at most 2 ^ 62.
pub calculer_previsionnel_exact :
    (solde : ℤ) (dp rp : Map ℤ) (dr rr : RepartitionDepenses) (categories : Map Category)
    → (negsuc (2 ^ 61) ≤ℤ solde) × (solde ≤ℤ pos (2 ^ 61))
    → Montants dp
    → Montants rp
    → Montants (indexer_par_categorie dr)
    → Montants (indexer_par_categorie rr)
    → total dp ≤ 2 ^ 62
    → total rp ≤ 2 ^ 62
    → let p = calculer_previsionnel solde dp rp dr rr categories in
      let depenses = restants (indexer_par_categorie dr) dp in
      let revenus = restants (indexer_par_categorie rr) rp in
      (p.depenses_restantes_cents ≡ pos depenses)
      × (p.revenus_restants_cents ≡ pos revenus)
      × (p.solde_previsionnel_cents ≡ solde +ℤ pos revenus -ℤ pos depenses)
      × Permᴰ p.lignes (
          map (ligne_prevision (indexer_par_categorie dr) categories) dp
          ++ map (ligne_prevision (indexer_par_categorie rr) categories) rp)
unfolding calculer_previsionnel trier_lignes
calculer_previsionnel_exact solde dp rp dr rr categories hs hdp hrp hdr hrr td tr =
    let depenses_reelles = indexer_par_categorie dr in
    let revenus_reels = indexer_par_categorie rr in
    let ld = map (ligne_prevision depenses_reelles categories) dp in
    let d = restants depenses_reelles dp in
    let r = restants revenus_reels rp in
    rw
      (
        cumuler_complet depenses_reelles categories hdr dp [] hdp td,
        cumuler_complet revenus_reels categories hrr rp ld hrp tr,
      )
      (
        refl,
        refl,
        solde_lem solde r d hs (omega (arith, tr, restants-le-total revenus_reels rp))
            (omega (arith, td, restants-le-total depenses_reelles dp)),
        sort_by-perm prevision_avant _,
      )
