-- ===== src/Transfert/Completude.antt =====
-- What the pairing of src/domain/transfert_interne.rs cannot have missed.
use ch_api_budgy.Prelude.{
  ℕ, ◌+◌, ◌*◌, ◌<◌, ◌≡◌, ◌≢◌, ◌∙◌, Bool, ◌⊎◌, unwrap_or, if◌then◌else◌, ==_iff, All-split, All_tout,
  true, false, List, [], ◌∷◌, map, contains, ◌==◌, filter, All, All-imp, Bool-cases, inl, inr,
  arith, refl,
}
use ch_api_budgy.Prelude.Int.{pos, ℤ, ltb_ℤ, leb_ℤ, eqb_ℤ, ◌-ℤ◌, ◌≤ℤ◌, eqb_ℤ_iff}
use ch_api_budgy.Prelude.I64.{neg_i64, abs_i64}
use ch_api_budgy.Prelude.Sort.{sort_by, sort_by-perm, All-perm}
use ch_api_budgy.Prelude.Map.{Map, get, get-insert, update}
use mathlib.Core.Path.{subst}
use ch_api_budgy.Texte.{Texte}
use ch_api_budgy.Transfert.{
  MouvementCandidat, Couple, sont_les_deux_faces, tolerance_jours, sous_le_minimum,
  appariement_sans_doute, retenir, ressemblance, couples_du_debit, couples_de, couples, virements,
  couple_avant, partenaires_du_debit, partenaires_du_credit, compter,
}
use ch_api_budgy.Transfert.Appariement.{Ferme, IsVirement, couples_bons, retenir-Ferme}

-- How many couples of the input have a debit, or a credit, with an id.
abbrev pub nombre : (Couple → ℕ) → ℕ → List Couple → ℕ
nombre cle id [] = 0
nombre cle id (q ∷ qs) = if cle q == id then nombre cle id qs + 1 else nombre cle id qs

compter_lem :
    (cle : Couple → ℕ) (id : ℕ) (qs : List Couple) (m : Map ℕ)
    → unwrap_or (get id (compter cle qs m)) 0 ≡ unwrap_or (get id m) 0 + nombre cle id qs
unfolding compter
compter_lem cle id [] m = omega arith
compter_lem cle id (q ∷ qs) m =
    compter_lem cle id qs (update (cle q) 0 (λ n. n + 1) m) ∙ un_de_plus (cle q == id) refl
  where
    un_de_plus :
        (b : Bool)
        → (cle q == id) ≡ b
        → unwrap_or (get id (update (cle q) 0 (λ n. n + 1) m)) 0 + nombre cle id qs
          ≡ unwrap_or (get id m) 0 + (if b then nombre cle id qs + 1 else nombre cle id qs)
    un_de_plus b e =
        ground
          (arith, get-insert (cle q) id (unwrap_or (get (cle q) m) 0 + 1) m, e, ==_iff (cle q) id)

-- A movement has one possible partner, and the user did not put it away.
abbrev pub SansDoute : List Couple → MouvementCandidat → MouvementCandidat → Type 0
SansDoute qs d c =
    (nombre (λ q. q.debit.id) d.id qs ≡ 1)
    × (nombre (λ q. q.credit.id) c.id qs ≡ 1)
    × (d.range_a_la_main ≡ false)
    × (c.range_a_la_main ≡ false)

-- The debit or the credit is taken, or less than a quarter of the words are common to both labels
-- and there is a doubt.
abbrev pub Epuise :
    (Texte → Texte) → List MouvementCandidat → MouvementCandidat → MouvementCandidat → Type 0
Epuise to_uppercase ms d c =
    let r = virements to_uppercase ms in
    (contains d.id (map (λ q. q.debit.id) r) ≡ true)
    ⊎ ((contains c.id (map (λ q. q.credit.id) r) ≡ true)
        ⊎ ((4 * (ressemblance to_uppercase d c).communs < (ressemblance to_uppercase d c).union)
            × (¬ SansDoute (couples to_uppercase ms) d c)))

sens_du_debit :
    (to_uppercase : Texte → Texte) (d c : MouvementCandidat)
    → IsVirement (ressemblance to_uppercase d c)
    → ltb_ℤ d.amount_cents (pos 0) ≡ true
unfolding ressemblance
sens_du_debit to_uppercase d c v = let s = v.sens.0 in ground (arith, s)

sens_du_credit :
    (to_uppercase : Texte → Texte) (d c : MouvementCandidat)
    → IsVirement (ressemblance to_uppercase d c)
    → ltb_ℤ (pos 0) c.amount_cents ≡ true
unfolding ressemblance
sens_du_credit to_uppercase d c v = let s = v.sens.1 in ground (arith, s)

deux_faces :
    (to_uppercase : Texte → Texte) (d c : MouvementCandidat)
    → IsVirement (ressemblance to_uppercase d c)
    → sont_les_deux_faces d c ≡ true
unfolding ressemblance sont_les_deux_faces tolerance_jours
deux_faces to_uppercase d c v =
    let m : eqb_ℤ c.amount_cents (neg_i64 d.amount_cents) ≡ true =
      (eqb_ℤ_iff c.amount_cents (neg_i64 d.amount_cents)).1 v.montants in
    let n : leb_ℤ (abs_i64 (c.date -ℤ d.date)) (pos 4) ≡ true = proche _ v.dates in
    let e : (c.compte == d.compte) ≡ false = differents c.compte d.compte v.comptes in
    rw (m, n, e) refl
  where
    proche : (a : ℤ) → a ≤ℤ pos 4 → leb_ℤ a (pos 4) ≡ true
    proche a h = ground arith

    differents : (a b : ℕ) → a ≢ b → (a == b) ≡ false
    differents a b h = elim (Bool-cases (a == b)) [
      | inl e ↦ absurd (h ((==_iff a b).0 e))
      | inr e ↦ e
    ]

All-unfilter {κ} :
    (P : MouvementCandidat → Type κ) (t : MouvementCandidat → Bool) (ms : List MouvementCandidat)
    → All P (filter t ms)
    → All (λ m. t m ≡ true → P m) ms
All-unfilter P t [] h = tt
All-unfilter P t (m ∷ ms) h = elim (Bool-cases (t m)) [
  | inl e ↦
      let g = subst (λ b. All P (if b then m ∷ filter t ms else filter t ms)) e h in
      (λ f. g.0, All-unfilter P t ms g.1)
  | inr e ↦
      let g = subst (λ b. All P (if b then m ∷ filter t ms else filter t ms)) e h in
      (λ f. absurd (ground (arith, e, f)), All-unfilter P t ms g)
]

module _ (to_uppercase : Texte → Texte) (Q : Couple → Type 0) where
  du_debit_complet :
      (d : MouvementCandidat) (cs : List MouvementCandidat)
      → All Q (couples_du_debit to_uppercase d cs)
      → All (λ c. sont_les_deux_faces d c ≡ true → Q (ressemblance to_uppercase d c)) cs
  unfolding couples_du_debit
  du_debit_complet d [] h = tt
  du_debit_complet d (c ∷ cs) h = elim (Bool-cases (sont_les_deux_faces d c)) [
    | inl e ↦
        let rest = couples_du_debit to_uppercase d cs in
        let g = subst (λ b. All Q (if b then ressemblance to_uppercase d c ∷ rest else rest)) e h in
        (λ f. g.0, du_debit_complet d cs g.1)
    | inr e ↦
        let rest = couples_du_debit to_uppercase d cs in
        let g = subst (λ b. All Q (if b then ressemblance to_uppercase d c ∷ rest else rest)) e h in
        (λ f. absurd (ground (arith, e, f)), du_debit_complet d cs g)
  ]

  de_complet :
      (ds cs : List MouvementCandidat)
      → All Q (couples_de to_uppercase ds cs)
      → All
          (λ d. All (λ c. sont_les_deux_faces d c ≡ true → Q (ressemblance to_uppercase d c)) cs)
          ds
  unfolding couples_de
  de_complet [] cs h = tt
  de_complet (d ∷ ds) cs h =
      let g = All-split Q (couples_du_debit to_uppercase d cs) (couples_de to_uppercase ds cs) h in
      (du_debit_complet d cs g.0, de_complet ds cs g.1)

  -- `couples` holds every pair of faces.
  couples_complet :
      (ms : List MouvementCandidat)
      → All Q (couples to_uppercase ms)
      → All
          (λ d.
            All
              (λ c. IsVirement (ressemblance to_uppercase d c) → Q (ressemblance to_uppercase d c))
              ms)
          ms
  unfolding couples
  couples_complet ms h =
      All-imp _ _ ms
        (λ d g. elim (Bool-cases (ltb_ℤ d.amount_cents (pos 0))) [
          | inl e ↦
              All-imp _ _ ms
                (λ c k v. k (sens_du_credit to_uppercase d c v) (deux_faces to_uppercase d c v))
                (All-unfilter _ (λ m. ltb_ℤ (pos 0) m.amount_cents) ms (g e))
          | inr e ↦
              All_tout _ (λ c v. absurd (ground (arith, e, sens_du_debit to_uppercase d c v))) ms
        ])
        (All-unfilter _ (λ m. ltb_ℤ m.amount_cents (pos 0)) ms (de_complet _ _ h))

epuise :
    (to_uppercase : Texte → Texte) (ms : List MouvementCandidat) (d c : MouvementCandidat)
    → Ferme
        (partenaires_du_debit (couples to_uppercase ms))
        (partenaires_du_credit (couples to_uppercase ms))
        []
        []
        (virements to_uppercase ms)
        (ressemblance to_uppercase d c)
    → Epuise to_uppercase ms d c
unfolding ressemblance sous_le_minimum appariement_sans_doute partenaires_du_debit
    partenaires_du_credit
epuise to_uppercase ms d c h =
    let qs = couples to_uppercase ms in
    let r = virements to_uppercase ms in
    let nd = compter_lem (λ q. q.debit.id) d.id qs [] in
    let nc = compter_lem (λ q. q.credit.id) c.id qs [] in
    elim (Bool-cases (contains d.id (map (λ q. q.debit.id) r))) [
      | inl e ↦ inl e
      | inr e ↦ elim (Bool-cases (contains c.id (map (λ q. q.credit.id) r))) [
        | inl f ↦ inr (inl f)
        | inr f ↦ inr (
            inr (
              ground (arith, e, f, h),
              λ (a, b, m, n). absurd (ground (arith, e, f, h, nd, nc, a, b, m, n)),
            ))
      ]
    ]

-- Nothing more can be detected: of each two movements of the input that are the two faces of a
-- transfer, one is taken, or less than a quarter of the words are common to both labels and there is
-- a doubt: one of them has other partners, or the user put one of them away. The couples that are
-- counted as partners are the two faces of transfers.
pub virements_complet :
    (to_uppercase : Texte → Texte) (ms : List MouvementCandidat)
    → All IsVirement (couples to_uppercase ms)
      × All
          (λ d.
            All (λ c. IsVirement (ressemblance to_uppercase d c) → Epuise to_uppercase ms d c) ms)
          ms
unfolding virements
virements_complet to_uppercase ms =
    let qs = couples to_uppercase ms in
    let pd = partenaires_du_debit qs in
    let pc = partenaires_du_credit qs in
    let tries = sort_by couple_avant qs in
    let fermes =
      All-perm (Ferme pd pc [] [] (retenir pd pc [] [] tries)) (sort_by-perm couple_avant qs)
        (retenir-Ferme pd pc [] [] tries) in
    (
      All-imp {0, 0, 0} _ IsVirement qs (λ q h. h.0)
          (couples_bons (λ m. Unit) to_uppercase ms (All_tout (λ m. Unit) (λ m. tt) ms)),
      All-imp _ _ ms (λ d g. All-imp _ _ ms (λ c k v. epuise to_uppercase ms d c (k v)) g)
          (couples_complet to_uppercase (Ferme pd pc [] [] (virements to_uppercase ms)) ms fermes),
    )
