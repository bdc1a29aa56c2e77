-- ===== src/Transfert/Appariement.antt =====
-- What the pairing of src/domain/transfert_interne.rs keeps.
use ch_api_budgy.Prelude.{
  ℕ, ◌≡◌, ◌≢◌, sym, Bool, true, false, List, [], ◌∷◌, map, contains, not, ◌&&◌, ◌||◌, ◌==◌, ==_refl,
  filter, All, All-append, All-imp, Bool-cases, inl, inr, arith, refl,
}
use ch_api_budgy.Prelude.Int.{pos, ltb_ℤ, ◌-ℤ◌, ◌<ℤ◌, ◌≤ℤ◌, eqb_ℤ_iff}
use ch_api_budgy.Prelude.I64.{neg_i64, abs_i64}
use ch_api_budgy.Prelude.Sort.{sort_by, sort_by-perm, All-perm}
use ch_api_budgy.Prelude.Map.{Map}
use mathlib.Core.List.{Permᴰ}
use mathlib.Core.List
use mathlib.Core.Path.{subst}
use ch_api_budgy.Texte.{Texte}
use ch_api_budgy.Transfert.{
  MouvementCandidat, Couple, sont_les_deux_faces, tolerance_jours, sous_le_minimum,
  appariement_sans_doute, a_retenir, retenir, ressemblance, couples_du_debit, couples_de, couples,
  virements, couple_avant, partenaires_du_debit, partenaires_du_credit, apparies,
  detecter_transferts_internes,
}

-- No number stands twice.
abbrev pub Distincts : List ℕ → Type 0
Distincts [] = Unit
Distincts (x ∷ xs) = (contains x xs ≡ false) × Distincts xs

debits : List Couple → List ℕ
debits = map (λ q. q.debit.id)

-- The two movements of a transfer.
pub record IsVirement (q : Couple) : Type 0 where
  pub comptes : q.credit.compte ≢ q.debit.compte
  pub montants : q.credit.amount_cents ≡ neg_i64 q.debit.amount_cents
  pub sens : (q.debit.amount_cents <ℤ pos 0) × (pos 0 <ℤ q.credit.amount_cents)
  pub dates : abs_i64 (q.credit.date -ℤ q.debit.date) ≤ℤ pos 4

faces_lem :
    (to_uppercase : Texte → Texte) (d c : MouvementCandidat)
    → sont_les_deux_faces d c ≡ true
    → d.amount_cents <ℤ pos 0
    → pos 0 <ℤ c.amount_cents
    → IsVirement (ressemblance to_uppercase d c)
unfolding sont_les_deux_faces tolerance_jours ressemblance
faces_lem to_uppercase d c h hd hc = record {
  comptes = λ e. ground arith;
  montants = (eqb_ℤ_iff c.amount_cents (neg_i64 d.amount_cents)).0 (ground arith);
  sens = (hd, hc);
  dates = ground arith;
}

negatif : (d : MouvementCandidat) → ltb_ℤ d.amount_cents (pos 0) ≡ true → d.amount_cents <ℤ pos 0
negatif d h = ground arith

positif : (c : MouvementCandidat) → ltb_ℤ (pos 0) c.amount_cents ≡ true → pos 0 <ℤ c.amount_cents
positif c h = ground arith

All-filter {κ} :
    (P : MouvementCandidat → Type κ) (t : MouvementCandidat → Bool) (ms : List MouvementCandidat)
    → All P ms
    → All (λ m. (t m ≡ true) × P m) (filter t ms)
All-filter P t [] h = tt
All-filter P t (m ∷ ms) h = elim (Bool-cases (t m)) [
  | inl e ↦ rw e ((e, h.0), All-filter P t ms h.1)
  | inr e ↦ rw e (All-filter P t ms h.1)
]

-- `couples` holds transfers only, and each face has what every movement has.
module _ {κ} (P : MouvementCandidat → Type κ) (to_uppercase : Texte → Texte) where
  abbrev pub Bon : Couple → Type κ
  Bon q = IsVirement q × P q.debit × P q.credit

  abbrev Debit : MouvementCandidat → Type κ
  Debit m = (ltb_ℤ m.amount_cents (pos 0) ≡ true) × P m

  abbrev Credit : MouvementCandidat → Type κ
  Credit m = (ltb_ℤ (pos 0) m.amount_cents ≡ true) × P m

  bon :
      (d c : MouvementCandidat)
      → Debit d
      → Credit c
      → sont_les_deux_faces d c ≡ true
      → Bon (ressemblance to_uppercase d c)
  unfolding ressemblance
  bon d c hd hc e = (faces_lem to_uppercase d c e (negatif d hd.0) (positif c hc.0), hd.1, hc.1)

  couples_du_debit_bons :
      (d : MouvementCandidat) (cs : List MouvementCandidat)
      → Debit d
      → All Credit cs
      → All Bon (couples_du_debit to_uppercase d cs)
  unfolding couples_du_debit
  couples_du_debit_bons d [] hd hc = tt
  couples_du_debit_bons d (c ∷ cs) hd hc = elim (Bool-cases (sont_les_deux_faces d c)) [
    | inl e ↦ rw e (bon d c hd hc.0 e, couples_du_debit_bons d cs hd hc.1)
    | inr e ↦ rw e (couples_du_debit_bons d cs hd hc.1)
  ]

  couples_de_bons :
      (ds cs : List MouvementCandidat)
      → All Debit ds
      → All Credit cs
      → All Bon (couples_de to_uppercase ds cs)
  unfolding couples_de
  couples_de_bons [] cs hd hc = tt
  couples_de_bons (d ∷ ds) cs hd hc =
      All-append Bon (couples_du_debit to_uppercase d cs) (couples_de to_uppercase ds cs)
        (couples_du_debit_bons d cs hd.0 hc) (couples_de_bons ds cs hd.1 hc)

  pub couples_bons : (ms : List MouvementCandidat) → All P ms → All Bon (couples to_uppercase ms)
  unfolding couples
  couples_bons ms h =
      couples_de_bons (filter (λ m. ltb_ℤ m.amount_cents (pos 0)) ms)
        (filter (λ m. ltb_ℤ (pos 0) m.amount_cents) ms)
        (All-filter P (λ m. ltb_ℤ m.amount_cents (pos 0)) ms h)
        (All-filter P (λ m. ltb_ℤ (pos 0) m.amount_cents) ms h)

module _ (pd pc : Map ℕ) where
  abbrev Libre : List ℕ → List ℕ → Couple → Type 0
  Libre dp cp q = (contains q.debit.id dp ≡ false) × (contains q.credit.id cp ≡ false)

  a_retenir-Libre : (dp cp : List ℕ) (q : Couple) → a_retenir pd pc dp cp q ≡ true → Libre dp cp q
  unfolding a_retenir
  a_retenir-Libre dp cp q h = ground arith

  prend :
      (dp cp : List ℕ) (q : Couple) (qs : List Couple)
      → a_retenir pd pc dp cp q ≡ true
      → retenir pd pc dp cp (q ∷ qs) ≡ q ∷ retenir pd pc (q.debit.id ∷ dp) (q.credit.id ∷ cp) qs
  unfolding retenir
  prend dp cp q qs e = rw (retenir, e) refl

  laisse :
      (dp cp : List ℕ) (q : Couple) (qs : List Couple)
      → a_retenir pd pc dp cp q ≡ false
      → retenir pd pc dp cp (q ∷ qs) ≡ retenir pd pc dp cp qs
  unfolding retenir
  laisse dp cp q qs e = rw (retenir, e) refl

  retenir-All {κ} :
      (Q : Couple → Type κ) (dp cp : List ℕ) (qs : List Couple)
      → All Q qs
      → All Q (retenir pd pc dp cp qs)
  unfolding retenir
  retenir-All Q dp cp [] h = tt
  retenir-All Q dp cp (q ∷ qs) h = elim (Bool-cases (a_retenir pd pc dp cp q)) [
    | inl e ↦
        rw (prend dp cp q qs e) (h.0, retenir-All Q (q.debit.id ∷ dp) (q.credit.id ∷ cp) qs h.1)
    | inr e ↦ rw (laisse dp cp q qs e) (retenir-All Q dp cp qs h.1)
  ]

  retenir-Libre : (dp cp : List ℕ) (qs : List Couple) → All (Libre dp cp) (retenir pd pc dp cp qs)
  unfolding retenir
  retenir-Libre dp cp [] = tt
  retenir-Libre dp cp (q ∷ qs) = elim (Bool-cases (a_retenir pd pc dp cp q)) [
    | inl e ↦ rw (prend dp cp q qs e) (
      a_retenir-Libre dp cp q e,
      All-imp (Libre (q.debit.id ∷ dp) (q.credit.id ∷ cp)) (Libre dp cp) _ (λ r h. ground arith)
          (retenir-Libre (q.debit.id ∷ dp) (q.credit.id ∷ cp) qs),
    )
    | inr e ↦ rw (laisse dp cp q qs e) (retenir-Libre dp cp qs)
  ]

  absent :
      (f : Couple → ℕ) (x : ℕ) (qs : List Couple)
      → All (λ q. (x == f q) ≡ false) qs
      → contains x (map f qs) ≡ false
  absent f x [] h = refl
  absent f x (q ∷ qs) h = rw (h.0) (absent f x qs h.1)

  retenir-Distincts :
      (dp cp : List ℕ) (qs : List Couple)
      → Distincts (map (λ q. q.debit.id) (retenir pd pc dp cp qs))
        × Distincts (map (λ q. q.credit.id) (retenir pd pc dp cp qs))
  unfolding retenir
  retenir-Distincts dp cp [] = (tt, tt)
  retenir-Distincts dp cp (q ∷ qs) = elim (Bool-cases (a_retenir pd pc dp cp q)) [
    | inl e ↦
        let d = q.debit.id ∷ dp in
        let c = q.credit.id ∷ cp in
        let libres = retenir-Libre d c qs in
        let rest = retenir-Distincts d c qs in
        rw (prend dp cp q qs e) (
          (
            absent (λ r. r.debit.id) q.debit.id _
                (All-imp (Libre d c) _ _ (λ r h. ground arith) libres),
            rest.0,
          ),
          (
            absent (λ r. r.credit.id) q.credit.id _
                (All-imp (Libre d c) _ _ (λ r h. ground arith) libres),
            rest.1,
          ),
        )
    | inr e ↦ rw (laisse dp cp q qs e) (retenir-Distincts dp cp qs)
  ]

  -- The couple can no longer be kept beside those of `r`.
  abbrev pub Ferme : List ℕ → List ℕ → List Couple → Couple → Type 0
  Ferme dp cp r q =
      (((contains q.debit.id dp || contains q.debit.id (map (λ s. s.debit.id) r))
          || (contains q.credit.id cp || contains q.credit.id (map (λ s. s.credit.id) r)))
        || (sous_le_minimum q && not (appariement_sans_doute q pd pc)))
      ≡ true

  ferme :
      (dp cp : List ℕ) (r : List Couple) (q : Couple)
      → a_retenir pd pc dp cp q ≡ false
      → Ferme dp cp r q
  unfolding a_retenir
  ferme dp cp r q e = ground arith

  pub retenir-Ferme :
      (dp cp : List ℕ) (qs : List Couple) → All (Ferme dp cp (retenir pd pc dp cp qs)) qs
  unfolding retenir
  retenir-Ferme dp cp [] = tt
  retenir-Ferme dp cp (q ∷ qs) = elim (Bool-cases (a_retenir pd pc dp cp q)) [
    | inl e ↦
        let d = q.debit.id ∷ dp in
        let c = q.credit.id ∷ cp in
        let r = retenir pd pc d c qs in
        subst (λ u. All (Ferme dp cp u) (q ∷ qs)) (sym (prend dp cp q qs e))
          (
            ground (arith, ==_refl q.debit.id),
            All-imp (Ferme d c r) (Ferme dp cp (q ∷ r)) qs (λ s h. ground arith)
                (retenir-Ferme d c qs),
          )
    | inr e ↦
        subst (λ u. All (Ferme dp cp u) (q ∷ qs)) (sym (laisse dp cp q qs e))
          (ferme dp cp (retenir pd pc dp cp qs) q e, retenir-Ferme dp cp qs)
  ]

-- What is detected are the two faces of transfers: each is a movement of the input, and so has what
-- every movement has; a debit and a credit of opposite amounts, on two accounts, at most four days
-- apart; and no debit and no credit stands in two of them.
pub detecter_transferts_internes-IsVirement {κ} :
    (P : MouvementCandidat → Type κ) (to_uppercase : Texte → Texte) (ms : List MouvementCandidat)
    → All P ms
    → let r = virements to_uppercase ms in
      (detecter_transferts_internes to_uppercase ms ≡ apparies r)
      × All (λ q. IsVirement q × P q.debit × P q.credit) r
      × Distincts (map (λ q. q.debit.id) r)
      × Distincts (map (λ q. q.credit.id) r)
unfolding virements detecter_transferts_internes
detecter_transferts_internes-IsVirement P to_uppercase ms h =
    let qs = couples to_uppercase ms in
    let pd = partenaires_du_debit qs in
    let pc = partenaires_du_credit qs in
    let tries = sort_by couple_avant qs in
    let d = retenir-Distincts pd pc [] [] tries in
    let bons =
      All-perm (Bon P to_uppercase) (List.Permᴰ.symm (sort_by-perm couple_avant qs))
        (couples_bons P to_uppercase ms h) in
    (refl, retenir-All pd pc (Bon P to_uppercase) [] [] tries bons, d.0, d.1)
