-- ===== src/Recurrence/Grappes.antt =====
-- The clusters of src/domain/recurrence.rs are a partition of the payments.
use mathlib.Core.Path.{subst}
use mathlib.Core.List.{Permᴰ}
use mathlib.Core.List
use ch_api_budgy.Prelude.{
  ◌≡◌, refl, sym, ap, ◌∙◌, Bool, true, false, inl, inr, List, [], ◌∷◌, ◌++◌, map, filter, All,
  All-append, All-imp, Bool-cases, if◌then◌else◌,
}
use ch_api_budgy.Prelude.Sort.{sort_by, sort_by-perm, All-perm}
use ch_api_budgy.Texte.{Texte, text_eq}
use ch_api_budgy.Texte.Ordre.{text_eq_iff}
use ch_api_budgy.Recurrence.{
  OccurrenceTransaction, TransactionRecurrente, depuis, detecter_recurrences, grappe_est_mensuelle,
  grappes_de, montant_le, montants_proches, normaliser_marchand, par_marchand, ranger, recurrente,
  recurrentes_de, regrouper_par_montant, suivre,
}

abbrev pub reunion {ℓ} : {A : Type ℓ} → List (List A) → List A
reunion [] = []
reunion (xs ∷ xss) = xs ++ reunion xss

reunion-append {ℓ} :
    {A : Type ℓ} (xss yss : List (List A)) → reunion (xss ++ yss) ≡ reunion xss ++ reunion yss
reunion-append [] yss = refl
reunion-append (xs ∷ xss) yss =
    ap (λ u. xs ++ u) (reunion-append xss yss)
    ∙ sym (List.append_assoc xs (reunion xss) (reunion yss))

-- What holds of each element of the union holds in each part.
All-reunion {ℓ κ} :
    {A : Type ℓ} (P : A → Type κ) (xss : List (List A)) → All P (reunion xss) → All (All P) xss
All-reunion P [] h = tt
All-reunion P (xs ∷ xss) h =
    (gauche P xs (reunion xss) h, All-reunion P xss (droite P xs (reunion xss) h))
  where
    gauche : {A : Type ℓ} (P : A → Type κ) (xs ys : List A) → All P (xs ++ ys) → All P xs
    gauche P [] ys h = tt
    gauche P (x ∷ xs) ys h = (h.0, gauche P xs ys h.1)

    droite : {A : Type ℓ} (P : A → Type κ) (xs ys : List A) → All P (xs ++ ys) → All P ys
    droite P [] ys h = h
    droite P (x ∷ xs) ys h = droite P xs ys h.1

abbrev pub Occurrences : Type 0
Occurrences = List OccurrenceTransaction

-- A cluster: its first payment, and others whose amounts are close to that of the first.
abbrev pub Proches : Occurrences → Type 0
Proches g =
    (premiere : OccurrenceTransaction) × (autres : Occurrences) × (g ≡ premiere ∷ autres)
    × All (λ o. montants_proches premiere.amount_cents o.amount_cents ≡ true) autres

-- The next payment goes into the cluster, or opens another.
prend :
    (p : OccurrenceTransaction) (autres : Occurrences) (o : OccurrenceTransaction)
    (os : Occurrences)
    → montants_proches p.amount_cents o.amount_cents ≡ true
    → suivre p autres (o ∷ os) ≡ suivre p (autres ++ o ∷ []) os
unfolding suivre
prend p autres o os e = rw (suivre, e) refl

ouvre :
    (p : OccurrenceTransaction) (autres : Occurrences) (o : OccurrenceTransaction)
    (os : Occurrences)
    → montants_proches p.amount_cents o.amount_cents ≡ false
    → suivre p autres (o ∷ os) ≡ (p ∷ autres) ∷ suivre o [] os
unfolding suivre
ouvre p autres o os e = rw (suivre, e) refl

suivre-reunion :
    (p : OccurrenceTransaction) (autres os : Occurrences)
    → reunion (suivre p autres os) ≡ p ∷ autres ++ os
unfolding suivre
suivre-reunion p autres [] = refl
suivre-reunion p autres (o ∷ os) =
    elim (Bool-cases (montants_proches p.amount_cents o.amount_cents)) [
      | inl e ↦
          ap reunion (prend p autres o os e)
          ∙ suivre-reunion p (autres ++ o ∷ []) os
          ∙ ap (λ u. p ∷ u) (List.append_assoc autres (o ∷ []) os)
      | inr e ↦
          ap reunion (ouvre p autres o os e) ∙ ap (λ u. p ∷ autres ++ u) (suivre-reunion o [] os)
    ]

suivre-Proches :
    (p : OccurrenceTransaction) (autres os : Occurrences)
    → All (λ o. montants_proches p.amount_cents o.amount_cents ≡ true) autres
    → All Proches (suivre p autres os)
unfolding suivre
suivre-Proches p autres [] h = ((p, autres, refl, h), tt)
suivre-Proches p autres (o ∷ os) h =
    elim (Bool-cases (montants_proches p.amount_cents o.amount_cents)) [
      | inl e ↦
          subst (All Proches) (sym (prend p autres o os e))
            (suivre-Proches p (autres ++ o ∷ []) os (All-append _ autres (o ∷ []) h (e, tt)))
      | inr e ↦
          subst (All Proches) (sym (ouvre p autres o os e))
            ((p, autres, refl, h), suivre-Proches o [] os tt)
    ]

depuis-reunion : (os : Occurrences) → reunion (depuis os) ≡ os
unfolding depuis
depuis-reunion [] = refl
depuis-reunion (o ∷ os) = suivre-reunion o [] os

depuis-Proches : (os : Occurrences) → All Proches (depuis os)
unfolding depuis
depuis-Proches [] = tt
depuis-Proches (o ∷ os) = suivre-Proches o [] os tt

regrouper-perm : (os : Occurrences) → Permᴰ (reunion (regrouper_par_montant os)) os
unfolding regrouper_par_montant
regrouper-perm os =
    subst (λ u. Permᴰ u os) (sym (depuis-reunion (sort_by montant_le os)))
      (sort_by-perm montant_le os)

regrouper-Proches : (os : Occurrences) → All Proches (regrouper_par_montant os)
unfolding regrouper_par_montant
regrouper-Proches os = depuis-Proches (sort_by montant_le os)

module _ (to_uppercase : Texte → Texte) where
  abbrev MarchandDe : Texte → OccurrenceTransaction → Type 0
  MarchandDe c o = normaliser_marchand to_uppercase o.label ≡ c

  -- All the payments of a cluster are of one merchant.
  abbrev pub MemeMarchand : Occurrences → Type 0
  MemeMarchand g = (c : Texte) × All (MarchandDe c) g

  abbrev Groupes : Type 0
  Groupes = List (Texte × Occurrences)

  abbrev tout : Groupes → Occurrences
  tout [] = []
  tout ((c, os) ∷ gs) = os ++ tout gs

  abbrev Rangees : Groupes → Type 0
  Rangees [] = Unit
  Rangees ((c, os) ∷ gs) = All (MarchandDe c) os × Rangees gs

  dedans :
      (c : Texte) (o : OccurrenceTransaction) (d : Texte) (os : Occurrences) (gs : Groupes)
      → text_eq d c ≡ true
      → ranger c o ((d, os) ∷ gs) ≡ (d, os ++ o ∷ []) ∷ gs
  unfolding ranger
  dedans c o d os gs e = rw (ranger, e) refl

  plus_loin :
      (c : Texte) (o : OccurrenceTransaction) (d : Texte) (os : Occurrences) (gs : Groupes)
      → text_eq d c ≡ false
      → ranger c o ((d, os) ∷ gs) ≡ (d, os) ∷ ranger c o gs
  unfolding ranger
  plus_loin c o d os gs e = rw (ranger, e) refl

  ranger-perm :
      (c : Texte) (o : OccurrenceTransaction) (gs : Groupes)
      → Permᴰ (tout (ranger c o gs)) (o ∷ tout gs)
  unfolding ranger
  ranger-perm c o [] = List.Permᴰ.refl (o ∷ [])
  ranger-perm c o ((d, os) ∷ gs) = elim (Bool-cases (text_eq d c)) [
    | inl e ↦
        subst (λ u. Permᴰ u (o ∷ os ++ tout gs))
          (sym (ap tout (dedans c o d os gs e) ∙ List.append_assoc os (o ∷ []) (tout gs)))
          (List.Permᴰ.middle o os (tout gs))
    | inr e ↦
        subst (λ u. Permᴰ (tout u) (o ∷ os ++ tout gs)) (sym (plus_loin c o d os gs e))
          (Permᴰ.trans (List.Permᴰ.append_left os (ranger-perm c o gs))
            (List.Permᴰ.middle o os (tout gs)))
  ]

  ranger-Rangees :
      (o : OccurrenceTransaction) (gs : Groupes)
      → Rangees gs
      → Rangees (ranger (normaliser_marchand to_uppercase o.label) o gs)
  unfolding ranger
  ranger-Rangees o [] h = ((refl, tt), tt)
  ranger-Rangees o ((d, os) ∷ gs) h =
      let c = normaliser_marchand to_uppercase o.label in
      elim (Bool-cases (text_eq d c)) [
        | inl e ↦
            subst Rangees (sym (dedans c o d os gs e))
              (All-append _ os (o ∷ []) h.0 (sym ((text_eq_iff d c).0 e), tt), h.1)
        | inr e ↦ subst Rangees (sym (plus_loin c o d os gs e)) (h.0, ranger-Rangees o gs h.1)
      ]

  par_marchand-perm :
      (gs : Groupes) (os : Occurrences)
      → Permᴰ (tout (par_marchand to_uppercase gs os)) (tout gs ++ os)
  unfolding par_marchand
  par_marchand-perm gs [] = List.Permᴰ.symm (List.Permᴰ.append-nil (tout gs))
  par_marchand-perm gs (o ∷ os) =
      let c = normaliser_marchand to_uppercase o.label in
      Permᴰ.trans (par_marchand-perm (ranger c o gs) os) (
        Permᴰ.trans (List.Permᴰ.append_right os (ranger-perm c o gs))
          (List.Permᴰ.symm (List.Permᴰ.middle o (tout gs) os)))

  par_marchand-Rangees :
      (gs : Groupes) (os : Occurrences) → Rangees gs → Rangees (par_marchand to_uppercase gs os)
  unfolding par_marchand
  par_marchand-Rangees gs [] h = h
  par_marchand-Rangees gs (o ∷ os) h =
      par_marchand-Rangees (ranger (normaliser_marchand to_uppercase o.label) o gs) os
        (ranger-Rangees o gs h)

  -- The clusters of all the merchants.
  abbrev pub grappes : Occurrences → List Occurrences
  grappes os = grappes_de to_uppercase (par_marchand to_uppercase [] os)

  grappes_de-perm : (gs : Groupes) → Permᴰ (reunion (grappes_de to_uppercase gs)) (tout gs)
  unfolding grappes_de
  grappes_de-perm [] = Permᴰ.nil
  grappes_de-perm ((c, os) ∷ gs) =
      subst (λ u. Permᴰ u (os ++ tout gs))
        (sym (reunion-append (regrouper_par_montant os) (grappes_de to_uppercase gs)))
        (Permᴰ.trans
          (List.Permᴰ.append_right (reunion (grappes_de to_uppercase gs)) (regrouper-perm os))
          (List.Permᴰ.append_left os (grappes_de-perm gs)))

  abbrev pub EstGrappe : Occurrences → Type 0
  EstGrappe g = Proches g × MemeMarchand g

  joindre :
      (P Q : Occurrences → Type 0) (gs : List Occurrences)
      → All P gs
      → All Q gs
      → All (λ g. P g × Q g) gs
  joindre P Q [] p q = tt
  joindre P Q (g ∷ gs) p q = ((p.0, q.0), joindre P Q gs p.1 q.1)

  regrouper-EstGrappe :
      (c : Texte) (os : Occurrences)
      → All (MarchandDe c) os
      → All EstGrappe (regrouper_par_montant os)
  regrouper-EstGrappe c os h = joindre _ _ (regrouper_par_montant os) (regrouper-Proches os) (
      All-imp _ _ (regrouper_par_montant os) (λ g m. (c, m))
        (All-reunion (MarchandDe c) (regrouper_par_montant os)
          (All-perm _ (List.Permᴰ.symm (regrouper-perm os)) h)))

  grappes_de-EstGrappe : (gs : Groupes) → Rangees gs → All EstGrappe (grappes_de to_uppercase gs)
  unfolding grappes_de
  grappes_de-EstGrappe [] h = tt
  grappes_de-EstGrappe ((c, os) ∷ gs) h =
      All-append _ (regrouper_par_montant os) (grappes_de to_uppercase gs)
        (regrouper-EstGrappe c os h.0) (grappes_de-EstGrappe gs h.1)

  map-append : (g h : Occurrences) → map recurrente g ++ map recurrente h ≡ map recurrente (g ++ h)
  map-append [] h = refl
  map-append (o ∷ g) h = ap (λ u. recurrente o ∷ u) (map-append g h)

  suite :
      (b : Bool) (g : Occurrences) (rest : List Occurrences) {s : List TransactionRecurrente}
      → s ≡ map recurrente (reunion rest)
      → (if b then map recurrente g ++ s else s)
        ≡ map recurrente (reunion (if b then g ∷ rest else rest))
  suite true g rest e = ap (λ u. map recurrente g ++ u) e ∙ map-append g (reunion rest)
  suite false g rest e = e

  recurrentes_de_lem :
      (gs : List Occurrences)
      → recurrentes_de gs ≡ map recurrente (reunion (filter grappe_est_mensuelle gs))
  unfolding recurrentes_de
  recurrentes_de_lem [] = refl
  recurrentes_de_lem (g ∷ gs) =
      suite (grappe_est_mensuelle g) g (filter grappe_est_mensuelle gs) (recurrentes_de_lem gs)

  -- The payments are split, none lost and none twice, into clusters, each of one merchant and with
  -- amounts within the tolerance of that of its first payment; the recurrent payments are those of
  -- the clusters that are monthly, and only those.
  pub detecter_recurrences_lem :
      (os : Occurrences)
      → Permᴰ (reunion (grappes os)) os
        × All EstGrappe (grappes os)
        × (detecter_recurrences to_uppercase os
            ≡ map recurrente (reunion (filter grappe_est_mensuelle (grappes os))))
  unfolding detecter_recurrences
  detecter_recurrences_lem os =
      let gs = par_marchand to_uppercase [] os in
      (
        Permᴰ.trans (grappes_de-perm gs) (par_marchand-perm [] os),
        grappes_de-EstGrappe gs (par_marchand-Rangees [] os tt),
        recurrentes_de_lem (grappes_de to_uppercase gs),
      )
