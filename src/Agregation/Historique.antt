-- ===== src/Agregation/Historique.antt =====
-- `medianes_par_categorie` of src/domain/agregation.rs against its description: the median of one
-- amount a month, zero in a month without the category.
use ch_api_budgy.Prelude.{
  ℕ, zero, suc, ◌-◌, ◌≤◌, ◌≡◌, refl, sym, ap, ◌≡⟨◌⟩◌, ◌∎, inl, inr, Option, none, some, List, [],
  ◌∷◌, ◌++◌, length, take, replicate, arith, unwrap_or, Bool-cases, Option-cases, ==_iff, ◌==◌,
  if◌then◌else◌,
}
use mathlib.Core.List.{Permᴰ, append-nil, append_assoc}
use mathlib.Core.List
use ch_api_budgy.Prelude.Int.{ℤ, pos, ltb_ℤ}
use ch_api_budgy.Prelude.Map.{Map, get, update, IsMap, get-insert, insert-IsMap, collect_from-IsMap}
use ch_api_budgy.Agregation.{
  RepartitionDepenses, mediane, resize, indexer_par_categorie, ajouter_mois, montants_par_categorie,
  paires, garder_positives, medianes_par_categorie,
}
use ch_api_budgy.Agregation.Mediane.{mediane-perm, mediane-replicate}

abbrev un : Option ℤ → List ℤ
un none = []
un (some v) = v ∷ []

-- The amounts that a category has in the history, and the same with zero where it has none.
abbrev presents : ℕ → List RepartitionDepenses → List ℤ
presents k [] = []
presents k (mois ∷ h) = un (get k (indexer_par_categorie mois)) ++ presents k h

abbrev pub montants : ℕ → List RepartitionDepenses → List ℤ
montants k [] = []
montants k (mois ∷ h) = unwrap_or (get k (indexer_par_categorie mois)) (pos 0) ∷ montants k h

-- What the gathered map holds for a category.
abbrev liste : ℕ → Map (List ℤ) → List ℤ
liste k m = unwrap_or (get k m) []

liste-ajouter_mois :
    (k : ℕ) (m : Map (List ℤ)) (r : List (ℕ × ℤ))
    → IsMap r
    → liste k (ajouter_mois m r) ≡ liste k m ++ un (get k r)
unfolding ajouter_mois
liste-ajouter_mois k m [] h = sym (append-nil _)
liste-ajouter_mois k m ((j, v) ∷ r) h =
    let rest = liste-ajouter_mois k (update j [] (λ l. l ++ v ∷ []) m) r h.1 in
    elim (Bool-cases (j == k)) [
      | inl e ↦
          let same : j ≡ k = (==_iff j k).0 e in
          let gone : get k r ≡ none = rw same at h.0 in
          rw (rest, get-insert j k, e, gone) (simp (append-nil) (rw same))
      | inr e ↦ rw (rest, get-insert j k, e)
    ]

indexer-IsMap : (r : RepartitionDepenses) → IsMap (indexer_par_categorie r)
unfolding indexer_par_categorie
indexer-IsMap r = collect_from-IsMap [] (paires r.lignes) tt

length-presents : (k : ℕ) (h : List RepartitionDepenses) → length (presents k h) ≤ length h
length-presents k [] = omega arith
length-presents k (mois ∷ h) = elim (Option-cases (get k (indexer_par_categorie mois))) [
  | inl e ↦ rw e (omega (arith, length-presents k h))
  | inr (v, e) ↦ rw e (omega (arith, length-presents k h))
]

abbrev completes : ℕ → List RepartitionDepenses → List ℤ
completes k h = presents k h ++ replicate (length h - length (presents k h)) (pos 0)

-- The amounts padded with zeros are those of the months, in another order.
completes-perm : (k : ℕ) (h : List RepartitionDepenses) → Permᴰ (completes k h) (montants k h)
completes-perm k [] = Permᴰ.nil
completes-perm k (mois ∷ h) = elim (Option-cases (get k (indexer_par_categorie mois))) [
  | inl e ↦
      let one_more : suc (length h) - length (presents k h)
          ≡ suc (length h - length (presents k h)) =
        omega (arith, length-presents k h) in
      rw (e, one_more)
        (Permᴰ.trans (List.Permᴰ.middle (pos 0) (presents k h) _)
          (Permᴰ.cons refl (completes-perm k h)))
  | inr (v, e) ↦
      let same : suc (length h) - suc (length (presents k h)) ≡ length h - length (presents k h) =
        omega arith in
      rw (e, same) (Permᴰ.cons refl (completes-perm k h))
]

liste-montants_par_categorie :
    (k : ℕ) (m : Map (List ℤ)) (h : List RepartitionDepenses)
    → liste k (montants_par_categorie m h) ≡ liste k m ++ presents k h
unfolding montants_par_categorie
liste-montants_par_categorie k m [] = sym (append-nil _)
liste-montants_par_categorie k m (mois ∷ h) =
    let i = indexer_par_categorie mois in
    let rest = liste-montants_par_categorie k (ajouter_mois m i) h in
    rw (rest, liste-ajouter_mois k m i (indexer-IsMap mois))
      (append_assoc (liste k m) (un (get k i)) (presents k h))

take-all : (l : List ℤ) (n : ℕ) → length l ≤ n → take n l ≡ l
take-all [] zero h = refl
take-all [] (suc n) h = refl
take-all (x ∷ l) zero h = absurd (omega arith)
take-all (x ∷ l) (suc n) h = ap (λ r. x ∷ r) (take-all l n (omega arith))

-- The median of a category's amounts, if it is positive.
abbrev pub si_positive : ℤ → Option ℤ
si_positive v = if ltb_ℤ (pos 0) v then some v else none

take-nil : (n : ℕ) → take {A = ℤ} n [] ≡ []
take-nil zero = refl
take-nil (suc n) = refl

resize-nil : (n : ℕ) (a : ℤ) → resize n a [] ≡ replicate n a
resize-nil n a = let same : n - 0 ≡ n = omega arith in rw (take-nil n, same)

mediane_absente :
    (k n : ℕ) (m : Map (List ℤ))
    → get k m ≡ none
    → si_positive (mediane (resize n (pos 0) (liste k m))) ≡ none
mediane_absente k n m e = rw (e, resize-nil n (pos 0), mediane-replicate n)

get-garder_positives :
    (k n : ℕ) (m : Map (List ℤ))
    → IsMap m
    → get k (garder_positives n m) ≡ si_positive (mediane (resize n (pos 0) (liste k m)))
unfolding garder_positives
get-garder_positives k n [] h = sym (mediane_absente k n [] refl)
get-garder_positives k n ((j, l) ∷ m) h =
    ground (arith, get-garder_positives k n m h.1, mediane_absente k n m)

ajouter_mois-IsMap : (m : Map (List ℤ)) (r : List (ℕ × ℤ)) → IsMap m → IsMap (ajouter_mois m r)
unfolding ajouter_mois
ajouter_mois-IsMap m [] h = h
ajouter_mois-IsMap m ((k, v) ∷ r) h =
    ajouter_mois-IsMap (update k [] (λ l. l ++ v ∷ []) m) r (insert-IsMap k _ m h)

montants_par_categorie-IsMap :
    (m : Map (List ℤ)) (h : List RepartitionDepenses) → IsMap m → IsMap (montants_par_categorie m h)
unfolding montants_par_categorie
montants_par_categorie-IsMap m [] v = v
montants_par_categorie-IsMap m (mois ∷ h) v =
    montants_par_categorie-IsMap (ajouter_mois m (indexer_par_categorie mois)) h
      (ajouter_mois-IsMap m (indexer_par_categorie mois) v)

-- What is predicted for a category: the median of its monthly amounts over the whole history, a
-- month without the category counting zero, if that median is positive; otherwise nothing.
pub get-medianes_par_categorie :
    (k : ℕ) (h : List RepartitionDepenses)
    → get k (medianes_par_categorie h) ≡ si_positive (mediane (montants k h))
unfolding medianes_par_categorie
get-medianes_par_categorie k h =
    let m = montants_par_categorie [] h in
    get k (garder_positives (length h) m)
    ≡⟨ get-garder_positives k (length h) m (montants_par_categorie-IsMap [] h tt) ⟩
      si_positive (mediane (resize (length h) (pos 0) (liste k m)))
    ≡⟨ ap (λ l. si_positive (mediane (resize (length h) (pos 0) l)))
        (liste-montants_par_categorie k [] h) ⟩
      si_positive (mediane (resize (length h) (pos 0) (presents k h)))
    ≡⟨ ap (λ l. si_positive (mediane (l ++ replicate (length h - length (presents k h)) (pos 0))))
        (take-all (presents k h) (length h) (length-presents k h)) ⟩
      si_positive (mediane (completes k h))
    ≡⟨ ap si_positive (mediane-perm (completes k h) (montants k h) (completes-perm k h)) ⟩
      si_positive (mediane (montants k h)) ∎

garder_positives-IsMap : (n : ℕ) (m : Map (List ℤ)) → IsMap m → IsMap (garder_positives n m)
unfolding garder_positives
garder_positives-IsMap n [] h = tt
garder_positives-IsMap n ((k, l) ∷ m) h = ground (
  arith,
  garder_positives-IsMap n m h.1,
  get-garder_positives k n m h.1,
  mediane_absente k n m h.0,
)

pub medianes_par_categorie-IsMap : (h : List RepartitionDepenses) → IsMap (medianes_par_categorie h)
unfolding medianes_par_categorie
medianes_par_categorie-IsMap h =
    garder_positives-IsMap (length h) (montants_par_categorie [] h)
      (montants_par_categorie-IsMap [] h tt)
