-- ===== src/Prelude/Sort.antt =====
-- The stable `sort_by`, by insertion, and what a linear order gives.
use mathlib.Core.Path.{◌≡◌, refl, ap₂, subst, ◌∙◌}
use mathlib.Core.Logic.{◌⊎◌, inl, inr}
use mathlib.Core.Bool.{Bool, true, false}
use mathlib.Core.List.{List, [], ◌∷◌, Permᴰ}
use mathlib.Core.List
use native.Mathlib.Omega.{arith}
use ch_api_budgy.Prelude.Tests.{if◌then◌else◌, Bool-cases}
use ch_api_budgy.Prelude.Lists.{All}

-- `le x y`: `x` may stand before `y`. An element goes in front of its equals, and the list is
-- taken from the right, so equal elements keep their order.
module _ {ℓ} {A : Type ℓ} where
  unfoldable pub insert : (A → A → Bool) → A → List A → List A
  insert le x [] = x ∷ []
  insert le x (y ∷ ys) = if le x y then x ∷ y ∷ ys else y ∷ insert le x ys

  unfoldable pub sort_by : (A → A → Bool) → List A → List A
  unfolding insert
  sort_by le [] = []
  sort_by le (x ∷ xs) = insert le x (sort_by le xs)

  abbrev pub IsSorted : (A → A → Bool) → List A → Type ℓ
  IsSorted le [] = Unit
  IsSorted le (x ∷ xs) = All (λ y. le x y ≡ true) xs × IsSorted le xs

  pub insert-perm : (le : A → A → Bool) (x : A) (ys : List A) → Permᴰ (insert le x ys) (x ∷ ys)
  unfolding insert
  insert-perm le x [] = List.Permᴰ.refl (x ∷ [])
  insert-perm le x (y ∷ ys) = elim (Bool-cases (le x y)) [
    | inl e ↦ rw e (List.Permᴰ.refl (x ∷ y ∷ ys))
    | inr e ↦ rw e (Permᴰ.trans (Permᴰ.cons refl (insert-perm le x ys)) (Permᴰ.swap refl refl))
  ]

  pub sort_by-perm : (le : A → A → Bool) (xs : List A) → Permᴰ (sort_by le xs) xs
  unfolding sort_by
  sort_by-perm le [] = Permᴰ.nil
  sort_by-perm le (x ∷ xs) =
      Permᴰ.trans (insert-perm le x (sort_by le xs)) (Permᴰ.cons refl (sort_by-perm le xs))

  pub All-perm {κ} : (P : A → Type κ) {xs ys : List A} → Permᴰ xs ys → All P xs → All P ys
  All-perm P Permᴰ.nil h = h
  All-perm P (Permᴰ.cons e p) h = (subst P e h.0, All-perm P p h.1)
  All-perm P (Permᴰ.swap e f) h = (subst P f h.1.0, (subst P e h.0, h.1.1))
  All-perm P (Permᴰ.trans p q) h = All-perm P q (All-perm P p h)

-- A linear order given by a Boolean test.
pub record IsLinear {ℓ} {A : Type ℓ} (le : A → A → Bool) : Type ℓ where
  pub total : (x y : A) → (le x y ≡ true) ⊎ (le y x ≡ true)
  pub trans : (x y z : A) → le x y ≡ true → le y z ≡ true → le x z ≡ true
  pub antisym : (x y : A) → le x y ≡ true → le y x ≡ true → x ≡ y

module _ {ℓ} {A : Type ℓ} (le : A → A → Bool) where
  -- A total and transitive test sorts.
  abbrev pub IsTotal : Type ℓ
  IsTotal = (x y : A) → (le x y ≡ true) ⊎ (le y x ≡ true)

  abbrev pub IsTransitive : Type ℓ
  IsTransitive = (x y z : A) → le x y ≡ true → le y z ≡ true → le x z ≡ true

  All-le_trans :
      IsTransitive
      → (x y : A) (zs : List A) → le x y ≡ true
      → All (λ z. le y z ≡ true) zs
      → All (λ z. le x z ≡ true) zs
  All-le_trans trans x y [] h hs = tt
  All-le_trans trans x y (z ∷ zs) h hs = (trans x y z h hs.0, All-le_trans trans x y zs h hs.1)

  pub insert-IsSorted :
      IsTotal → IsTransitive → (x : A) (ys : List A) → IsSorted le ys → IsSorted le (insert le x ys)
  unfolding insert
  insert-IsSorted total trans x [] h = (tt, tt)
  insert-IsSorted total trans x (y ∷ ys) h = elim (Bool-cases (le x y)) [
    | inl e ↦ rw e ((e, All-le_trans trans x y ys e h.0), h)
    | inr e ↦ rw e (
      All-perm _ (List.Permᴰ.symm (insert-perm le x ys)) (other total x y e, h.0),
      insert-IsSorted total trans x ys h.1,
    )
  ]
    where
      other : IsTotal → (x y : A) → le x y ≡ false → le y x ≡ true
      other total x y e = ground (arith, total x y)

  pub sort_by-IsSorted : IsTotal → IsTransitive → (xs : List A) → IsSorted le (sort_by le xs)
  unfolding sort_by
  sort_by-IsSorted total trans [] = tt
  sort_by-IsSorted total trans (x ∷ xs) =
      insert-IsSorted total trans x (sort_by le xs) (sort_by-IsSorted total trans xs)

  -- Under a linear order the input's order is forgotten.
  module _ (L : IsLinear le) where
    pub insert_comm :
        (x y : A) (l : List A) → insert le x (insert le y l) ≡ insert le y (insert le x l)
    unfolding insert
    insert_comm x y [] = ground (arith, L.total x y, L.antisym x y)
    insert_comm x y (z ∷ l) =
        ground (arith, L.total x y, L.antisym x y, L.trans x y z, L.trans y x z, insert_comm x y l)

    pub sort_by-perm_eq : {xs ys : List A} → Permᴰ xs ys → sort_by le xs ≡ sort_by le ys
    unfolding sort_by
    sort_by-perm_eq Permᴰ.nil = refl
    sort_by-perm_eq (Permᴰ.cons e p) = ap₂ (insert le) e (sort_by-perm_eq p)
    sort_by-perm_eq (Permᴰ.swap {a} {b} {l} e f) =
        insert_comm a b (sort_by le l) ∙ ap₂ (λ u v. insert le u (insert le v (sort_by le l))) f e
    sort_by-perm_eq (Permᴰ.trans p q) = sort_by-perm_eq p ∙ sort_by-perm_eq q
