-- ===== src/Prelude/Tables.antt =====
-- A table as the list of its rows: `UPDATE … WHERE`, its `rows_affected`, `LIMIT 1`, and a key that
-- no two rows share.
use mathlib.Core.Path.{◌≡◌, refl, ap}
use mathlib.Core.Path.{subst}
use mathlib.Core.Logic.{◌⊎◌, inl, inr}
use mathlib.Core.Bool.{Bool, true, false, not, ◌&&◌}
use mathlib.Core.List.{List, [], ◌∷◌, ◌++◌}
use mathlib.Core.Option.{Option, none, some}
use Prim.Native.Nat.{ℕ, suc, ◌+◌}
use native.Mathlib.Omega.{arith}
use ch_api_budgy.Prelude.Tests.{if◌then◌else◌, ◌==◌, ==_iff, ==_refl, Bool-cases}
use ch_api_budgy.Prelude.Lists.{All, filter, length}

module _ {ℓ} {A : Type ℓ} where
  -- `UPDATE … SET modif WHERE cond`
  abbrev pub update : (A → Bool) → (A → A) → List A → List A
  update cond modif [] = []
  update cond modif (x ∷ xs) = (if cond x then modif x else x) ∷ update cond modif xs

  -- `rows_affected`
  abbrev pub affected : (A → Bool) → List A → ℕ
  affected cond xs = length (filter cond xs)

  -- `DELETE … WHERE cond`
  abbrev pub delete : (A → Bool) → List A → List A
  delete cond xs = filter (λ x. not (cond x)) xs

  -- `SELECT … WHERE cond LIMIT 1`
  abbrev pub first : (A → Bool) → List A → Option A
  first cond [] = none
  first cond (x ∷ xs) = if cond x then some x else first cond xs

  pub length-delete :
      (cond : A → Bool) (xs : List A) → length (delete cond xs) + affected cond xs ≡ length xs
  length-delete cond [] = omega arith
  length-delete cond (x ∷ xs) = ground (arith, length-delete cond xs)

  pub delete-All : (cond : A → Bool) (xs : List A) → All (λ x. cond x ≡ false) (delete cond xs)
  delete-All cond [] = tt
  delete-All cond (x ∷ xs) = elim (Bool-cases (cond x)) [
    | inl e ↦ rw e (delete-All cond xs)
    | inr e ↦ rw e (e, delete-All cond xs)
  ]

  pub filter-All : (cond : A → Bool) (xs : List A) → All (λ x. cond x ≡ true) (filter cond xs)
  filter-All cond [] = tt
  filter-All cond (x ∷ xs) = elim (Bool-cases (cond x)) [
    | inl e ↦ rw e (e, filter-All cond xs)
    | inr e ↦ rw e (filter-All cond xs)
  ]

  pub All-filtered {κ} :
      (P : A → Type κ) (cond : A → Bool) (xs : List A) → All P xs → All P (filter cond xs)
  All-filtered P cond [] h = tt
  All-filtered P cond (x ∷ xs) h = elim (Bool-cases (cond x)) [
    | inl e ↦ rw e (h.0, All-filtered P cond xs h.1)
    | inr e ↦ rw e (All-filtered P cond xs h.1)
  ]

  -- The rows that an update does not reach.
  pub filter-update :
      (p cond : A → Bool) (modif : A → A)
      → ((x : A) → cond x ≡ true → p x ≡ false)
      → ((x : A) → p (modif x) ≡ p x)
      → (xs : List A) → filter p (update cond modif xs) ≡ filter p xs
  filter-update p cond modif h k [] = refl
  filter-update p cond modif h k (x ∷ xs) = elim (Bool-cases (cond x)) [
    | inl e ↦ rw (e, k x, h x e) (filter-update p cond modif h k xs)
    | inr e ↦ rw (e, filter-update p cond modif h k xs) refl
  ]

  pub filter-ajout :
      (p : A → Bool) (xs : List A) (x : A) → p x ≡ false → filter p (xs ++ x ∷ []) ≡ filter p xs
  filter-ajout p [] x h = rw h refl
  filter-ajout p (y ∷ ys) x h = elim (Bool-cases (p y)) [
    | inl e ↦ rw e (ap (λ u. y ∷ u) (filter-ajout p ys x h))
    | inr e ↦ rw e (filter-ajout p ys x h)
  ]

  pub filter-filter :
      (p q : A → Bool) (xs : List A) → filter p (filter q xs) ≡ filter (λ x. q x && p x) xs
  filter-filter p q [] = refl
  filter-filter p q (x ∷ xs) = elim (Bool-cases (q x)) [
    | inl e ↦ rw (e, filter-filter p q xs) refl
    | inr e ↦ rw (e, filter-filter p q xs) refl
  ]

  pub filter_ext :
      (p q : A → Bool) → ((x : A) → p x ≡ q x) → (xs : List A) → filter p xs ≡ filter q xs
  filter_ext p q h [] = refl
  filter_ext p q h (x ∷ xs) = rw (h x, filter_ext p q h xs) refl

pub ==_comm : (a b : ℕ) → (a == b) ≡ (b == a)
==_comm a b = ground arith

-- The rows of a primary key.
module _ {ℓ} {A : Type ℓ} (key : A → ℕ) where
  abbrev pub Uniques : List A → Type 0
  Uniques [] = Unit
  Uniques (x ∷ xs) = All (λ y. (key y == key x) ≡ false) xs × Uniques xs

  abbrev pub of_key : ℕ → List A → Option A
  of_key k xs = first (λ x. key x == k) xs

  of_key-cons :
      (x : A) (xs ys : List A)
      → All (λ y. (key y == key x) ≡ false) ys
      → All (λ y. of_key (key y) xs ≡ some y) ys
      → All (λ y. of_key (key y) (x ∷ xs) ≡ some y) ys
  of_key-cons x xs [] h i = tt
  of_key-cons x xs (y ∷ ys) h i =
      (rw (==_comm (key x) (key y)) (rw h.0 i.0), of_key-cons x xs ys h.1 i.1)

  -- Each row is the one of its key.
  pub of_key-All : (xs : List A) → Uniques xs → All (λ x. of_key (key x) xs ≡ some x) xs
  of_key-All [] h = tt
  of_key-All (x ∷ xs) h = (rw (==_refl (key x)) refl, of_key-cons x xs xs h.0 (of_key-All xs h.1))

  -- `WHERE key = k AND cond`
  abbrev pub guarded : ℕ → (A → Bool) → A → Bool
  guarded k cond x = key x == k && cond x

  module _ (k : ℕ) (cond : A → Bool) (modif : A → A) (keeps : (x : A) → key (modif x) ≡ key x) where
    All-key_update :
        (j : ℕ) (xs : List A)
        → All (λ y. (key y == j) ≡ false) xs
        → All (λ y. (key y == j) ≡ false) (update (guarded k cond) modif xs)
    All-key_update j [] h = tt
    All-key_update j (x ∷ xs) h = elim (Bool-cases (guarded k cond x)) [
      | inl e ↦ rw e (rw (keeps x) h.0, All-key_update j xs h.1)
      | inr e ↦ rw e (h.0, All-key_update j xs h.1)
    ]

    pub update-Uniques : (xs : List A) → Uniques xs → Uniques (update (guarded k cond) modif xs)
    update-Uniques [] h = tt
    update-Uniques (x ∷ xs) h = elim (Bool-cases (guarded k cond x)) [
      | inl e ↦ rw e (rw (keeps x) (All-key_update (key x) xs h.0), update-Uniques xs h.1)
      | inr e ↦ rw e (All-key_update (key x) xs h.0, update-Uniques xs h.1)
    ]

    absent :
        (xs : List A)
        → All (λ y. (key y == k) ≡ false) xs
        → (affected (guarded k cond) xs ≡ 0) × (update (guarded k cond) modif xs ≡ xs)
    absent [] h = (refl, refl)
    absent (x ∷ xs) h = let ih = absent xs h.1 in rw h.0 (ih.0, ap (λ u. x ∷ u) ih.1)

    seul :
        (x : A) (xs : List A)
        → Uniques (x ∷ xs)
        → (key x == k) ≡ true
        → (affected (guarded k cond) xs ≡ 0) × (update (guarded k cond) modif xs ≡ xs)
    seul x xs h e =
        absent xs (subst (λ j. All (λ y. (key y == j) ≡ false) xs) ((==_iff (key x) k).0 e) h.0)

    -- The row of another key.
    pub of_key-update :
        (j : ℕ) (xs : List A)
        → (j == k) ≡ false
        → of_key j (update (guarded k cond) modif xs) ≡ of_key j xs
    of_key-update j [] d = refl
    of_key-update j (x ∷ xs) d = ground (arith, keeps x, of_key-update j xs d)

    -- Either no row is touched, or the one row of the key, which passes the condition.
    abbrev pub Touche : List A → Type ℓ
    Touche xs =
        (x : A) × (of_key k xs ≡ some x)
        × (cond x ≡ true)
        × (affected (guarded k cond) xs ≡ 1)
        × (of_key k (update (guarded k cond) modif xs) ≡ some (modif x))

    abbrev pub Intact : List A → Type ℓ
    Intact xs = (affected (guarded k cond) xs ≡ 0) × (update (guarded k cond) modif xs ≡ xs)

    pub touche : (xs : List A) → Uniques xs → Intact xs ⊎ Touche xs
    touche [] h = inl (refl, refl)
    touche (x ∷ xs) h = elim (Bool-cases (key x == k)) [
      | inl e ↦ elim (Bool-cases (cond x)) [
        | inl c ↦ inr (
          x,
          rw e refl,
          c,
          rw (e, c) (ap suc (seul x xs h e).0),
          rw (e, c) (rw (keeps x, e) refl),
        )
        | inr c ↦ inl (rw (e, c) (seul x xs h e).0, rw (e, c) (ap (λ u. x ∷ u) (seul x xs h e).1))
      ]
      | inr e ↦ elim (touche xs h.1) [
        | inl i ↦ inl (rw e (i.0, ap (λ u. x ∷ u) i.1))
        | inr t ↦ inr (t.0, rw e t.1, t.2, rw e t.3, rw e (rw e t.4))
      ]
    ]

    -- A row that is not touched does not pass the condition.
    pub of_key-affected :
        (xs : List A)
        → affected (guarded k cond) xs ≡ 0
        → (x : A) → of_key k xs ≡ some x
        → cond x ≡ false
    of_key-affected [] h x e = cc
    of_key-affected (y ∷ ys) h x e = elim (Bool-cases (key y == k)) [
      | inl f ↦ elim (Bool-cases (cond y)) [
        | inl g ↦ absurd (ground (arith, f, g, h))
        | inr g ↦ ground (arith, f, g, e)
      ]
      | inr f ↦ of_key-affected ys (ground (arith, f, h)) x (ground (arith, f, e))
    ]
