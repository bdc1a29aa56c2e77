-- ===== src/Agregation/Mediane.antt =====
-- The median of src/domain/agregation.rs.
use ch_api_budgy.Prelude.{
  ℕ, zero, suc, ◌+◌, ◌*◌, ◌/◌, ◌%◌, ◌==◌, ◌≤◌, ◌<◌, ◌≡◌, refl, ap, ◌∙◌, true, false, List, [], ◌∷◌,
  length, get_or, replicate, All, arith, if◌then◌else◌,
}
use mathlib.Core.List.{Permᴰ}
use ch_api_budgy.Prelude.Int.{ℤ, pos, leb_ℤ, ◌+ℤ◌, ◌-ℤ◌}
use ch_api_budgy.Prelude.I64.{wrap}
use ch_api_budgy.Prelude.Sort.{
  sort_by, IsLinear, sort_by-perm_eq, sort_by-perm, sort_by-IsSorted, IsSorted,
}
use ch_api_budgy.Agregation.{mediane}

pub leb_ℤ-IsLinear : IsLinear leb_ℤ
leb_ℤ-IsLinear = record {
  total = λ x y. ground arith;
  trans = λ x y z h k. ground arith;
  antisym = λ x y h k. ground arith;
}

pub length-perm {ℓ} : {A : Type ℓ} {xs ys : List A} → Permᴰ xs ys → length xs ≡ length ys
length-perm Permᴰ.nil = refl
length-perm (Permᴰ.cons e p) = ap suc (length-perm p)
length-perm (Permᴰ.swap e f) = refl
length-perm (Permᴰ.trans p q) = length-perm p ∙ length-perm q

-- The median does not depend on the order of the values.
pub mediane-perm : (xs ys : List ℤ) → Permᴰ xs ys → mediane xs ≡ mediane ys
unfolding mediane
mediane-perm xs ys p = rw (length-perm p, sort_by-perm_eq leb_ℤ leb_ℤ-IsLinear p)

-- The number of values that are at most, or at least, `m`.
abbrev pub count_le : ℤ → List ℤ → ℕ
count_le m [] = 0
count_le m (x ∷ xs) = (if leb_ℤ x m then 1 else 0) + count_le m xs

abbrev pub count_ge : ℤ → List ℤ → ℕ
count_ge m [] = 0
count_ge m (x ∷ xs) = (if leb_ℤ m x then 1 else 0) + count_ge m xs

count_le-perm : (m : ℤ) {xs ys : List ℤ} → Permᴰ xs ys → count_le m xs ≡ count_le m ys
count_le-perm m Permᴰ.nil = refl
count_le-perm m (Permᴰ.cons e p) = rw (e, count_le-perm m p)
count_le-perm m (Permᴰ.swap e f) = rw (e, f) (omega arith)
count_le-perm m (Permᴰ.trans p q) = count_le-perm m p ∙ count_le-perm m q

count_ge-perm : (m : ℤ) {xs ys : List ℤ} → Permᴰ xs ys → count_ge m xs ≡ count_ge m ys
count_ge-perm m Permᴰ.nil = refl
count_ge-perm m (Permᴰ.cons e p) = rw (e, count_ge-perm m p)
count_ge-perm m (Permᴰ.swap e f) = rw (e, f) (omega arith)
count_ge-perm m (Permᴰ.trans p q) = count_ge-perm m p ∙ count_ge-perm m q

-- In a sorted list, the value at index `i` has `i + 1` values at most it, and all but `i` at
-- least it.
count_ge_head : (x : ℤ) (xs : List ℤ) → All (λ y. leb_ℤ x y ≡ true) xs → count_ge x xs ≡ length xs
count_ge_head x [] h = refl
count_ge_head x (y ∷ ys) h = ground (arith, count_ge_head x ys h.1)

get_or_above :
    (x : ℤ) (xs : List ℤ) (i : ℕ) (d : ℤ)
    → All (λ y. leb_ℤ x y ≡ true) xs
    → i < length xs
    → leb_ℤ x (get_or xs i d) ≡ true
get_or_above x [] i d h lt = absurd (omega arith)
get_or_above x (y ∷ ys) zero d h lt = h.0
get_or_above x (y ∷ ys) (suc i) d h lt = get_or_above x ys i d h.1 (omega arith)

sorted_count_le :
    (xs : List ℤ) (i : ℕ) (d : ℤ)
    → IsSorted leb_ℤ xs
    → i < length xs
    → i + 1 ≤ count_le (get_or xs i d) xs
sorted_count_le [] i d h lt = absurd (omega arith)
sorted_count_le (x ∷ xs) zero d h lt = ground arith
sorted_count_le (x ∷ xs) (suc i) d h lt =
    ground (arith, get_or_above x xs i d h.0, sorted_count_le xs i d h.1)

sorted_count_ge :
    (xs : List ℤ) (i : ℕ) (d : ℤ)
    → IsSorted leb_ℤ xs
    → i < length xs
    → length xs ≤ count_ge (get_or xs i d) xs + i
sorted_count_ge [] i d h lt = absurd (omega arith)
sorted_count_ge (x ∷ xs) zero d h lt = ground (arith, count_ge_head x xs h.0)
sorted_count_ge (x ∷ xs) (suc i) d h lt = ground (arith, sorted_count_ge xs i d h.1)

mediane_impaire :
    (xs : List ℤ) (k : ℕ) → length xs ≡ 2 * k + 1 → mediane xs ≡ get_or (sort_by leb_ℤ xs) k (pos 0)
unfolding mediane
mediane_impaire xs k odd =
    let milieu : length xs / 2 ≡ k = omega arith in
    let non_vide : (length xs == 0) ≡ false = ground arith in
    let impaire : (length xs % 2 == 0) ≡ false = ground arith in rw (non_vide, impaire, milieu)

-- The median of an odd number of values: more than half of them are at most it, and more than
-- half at least it.
pub mediane_centrale :
    (xs : List ℤ) (k : ℕ)
    → length xs ≡ 2 * k + 1
    → (k < count_le (mediane xs) xs) × (k < count_ge (mediane xs) xs)
mediane_centrale xs k odd =
    let p = sort_by-perm leb_ℤ xs in
    let sorted = sort_by-IsSorted leb_ℤ leb_ℤ-IsLinear.total leb_ℤ-IsLinear.trans xs in
    let m = get_or (sort_by leb_ℤ xs) k (pos 0) in
    let inside : k < length (sort_by leb_ℤ xs) = omega (arith, length-perm p) in
    rw (mediane_impaire xs k odd) (
      omega (arith, count_le-perm m p, sorted_count_le _ k (pos 0) sorted inside),
      omega (arith, count_ge-perm m p, length-perm p, sorted_count_ge _ k (pos 0) sorted inside),
    )

-- A series of zeros has the median zero, whatever its length.
sort_by-replicate : (n : ℕ) (a : ℤ) → sort_by leb_ℤ (replicate n a) ≡ replicate n a
unfolding sort_by
sort_by-replicate zero a = refl
sort_by-replicate (suc zero) a = refl
sort_by-replicate (suc (suc n)) a = rw (sort_by-replicate (suc n) a) (ground arith)

get_or-replicate : (n i : ℕ) (a : ℤ) → get_or (replicate n a) i a ≡ a
get_or-replicate zero i a = refl
get_or-replicate (suc n) zero a = refl
get_or-replicate (suc n) (suc i) a = get_or-replicate n i a

pub mediane-replicate : (n : ℕ) → mediane (replicate n (pos 0)) ≡ pos 0
unfolding mediane wrap ◌+ℤ◌ ◌-ℤ◌
mediane-replicate n = simp (sort_by-replicate n (pos 0), get_or-replicate) (ground arith)
