-- ===== src/Prelude/Map.antt =====
-- A `HashMap` keyed by numbers, as its entries in an order that the program does not choose.
use mathlib.Core.Path.{◌≡◌, refl}
use mathlib.Core.List.{List, [], ◌∷◌}
use mathlib.Core.Option.{Option, none, some}
use Prim.Native.Nat.{ℕ}
use native.Mathlib.Omega.{arith}
use ch_api_budgy.Prelude.Tests.{◌==◌, if◌then◌else◌, unwrap_or, Bool-cases}
use ch_api_budgy.Prelude.Lists.{All, All-imp}
use mathlib.Core.Logic.{inl, inr}

abbrev pub Map {ℓ} : Type ℓ → Type ℓ
Map V = List (ℕ × V)

module _ {ℓ} {V : Type ℓ} where
  abbrev pub get : ℕ → Map V → Option V
  get k [] = none
  get k ((j, v) ∷ m) = if j == k then some v else get k m

  abbrev pub insert : ℕ → V → Map V → Map V
  insert k v [] = (k, v) ∷ []
  insert k v ((j, w) ∷ m) = if j == k then (k, v) ∷ m else (j, w) ∷ insert k v m

  -- `*entry(k).or_insert(d) = f(…)`
  abbrev pub update : ℕ → V → (V → V) → Map V → Map V
  update k d f m = insert k (f (unwrap_or (get k m) d)) m

  -- `collect()` of pairs: a later pair replaces an earlier one of the same key.
  abbrev pub collect_from : Map V → List (ℕ × V) → Map V
  collect_from m [] = m
  collect_from m ((k, v) ∷ r) = collect_from (insert k v m) r

  abbrev pub collect : List (ℕ × V) → Map V
  collect = collect_from []

  -- Each key stands once.
  abbrev pub IsMap : Map V → Type ℓ
  IsMap [] = Unit
  IsMap ((k, v) ∷ m) = (get k m ≡ none) × IsMap m

  pub get-insert :
      (k j : ℕ) (v : V) (m : Map V) → get j (insert k v m) ≡ (if k == j then some v else get j m)
  get-insert k j v [] = refl
  get-insert k j v ((i, w) ∷ m) = ground (arith, get-insert k j v m)

  pub insert-IsMap : (k : ℕ) (v : V) (m : Map V) → IsMap m → IsMap (insert k v m)
  insert-IsMap k v [] h = (refl, tt)
  insert-IsMap k v ((j, w) ∷ m) h = ground (arith, insert-IsMap k v m h.1, get-insert k j v m)

  pub collect_from-IsMap : (m : Map V) (r : List (ℕ × V)) → IsMap m → IsMap (collect_from m r)
  collect_from-IsMap m [] h = h
  collect_from-IsMap m ((k, v) ∷ r) h = collect_from-IsMap (insert k v m) r (insert-IsMap k v m h)

  -- What holds of the values that go in holds of those that come out.
  pub All-insert {κ} :
      (P : V → Type κ) (k : ℕ) (v : V) (m : Map V)
      → P v
      → All (λ e. P e.1) m
      → All (λ e. P e.1) (insert k v m)
  All-insert P k v [] h hs = (h, tt)
  All-insert P k v ((j, w) ∷ m) h hs = elim (Bool-cases (j == k)) [
    | inl e ↦ rw e (h, hs.1)
    | inr e ↦ rw e (hs.0, All-insert P k v m h hs.1)
  ]

  pub All-collect_from {κ} :
      (P : V → Type κ) (m : Map V) (r : List (ℕ × V))
      → All (λ e. P e.1) m
      → All (λ e. P e.1) r
      → All (λ e. P e.1) (collect_from m r)
  All-collect_from P m [] h hs = h
  All-collect_from P m ((k, v) ∷ r) h hs =
      All-collect_from P (insert k v m) r (All-insert P k v m hs.0 h) hs.1

  pub All-get {κ} :
      (P : V → Type κ) (k : ℕ) (d : V) (m : Map V)
      → P d
      → All (λ e. P e.1) m
      → P (unwrap_or (get k m) d)
  All-get P k d [] h hs = h
  All-get P k d ((j, w) ∷ m) h hs = elim (Bool-cases (j == k)) [
    | inl e ↦ rw e hs.0
    | inr e ↦ rw e (All-get P k d m h hs.1)
  ]

  -- In a map each entry is what its key finds.
  pub get-entry : (m : Map V) → IsMap m → All (λ e. get e.0 m ≡ some e.1) m
  get-entry [] h = tt
  get-entry ((j, w) ∷ m) h = (
    ground arith,
    All-imp (λ e. get e.0 m ≡ some e.1) (λ e. get e.0 ((j, w) ∷ m) ≡ some e.1) m (λ e f. later e f)
        (get-entry m h.1),
  )
    where
      later : (e : ℕ × V) → get e.0 m ≡ some e.1 → get e.0 ((j, w) ∷ m) ≡ some e.1
      later (k, v) f = ground arith
