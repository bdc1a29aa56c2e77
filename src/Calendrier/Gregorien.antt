-- ===== src/Calendrier/Gregorien.antt =====
-- The proleptic Gregorian calendar as an instance of the interface, with which the model runs.
use ch_api_budgy.Prelude.{
  ℕ, zero, suc, ◌+◌, ◌-◌, ◌*◌, ◌/◌, ◌%◌, ◌≤◌, ◌<◌, ◌≡◌, refl, Bool, not, ◌&&◌, ◌||◌, Option, some,
  none, ltb, leb, ◌==◌, if◌then◌else◌, arith,
}
use native.Mathlib.Numerals.{add-one}
use ch_api_budgy.Prelude.Int.{ℤ, pos, negsuc, pos_part, ◌+ℤ◌, int_laws}
use ch_api_budgy.Calendrier.{Calendar, InYears, IsMonth}

pub record Ymd : Type 0 where
  pub annee : ℤ
  pub mois : ℕ
  pub jour : ℕ

abbrev pub ymd : ℤ → ℕ → ℕ → Ymd
ymd y m d = record { annee = y; mois = m; jour = d }

-- The year counted from a leap century far in the past, which makes it a natural number.
unfoldable pub shifted : ℤ → ℕ
shifted y = pos_part (y +ℤ pos 400000)

abbrev is_leap : ℕ → Bool
is_leap n = (n % 4 == 0) && (not (n % 100 == 0) || (n % 400 == 0))

unfoldable pub days : ℤ → ℕ → ℕ
unfolding shifted
days y m =
    if m == 2
    then (if is_leap (shifted y) then 29 else 28)
    else if (m == 4) || (m == 6) || (m == 9) || (m == 11)
    then 30
    else 31

unfoldable pub from_ymd_opt : ℤ → ℕ → ℕ → Option Ymd
unfolding days
from_ymd_opt y m d =
    if leb 1 m && leb m 12 && leb 1 d && leb d (days y m) then some (ymd y m d) else none

unfoldable pub pred_opt : Ymd → Option Ymd
unfolding days
pred_opt t =
    if ltb 1 t.jour
    then some (ymd t.annee t.mois (t.jour - 1))
    else if ltb 1 t.mois
    then some (ymd t.annee (t.mois - 1) (days t.annee (t.mois - 1)))
    else some (ymd (t.annee +ℤ negsuc 0) 12 31)

abbrev days_before_year : ℕ → ℕ
days_before_year n = n * 365 + (n + 3) / 4 - (n + 99) / 100 + (n + 399) / 400

abbrev days_before_month : ℤ → ℕ → ℕ
days_before_month y zero = 0
days_before_month y (suc zero) = 0
days_before_month y (suc (suc m)) = days_before_month y (suc m) + days y (suc m)

unfoldable pub before : ℤ → ℕ → ℤ
unfolding shifted days
before y m = pos (days_before_year (shifted y) + days_before_month y m)

pub days_range : (y : ℤ) (m : ℕ) → (28 ≤ days y m) × (days y m ≤ 31)
unfolding days
days_range y m = ground arith

pub from_ymd :
    (y : ℤ) (m d : ℕ)
    → InYears y
    → IsMonth m
    → 1 ≤ d
    → d ≤ days y m
    → (t : Ymd) × (from_ymd_opt y m d ≡ some t) × (t.annee ≡ y) × (t.mois ≡ m) × (t.jour ≡ d)
unfolding from_ymd_opt
from_ymd y m d hy hm lo hi = (ymd y m d, ground arith, refl, refl, refl)

pub next_month :
    (y : ℤ) (m : ℕ)
    → InYears y
    → IsMonth m
    → m < 12
    → before y (m + 1) ≡ before y m +ℤ pos (days y m)
unfolding before ◌+ℤ◌
next_month y zero hy hm lt = absurd (omega arith)
next_month y (suc m) hy hm lt = rw add-one (ground arith)

shifted-suc : (y : ℤ) → InYears y → shifted (y +ℤ pos 1) ≡ shifted y + 1
unfolding shifted ◌+ℤ◌
shifted-suc y hy = ground arith

days_before_year-suc :
    (n : ℕ) → days_before_year (n + 1) ≡ days_before_year n + (if is_leap n then 366 else 365)
days_before_year-suc n = ground arith

pub next_year : (y : ℤ) → InYears y → before (y +ℤ pos 1) 1 ≡ before y 12 +ℤ pos (days y 12)
unfolding before ◌+ℤ◌
next_year y hy = ground (arith, shifted-suc y hy, days_before_year-suc (shifted y))

pub pred_in_month :
    (t : Ymd)
    → 1 < t.jour
    → (u : Ymd) × (pred_opt t ≡ some u)
      × (u.annee ≡ t.annee)
      × (u.mois ≡ t.mois)
      × (u.jour + 1 ≡ t.jour)
unfolding pred_opt
pred_in_month t h = (ymd t.annee t.mois (t.jour - 1), ground arith, refl, refl, omega arith)

pub pred_of_first :
    (t : Ymd)
    → InYears (t.annee +ℤ negsuc 0)
    → t.jour ≡ 1
    → 1 < t.mois
    → (u : Ymd) × (pred_opt t ≡ some u)
      × (u.annee ≡ t.annee)
      × (u.mois + 1 ≡ t.mois)
      × (u.jour ≡ days u.annee u.mois)
unfolding pred_opt
pred_of_first t hy hd hm =
    (ymd t.annee (t.mois - 1) (days t.annee (t.mois - 1)), ground arith, refl, omega arith, refl)

pub pred_of_year :
    (t : Ymd)
    → InYears (t.annee +ℤ negsuc 0)
    → t.jour ≡ 1
    → t.mois ≡ 1
    → (u : Ymd) × (pred_opt t ≡ some u)
      × (u.annee +ℤ pos 1 ≡ t.annee)
      × (u.mois ≡ 12)
      × (u.jour ≡ days u.annee 12)
unfolding pred_opt
pred_of_year t hy hd hm =
    (ymd (t.annee +ℤ negsuc 0) 12 31, ground arith, omega int_laws, refl, refl)

abbrev pub gregorien : Calendar
gregorien = record {
  Date = Ymd;
  year = λ t. t.annee;
  month = λ t. t.mois;
  day = λ t. t.jour;
  from_ymd_opt = from_ymd_opt;
  pred_opt = pred_opt;
  days = days;
  before = before;
  days_range = days_range;
  ymd_inj = λ t u ey em ed i. record { annee = ey i; mois = em i; jour = ed i };
  from_ymd = from_ymd;
  pred_in_month = pred_in_month;
  pred_of_first = pred_of_first;
  pred_of_year = pred_of_year;
  next_month = next_month;
  next_year = next_year;
}
