-- ===== src/Calendrier.antt =====
-- chrono's `NaiveDate`, a library of the program: the calls that the code makes, and the
-- documented facts about years, months and days that it relies on.
pub mod Gregorien
use ch_api_budgy.Prelude.{ℕ, ◌+◌, ◌≤◌, ◌<◌, ◌≡◌, Option, some}
use ch_api_budgy.Prelude.Int.{ℤ, pos, negsuc, ◌+ℤ◌, ◌≤ℤ◌}

-- The years that chrono represents.
abbrev pub InYears : ℤ → Type 0
InYears y = (negsuc 262142 ≤ℤ y) × (y ≤ℤ pos 262142)

abbrev pub IsMonth : ℕ → Type 0
IsMonth m = (1 ≤ m) × (m ≤ 12)

pub record Calendar : Type 1 where
  pub Date : Type 0
  pub year : Date → ℤ
  pub month : Date → ℕ
  pub day : Date → ℕ
  pub from_ymd_opt : ℤ → ℕ → ℕ → Option Date
  pub pred_opt : Date → Option Date
  -- The length of a month, and the day number (`num_days_from_ce`) of the day before it.
  pub days : ℤ → ℕ → ℕ
  pub before : ℤ → ℕ → ℤ
  pub days_range : (y : ℤ) (m : ℕ) → (28 ≤ days y m) × (days y m ≤ 31)
  pub ymd_inj : (t u : Date) → year t ≡ year u → month t ≡ month u → day t ≡ day u → t ≡ u
  pub from_ymd :
      (y : ℤ) (m d : ℕ)
      → InYears y
      → IsMonth m
      → 1 ≤ d
      → d ≤ days y m
      → (t : Date) × (from_ymd_opt y m d ≡ some t) × (year t ≡ y) × (month t ≡ m) × (day t ≡ d)
  pub pred_in_month :
      (t : Date)
      → 1 < day t
      → (u : Date) × (pred_opt t ≡ some u)
        × (year u ≡ year t)
        × (month u ≡ month t)
        × (day u + 1 ≡ day t)
  pub pred_of_first :
      (t : Date)
      → InYears (year t +ℤ negsuc 0)
      → day t ≡ 1
      → 1 < month t
      → (u : Date) × (pred_opt t ≡ some u)
        × (year u ≡ year t)
        × (month u + 1 ≡ month t)
        × (day u ≡ days (year u) (month u))
  pub pred_of_year :
      (t : Date)
      → InYears (year t +ℤ negsuc 0)
      → day t ≡ 1
      → month t ≡ 1
      → (u : Date) × (pred_opt t ≡ some u)
        × (year u +ℤ pos 1 ≡ year t)
        × (month u ≡ 12)
        × (day u ≡ days (year u) 12)
  pub next_month :
      (y : ℤ) (m : ℕ)
      → InYears y
      → IsMonth m
      → m < 12
      → before y (m + 1) ≡ before y m +ℤ pos (days y m)
  pub next_year : (y : ℤ) → InYears y → before (y +ℤ pos 1) 1 ≡ before y 12 +ℤ pos (days y 12)
