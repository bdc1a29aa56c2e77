-- ===== src/Cycle/Bornes.antt =====
-- The dates that the functions of src/domain/cycle.rs compute, and that none of its `expect`s fails.
use ch_api_budgy.Prelude.{
  ℕ, ◌+◌, ◌≤◌, ◌≡◌, ◌≢◌, min, ◌∙◌, Option, some, false, inl, inr, ◌==◌, arith, Bool-cases,
}
use ch_api_budgy.Prelude.Int.{ℤ, pos, negsuc, ◌+ℤ◌, ◌≤ℤ◌, int_laws, +ℤ_parts, parts_of_eq}
use ch_api_budgy.Calendrier.{Calendar, IsMonth, InYears}
use ch_api_budgy.Cycle.{
  CycleMensuel, mois_suivant, premier_jour, premier_jour_mois_suivant, dernier_jour,
  jour_dans_le_mois, fin_exclue,
}

-- Years with two more on each side.
abbrev pub IsInner : ℤ → Type 0
IsInner y = (negsuc 262140 ≤ℤ y) × (y ≤ℤ pos 262140)

pub record IsCycle (c : CycleMensuel) : Type 0 where
  pub annee_in : IsInner c.mois.annee
  pub mois_in : IsMonth c.mois.mois
  pub jour_in : (1 ≤ c.jour_debut.valeur) × (c.jour_debut.valeur ≤ 31)

InYears-before : (y z : ℤ) → IsInner y → z ≡ y +ℤ pos 1 → InYears (z +ℤ negsuc 0)
InYears-before y z h e = rw e (omega int_laws)

InYears-pred : (y z : ℤ) → IsInner y → z ≡ y → InYears (z +ℤ negsuc 0)
InYears-pred y z h e = rw e (omega int_laws)

add_one_cancel : (y z t : ℤ) → z +ℤ pos 1 ≡ t → t ≡ y +ℤ pos 1 → z ≡ y
add_one_cancel y z t e f = omega (int_laws, parts_of_eq (e ∙ f))

module _ (calendar : Calendar) where
  open calendar use {
    Date, year, month, day, from_ymd_opt, pred_opt, days, days_range, from_ymd, pred_in_month,
    pred_of_first, pred_of_year,
  }

  -- `o` is the date of year `y`, month `m` and day `d`.
  pub record IsDate (o : Option Date) (y : ℤ) (m d : ℕ) : Type 0 where
    pub date : Date
    pub returns : o ≡ some date
    pub year_is : year date ≡ y
    pub month_is : month date ≡ m
    pub day_is : day date ≡ d

  pub from_ymd-IsDate :
      (y : ℤ) (m d : ℕ)
      → InYears y
      → IsMonth m
      → 1 ≤ d
      → d ≤ days y m
      → IsDate (from_ymd_opt y m d) y m d
  from_ymd-IsDate y m d hy hm lo hi =
      let (t, e, ey, em, ed) = from_ymd y m d hy hm lo hi in
      record { date = t; returns = e; year_is = ey; month_is = em; day_is = ed }

  -- The first of the month after `m` of year `y`, and the day before it.
  pub suivant-IsDate :
      (y : ℤ) (m : ℕ)
      → IsInner y
      → IsMonth m
      → IsDate
          (from_ymd_opt (mois_suivant y m).0 (mois_suivant y m).1 1)
          (mois_suivant y m).0
          (mois_suivant y m).1
          1
  unfolding mois_suivant
  suivant-IsDate y m hy hm =
      from_ymd-IsDate _ _ 1 (ground (arith, +ℤ_parts y (pos 1))) (ground arith) (omega arith)
        (omega (arith, days_range (mois_suivant y m).0 (mois_suivant y m).1))

  veille_de_l_an :
      (y : ℤ) (t : Date)
      → IsInner y
      → year t ≡ y +ℤ pos 1
      → month t ≡ 1
      → day t ≡ 1
      → IsDate (pred_opt t) y 12 (days y 12)
  veille_de_l_an y t hy ey em ed =
      let (u, eu, eyu, emu, edu) = pred_of_year t (InYears-before y (year t) hy ey) ed em in
      let same = add_one_cancel y (year u) (year t) eyu ey in
      record { date = u; returns = eu; year_is = same; month_is = emu; day_is = rw same at edu }

  veille_du_mois :
      (y : ℤ) (m : ℕ) (t : Date)
      → IsInner y
      → IsMonth m
      → year t ≡ y
      → month t ≡ m + 1
      → day t ≡ 1
      → IsDate (pred_opt t) y m (days y m)
  veille_du_mois y m t hy hm ey em ed =
      let (u, eu, eyu, emu, edu) =
        pred_of_first t (InYears-pred y (year t) hy ey) ed (omega arith) in
      let same : year u ≡ y = eyu ∙ ey in
      let same_month : month u ≡ m = omega arith in
      record {
        date = u;
        returns = eu;
        year_is = same;
        month_is = same_month;
        day_is = rw (same, same_month) at edu;
      }

  pub veille-IsDate :
      (y : ℤ) (m : ℕ) (t : Date)
      → IsInner y
      → IsMonth m
      → year t ≡ (mois_suivant y m).0
      → month t ≡ (mois_suivant y m).1
      → day t ≡ 1
      → IsDate (pred_opt t) y m (days y m)
  unfolding mois_suivant
  veille-IsDate y m t hy hm ey em ed = elim (Bool-cases (m == 12)) [
    | inl e ↦
        let is12 : m ≡ 12 = ground arith in
        rw is12 (veille_de_l_an y t hy (ground arith) (ground arith) ed)
    | inr e ↦ veille_du_mois y m t hy hm (ground arith) (ground arith) ed
  ]

  pub dernier_jour_lem :
      (y : ℤ) (m : ℕ) → IsInner y → IsMonth m → dernier_jour calendar y m ≡ some (days y m)
  unfolding dernier_jour
  dernier_jour_lem y m hy hm =
      let p = suivant-IsDate y m hy hm in
      let v = veille-IsDate y m p.date hy hm p.year_is p.month_is p.day_is in
      rw (p.returns, v.returns, v.day_is)

  pub jour_dans_le_mois_lem :
      (y : ℤ) (m j : ℕ)
      → IsInner y
      → IsMonth m
      → 1 ≤ j
      → IsDate (jour_dans_le_mois calendar y m j) y m (min j (days y m))
  unfolding jour_dans_le_mois
  jour_dans_le_mois_lem y m j hy hm hj =
      rw (dernier_jour_lem y m hy hm)
        (from_ymd-IsDate y m _ (omega arith) hm (omega (arith, days_range y m)) (omega arith))

  -- The day after a cycle, by its two rules: the first of the next month, or the chosen day of the
  -- month that names it.
  pub fin_exclue_premier :
      (c : CycleMensuel)
      → IsCycle c
      → c.jour_debut.valeur ≡ 1
      → let s = mois_suivant c.mois.annee c.mois.mois in IsDate (fin_exclue calendar c) s.0 s.1 1
  unfolding fin_exclue premier_jour premier_jour_mois_suivant
  fin_exclue_premier c h e =
      let p =
        from_ymd-IsDate c.mois.annee c.mois.mois 1 (omega arith) h.mois_in (omega arith)
          (omega (arith, days_range c.mois.annee c.mois.mois)) in
      rw (p.returns, e) (suivant-IsDate c.mois.annee c.mois.mois h.annee_in h.mois_in)

  pub fin_exclue_autre :
      (c : CycleMensuel)
      → IsCycle c
      → c.jour_debut.valeur ≢ 1
      → IsDate
          (fin_exclue calendar c)
          c.mois.annee
          c.mois.mois
          (min c.jour_debut.valeur (days c.mois.annee c.mois.mois))
  unfolding fin_exclue premier_jour
  fin_exclue_autre c h ne =
      let p =
        from_ymd-IsDate c.mois.annee c.mois.mois 1 (omega arith) h.mois_in (omega arith)
          (omega (arith, days_range c.mois.annee c.mois.mois)) in
      let other : (c.jour_debut.valeur == 1) ≡ false = ground arith in
      rw (p.returns, other, p.year_is, p.month_is)
        (jour_dans_le_mois_lem c.mois.annee c.mois.mois c.jour_debut.valeur h.annee_in h.mois_in
          h.jour_in.0)
