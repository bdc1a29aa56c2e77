-- ===== src/Cycle/Pavage.antt =====
-- Consecutive cycles of src/domain/cycle.rs tile the calendar, and each bears the name of its last
-- day's month.
use ch_api_budgy.Prelude.{
  ℕ, ◌+◌, ◌≤◌, ◌<◌, ◌≡◌, ◌≢◌, min, sym, ap, ◌∙◌, Option, some, inl, inr, ◌==◌, arith, Bool-cases,
}
use ch_api_budgy.Prelude.Int.{ℤ, pos, negsuc, ◌+ℤ◌, ◌≤ℤ◌, int_laws, +ℤ_parts}
use ch_api_budgy.Calendrier.{Calendar, IsMonth}
use ch_api_budgy.Cycle.{
  Mois, CycleMensuel, mois_suivant, mois_precedent, precedent, cycle_precedent, jour_dans_le_mois,
  fin_exclue, debut,
}
use ch_api_budgy.Cycle.Bornes.{
  IsInner, IsCycle, IsDate, veille-IsDate, jour_dans_le_mois_lem, fin_exclue_premier,
  fin_exclue_autre,
}

-- Stepping a month on and back again.
mois_precedent-mois_suivant :
    (y : ℤ) (m : ℕ) → IsMonth m → mois_precedent (mois_suivant y m).0 (mois_suivant y m).1 ≡ (y, m)
unfolding mois_precedent mois_suivant ◌+ℤ◌
mois_precedent-mois_suivant y m h = ground arith

mois_suivant-mois_precedent :
    (y : ℤ) (m : ℕ)
    → IsMonth m
    → mois_suivant (mois_precedent y m).0 (mois_precedent y m).1 ≡ (y, m)
unfolding mois_precedent mois_suivant ◌+ℤ◌
mois_suivant-mois_precedent y m h = ground arith

-- Years from -9999 to 9999, which a parsed month and the months before it have.
abbrev pub IsUsual : CycleMensuel → Type 0
IsUsual c =
    (negsuc 9998 ≤ℤ c.mois.annee)
    × (c.mois.annee ≤ℤ pos 9999)
    × IsMonth c.mois.mois
    × (1 ≤ c.jour_debut.valeur)
    × (c.jour_debut.valeur ≤ 31)

IsUsual-IsCycle : (c : CycleMensuel) → IsUsual c → IsCycle c
IsUsual-IsCycle c h = omega arith

cycle_precedent-IsCycle : (c : CycleMensuel) → IsUsual c → IsCycle (cycle_precedent c)
unfolding cycle_precedent precedent
cycle_precedent-IsCycle c h = ground (arith, +ℤ_parts c.mois.annee (negsuc 0))

precedent-IsInner :
    (c : CycleMensuel)
    → IsUsual c
    → let p = mois_precedent c.mois.annee c.mois.mois in IsInner p.0 × IsMonth p.1
unfolding mois_precedent
precedent-IsInner c h = ground (arith, +ℤ_parts c.mois.annee (negsuc 0))

precedent-mois_precedent :
    (m : Mois) → mois_precedent m.annee m.mois ≡ ((precedent m).annee, (precedent m).mois)
unfolding precedent mois_precedent
precedent-mois_precedent m = ground arith

mois_suivant-precedent :
    (m : Mois)
    → IsMonth m.mois
    → mois_suivant (precedent m).annee (precedent m).mois ≡ (m.annee, m.mois)
unfolding mois_suivant precedent ◌+ℤ◌
mois_suivant-precedent m h = ground arith

module _ (calendar : Calendar) where
  open calendar use {
    Date, year, month, day, pred_opt, days, days_range, ymd_inj, pred_in_month, before, next_month,
    next_year,
  }

  abbrev AuMois : CycleMensuel → Option Date → ℕ → Type 0
  AuMois c o j = IsDate calendar o c.mois.annee c.mois.mois j

  un_du_mois :
      (c : CycleMensuel)
      → IsUsual c
      → AuMois c (jour_dans_le_mois calendar c.mois.annee c.mois.mois 1) 1
  un_du_mois c h =
      let least : min 1 (days c.mois.annee c.mois.mois) ≡ 1 =
        omega (arith, days_range c.mois.annee c.mois.mois) in
      rw least at
        (jour_dans_le_mois_lem calendar _ _ 1 (IsUsual-IsCycle c h).annee_in h.2 (omega arith))

  -- The first day of a cycle.
  debut_premier :
      (c : CycleMensuel)
      → IsUsual c
      → c.jour_debut.valeur ≡ 1
      → IsDate calendar (debut calendar c) c.mois.annee c.mois.mois 1
  unfolding debut
  debut_premier c h e =
      let f = fin_exclue_premier calendar c (IsUsual-IsCycle c h) e in
      let back = mois_precedent-mois_suivant c.mois.annee c.mois.mois h.2 in
      rw (f.returns, f.year_is, f.month_is, back, e) (un_du_mois c h)

  debut_autre :
      (c : CycleMensuel)
      → IsUsual c
      → c.jour_debut.valeur ≢ 1
      → let p = mois_precedent c.mois.annee c.mois.mois in
        IsDate calendar (debut calendar c) p.0 p.1 (min c.jour_debut.valeur (days p.0 p.1))
  unfolding debut
  debut_autre c h ne =
      let f = fin_exclue_autre calendar c (IsUsual-IsCycle c h) ne in
      let (hy, hm) = precedent-IsInner c h in
      rw (f.returns, f.year_is, f.month_is)
        (jour_dans_le_mois_lem calendar _ _ c.jour_debut.valeur hy hm h.3)

  IsDate-unique :
      (o p : Option Date) (y : ℤ) (m d : ℕ)
      → IsDate calendar o y m d
      → IsDate calendar p y m d
      → (t : Date) × (o ≡ some t) × (p ≡ some t)
  IsDate-unique o p y m d a b =
      let same =
        ymd_inj b.date a.date (b.year_is ∙ sym a.year_is) (b.month_is ∙ sym a.month_is)
          (b.day_is ∙ sym a.day_is) in
      (a.date, a.returns, b.returns ∙ ap some same)

  -- The end of the previous cycle.
  fin_precedente_premier :
      (c : CycleMensuel)
      → IsUsual c
      → c.jour_debut.valeur ≡ 1
      → AuMois c (fin_exclue calendar (cycle_precedent c)) 1
  unfolding cycle_precedent
  fin_precedente_premier c h e =
      rw (mois_suivant-precedent c.mois h.2) at
        (fin_exclue_premier calendar (cycle_precedent c) (cycle_precedent-IsCycle c h) e)

  fin_precedente_autre :
      (c : CycleMensuel)
      → IsUsual c
      → c.jour_debut.valeur ≢ 1
      → let p = mois_precedent c.mois.annee c.mois.mois in
        IsDate calendar
          (fin_exclue calendar (cycle_precedent c))
          p.0
          p.1
          (min c.jour_debut.valeur (days p.0 p.1))
  unfolding cycle_precedent
  fin_precedente_autre c h ne =
      rw (precedent-mois_precedent c.mois)
        (fin_exclue_autre calendar (cycle_precedent c) (cycle_precedent-IsCycle c h) ne)

  -- The previous cycle ends where this one begins, with no gap and no overlap, whatever the
  -- starting day from 1 to 31, for the months of the years -9999 to 9999; neither computation
  -- panics.
  pub fin_exclue-cycle_precedent :
      (c : CycleMensuel)
      → IsUsual c
      → (t : Date) × (fin_exclue calendar (cycle_precedent c) ≡ some t)
        × (debut calendar c ≡ some t)
  fin_exclue-cycle_precedent c h = elim (Bool-cases (c.jour_debut.valeur == 1)) [
    | inl e ↦
        let one : c.jour_debut.valeur ≡ 1 = ground arith in
        IsDate-unique _ _ _ _ _ (fin_precedente_premier c h one) (debut_premier c h one)
    | inr e ↦
        let more : c.jour_debut.valeur ≢ 1 = ground arith in
        IsDate-unique _ _ _ _ _ (fin_precedente_autre c h more) (debut_autre c h more)
  ]

  veille_du_jour :
      (y : ℤ) (m d : ℕ) (o : Option Date)
      → 1 < d
      → IsDate calendar o y m d
      → (t u : Date) × (o ≡ some t) × (pred_opt t ≡ some u) × (year u ≡ y) × (month u ≡ m)
  veille_du_jour y m d o hd f =
      let (u, eu, ey, em, ed) = pred_in_month f.date (rw f.day_is hd) in
      (f.date, u, f.returns, eu, ey ∙ f.year_is, em ∙ f.month_is)

  veille_du_premier :
      (y : ℤ) (m : ℕ) (o : Option Date)
      → IsInner y
      → IsMonth m
      → IsDate calendar o (mois_suivant y m).0 (mois_suivant y m).1 1
      → (t u : Date) × (o ≡ some t) × (pred_opt t ≡ some u) × (year u ≡ y) × (month u ≡ m)
  veille_du_premier y m o hy hm f =
      let v = veille-IsDate calendar y m f.date hy hm f.year_is f.month_is f.day_is in
      (f.date, v.date, f.returns, v.returns, v.year_is, v.month_is)

  -- A cycle bears the year and the month of its last day, whatever the starting day from 1
  -- to 31, in the years -9999 to 9999.
  pub cycle_porte_le_mois_de_son_dernier_jour :
      (c : CycleMensuel)
      → IsUsual c
      → (t u : Date) × (fin_exclue calendar c ≡ some t)
        × (pred_opt t ≡ some u)
        × (year u ≡ c.mois.annee)
        × (month u ≡ c.mois.mois)
  cycle_porte_le_mois_de_son_dernier_jour c h = elim (Bool-cases (c.jour_debut.valeur == 1)) [
    | inl e ↦
        veille_du_premier _ _ _ (IsUsual-IsCycle c h).annee_in h.2
          (fin_exclue_premier calendar c (IsUsual-IsCycle c h) (ground arith))
    | inr e ↦
        veille_du_jour _ _ _ _ (ground (arith, days_range c.mois.annee c.mois.mois))
          (fin_exclue_autre calendar c (IsUsual-IsCycle c h) (ground arith))
  ]

  -- The day number of a date.
  abbrev pub numero : Date → ℤ
  numero t = before (year t) (month t) +ℤ pos (day t)

  before-mois_suivant :
      (y : ℤ) (m : ℕ)
      → IsInner y
      → IsMonth m
      → let s = mois_suivant y m in before s.0 s.1 ≡ before y m +ℤ pos (days y m)
  unfolding mois_suivant
  before-mois_suivant y m hy hm = elim (Bool-cases (m == 12)) [
    | inl e ↦ let is12 : m ≡ 12 = ground arith in rw is12 (next_year y (omega arith))
    | inr e ↦ rw e (next_month y m (omega arith) hm (ground arith))
  ]

  -- `o` and `p` are dates from 28 to 31 days apart.
  abbrev pub SepareDunMois : Option Date → Option Date → Type 0
  SepareDunMois o p =
      (t u : Date) × (o ≡ some t)
      × (p ≡ some u)
      × (numero t +ℤ pos 28 ≤ℤ numero u)
      × (numero u ≤ℤ numero t +ℤ pos 31)

  separe :
      (y z : ℤ) (m k a b n : ℕ) (o p : Option Date)
      → before z k ≡ before y m +ℤ pos n
      → a + 28 ≤ n + b
      → n + b ≤ a + 31
      → IsDate calendar o y m a
      → IsDate calendar p z k b
      → SepareDunMois o p
  separe y z m k a b n o p step lo hi d f =
      let at_d : numero d.date ≡ before y m +ℤ pos a = rw (d.year_is, d.month_is, d.day_is) in
      let at_f : numero f.date ≡ before y m +ℤ pos n +ℤ pos b =
        rw (f.year_is, f.month_is, f.day_is, step) in
      (
        d.date,
        f.date,
        d.returns,
        f.returns,
        rw (at_d, at_f) (omega int_laws),
        rw (at_d, at_f) (omega int_laws),
      )

  -- A cycle counts 28 to 31 days, a starting day past the end of a short month included, in the
  -- years -9999 to 9999.
  pub cycle_duree :
      (c : CycleMensuel) → IsUsual c → SepareDunMois (debut calendar c) (fin_exclue calendar c)
  cycle_duree c h = elim (Bool-cases (c.jour_debut.valeur == 1)) [
    | inl e ↦
        let inner = (IsUsual-IsCycle c h).annee_in in
        let range = days_range c.mois.annee c.mois.mois in
        separe _ _ _ _ 1 1 _ _ _ (before-mois_suivant c.mois.annee c.mois.mois inner h.2)
          (omega (arith, range)) (omega (arith, range)) (debut_premier c h (ground arith))
          (fin_exclue_premier calendar c (IsUsual-IsCycle c h) (ground arith))
    | inr e ↦
        let p = mois_precedent c.mois.annee c.mois.mois in
        let (hy, hm) = precedent-IsInner c h in
        let step =
          rw (mois_suivant-mois_precedent c.mois.annee c.mois.mois h.2) at
            (before-mois_suivant p.0 p.1 hy hm) in
        let here = days_range c.mois.annee c.mois.mois in
        let there = days_range p.0 p.1 in
        separe _ _ _ _ _ _ _ _ _ step (omega (arith, here, there)) (omega (arith, here, there))
          (debut_autre c h (ground arith))
          (fin_exclue_autre calendar c (IsUsual-IsCycle c h) (ground arith))
  ]
