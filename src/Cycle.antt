-- ===== src/Cycle.antt =====
-- The budget months: `Mois` of src/domain/depense.rs and src/domain/cycle.rs. An `expect` that
-- fails is `none`. Years are integers: they stay far from the bounds of `i32`.
pub mod Bornes
pub mod Pavage
pub mod Saisie
use ch_api_budgy.Prelude.{
  ℕ, ◌+◌, ◌-◌, min, Bool, ◌&&◌, Option, some, ok, err, Result, leb, ◌==◌, if◌then◌else◌,
}
use ch_api_budgy.Prelude.Int.{ℤ, pos, negsuc, ◌+ℤ◌}
use ch_api_budgy.Prelude.Options.{◌>>=◌}
use ch_api_budgy.Calendrier.{Calendar}

pub record Mois : Type 0 where
  pub annee : ℤ
  pub mois : ℕ

pub data JourDebutInvalide : Type 0 where
  jour_debut_invalide : JourDebutInvalide

-- `JourDebutMois(u32)`
pub record JourDebutMois : Type 0 where
  pub valeur : ℕ

abbrev pub premier : JourDebutMois
premier = record { valeur = 1 }

pub nouveau : ℕ → Result JourDebutInvalide JourDebutMois
nouveau jour =
    if leb 1 jour && leb jour 31 then ok (record { valeur = jour }) else err jour_debut_invalide

pub record CycleMensuel : Type 0 where
  pub mois : Mois
  pub jour_debut : JourDebutMois

-- The pair of a year and a month, one month on and one month back.
pub mois_suivant : ℤ → ℕ → ℤ × ℕ
mois_suivant annee mois = if mois == 12 then (annee +ℤ pos 1, 1) else (annee, mois + 1)

pub mois_precedent : ℤ → ℕ → ℤ × ℕ
mois_precedent annee mois = if mois == 1 then (annee +ℤ negsuc 0, 12) else (annee, mois - 1)

pub precedent : Mois → Mois
precedent m =
    if m.mois == 1
    then record { annee = m.annee +ℤ negsuc 0; mois = 12 }
    else record { annee = m.annee; mois = m.mois - 1 }

pub cycle_precedent : CycleMensuel → CycleMensuel
unfolding precedent
cycle_precedent c = record c { mois = precedent c.mois }

module _ (calendar : Calendar) where
  open calendar use {Date, year, month, day, from_ymd_opt, pred_opt}

  pub premier_jour : Mois → Option Date
  premier_jour m = from_ymd_opt m.annee m.mois 1

  pub premier_jour_mois_suivant : Mois → Option Date
  unfolding mois_suivant
  premier_jour_mois_suivant m = let (a, n) = mois_suivant m.annee m.mois in from_ymd_opt a n 1

  pub dernier_jour : ℤ → ℕ → Option ℕ
  unfolding mois_suivant
  dernier_jour annee mois = do
    let suivant = mois_suivant annee mois
    premier_suivant ← from_ymd_opt suivant.0 suivant.1 1
    dernier ← pred_opt premier_suivant
    some (day dernier)

  pub jour_dans_le_mois : ℤ → ℕ → ℕ → Option Date
  unfolding dernier_jour
  jour_dans_le_mois annee mois jour = do
    dernier ← dernier_jour annee mois
    from_ymd_opt annee mois (min jour dernier)

  pub fin_exclue : CycleMensuel → Option Date
  unfolding premier_jour premier_jour_mois_suivant jour_dans_le_mois
  fin_exclue c = do
    debut_mois ← premier_jour c.mois
    let jour = c.jour_debut.valeur
    if jour == 1
        then premier_jour_mois_suivant c.mois
        else jour_dans_le_mois (year debut_mois) (month debut_mois) jour

  unfoldable pub debut : CycleMensuel → Option Date
  unfolding fin_exclue mois_precedent
  debut c = do
    fin ← fin_exclue c
    let p = mois_precedent (year fin) (month fin)
    jour_dans_le_mois p.0 p.1 c.jour_debut.valeur
