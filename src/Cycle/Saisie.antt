-- ===== src/Cycle/Saisie.antt =====
-- A month as a text, src/domain/depense.rs: `Mois::parse` and the `Display` of `Mois`.
pub mod Relecture
use ch_api_budgy.Prelude.{
  ℕ, zero, suc, ◌+◌, ◌-◌, ◌*◌, ◌/◌, ◌%◌, ◌^◌, Bool, true, false, not, ◌&&◌, ◌||◌, Option, none,
  some, List, [], ◌∷◌, ◌++◌, Result, ok, err, length, replicate, ltb, leb, ◌==◌, if◌then◌else◌,
}
use ch_api_budgy.Prelude.Int.{ℤ, pos, negsuc, ltb_ℤ, leb_ℤ}
use ch_api_budgy.Prelude.Options.{◌>>=◌}
use ch_api_budgy.Texte.{Texte, octets}
use ch_api_budgy.Cycle.{Mois}

pub data MoisInvalide : Type 0 where
  format hors_plage : MoisInvalide

abbrev pub tiret : ℕ
tiret = 45

abbrev pub plus : ℕ
plus = 43

-- `str::split_once`
unfoldable pub avec_tete : ℕ → Option (Texte × Texte) → Option (Texte × Texte)
avec_tete c none = none
avec_tete c (some (s, t)) = some (c ∷ s, t)

unfoldable pub split_once : ℕ → Texte → Option (Texte × Texte)
unfolding avec_tete
split_once d [] = none
split_once d (c ∷ s) =
    let suite = split_once d s in if c == d then some ([], s) else avec_tete c suite

unfoldable pub est_chiffre : ℕ → Bool
est_chiffre c = leb 48 c && leb c 57

unfoldable pub chiffres : ℕ → Texte → Option ℕ
unfolding est_chiffre
chiffres n [] = some n
chiffres n (c ∷ s) = if est_chiffre c then chiffres (10 * n + (c - 48)) s else none

-- The digits of a number; an empty text is none.
unfoldable pub nombre : Texte → Option ℕ
nombre [] = none
nombre (c ∷ s) = chiffres 0 (c ∷ s)

unfoldable pub borne : ℕ → Option ℕ → Option ℕ
borne limite none = none
borne limite (some n) = if leb n limite then some n else none

unfoldable pub positif : Option ℕ → Option ℤ
positif none = none
positif (some n) = some (pos n)

unfoldable pub negatif : Option ℕ → Option ℤ
negatif none = none
negatif (some zero) = some (pos 0)
negatif (some (suc n)) = some (negsuc n)

-- `str::parse` into `i32` and `u32`: a sign may stand before the digits.
unfoldable pub parse_i32 : Texte → Option ℤ
unfolding positif negatif
parse_i32 [] = none
parse_i32 (c ∷ s) =
    if c == tiret
    then negatif (borne (2 ^ 31) (nombre s))
    else if c == plus
    then positif (borne (2 ^ 31 - 1) (nombre s))
    else positif (borne (2 ^ 31 - 1) (nombre (c ∷ s)))

unfoldable pub parse_u32 : Texte → Option ℕ
parse_u32 [] = none
parse_u32 (c ∷ s) =
    if c == plus then borne (2 ^ 32 - 1) (nombre s) else borne (2 ^ 32 - 1) (nombre (c ∷ s))

unfoldable pub dans_la_plage : ℤ → ℕ → Result MoisInvalide Mois
dans_la_plage annee mois =
    if leb 1 mois && leb mois 12 then ok (record { annee = annee; mois = mois }) else err hors_plage

unfoldable pub lire_mois : ℤ → Option ℕ → Result MoisInvalide Mois
unfolding dans_la_plage
lire_mois annee none = err format
lire_mois annee (some mois) = dans_la_plage annee mois

unfoldable pub lire_annee : Option ℤ → Texte → Result MoisInvalide Mois
unfolding lire_mois parse_u32
lire_annee none mois = err format
lire_annee (some annee) mois = lire_mois annee (parse_u32 mois)

unfoldable pub lire_parties : Option (Texte × Texte) → Result MoisInvalide Mois
unfolding lire_annee parse_i32
lire_parties none = err format
lire_parties (some (annee, mois)) =
    if not (octets annee == 4) || not (octets mois == 2)
    then err format
    else lire_annee (parse_i32 annee) mois

unfoldable pub parse : Texte → Result MoisInvalide Mois
unfolding lire_parties split_once
parse valeur = lire_parties (split_once tiret valeur)

-- The decimal digits of a number below 10 ^ fuel.
unfoldable pub decimal : ℕ → ℕ → Texte
decimal zero n = (48 + n % 10) ∷ []
decimal (suc fuel) n = elim (ltb n 10) [
  | true ↦ (48 + n) ∷ []
  | false ↦ decimal fuel (n / 10) ++ (48 + n % 10) ∷ []
]

unfoldable pub completer : ℕ → Texte → Texte
completer largeur s = replicate (largeur - length s) 48 ++ s

-- `{:04}`, the sign counted; ten digits are enough for an `i32`.
unfoldable pub afficher_annee : ℤ → Texte
unfolding completer decimal
afficher_annee (pos n) = completer 4 (decimal 10 n)
afficher_annee (negsuc n) = tiret ∷ completer 3 (decimal 10 (suc n))

unfoldable pub fmt : Mois → Texte
unfolding afficher_annee completer decimal
fmt m = afficher_annee m.annee ++ tiret ∷ completer 2 (decimal 10 m.mois)
