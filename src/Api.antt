-- ===== src/Api.antt =====
-- src/api/pagination.rs, src/api/query.rs, src/handlers/commun.rs, src/relay/evenement.rs and
-- src/repository/preferences.rs: what a request or an event may ask for, and the day on which the
-- month of a user begins.
use ch_api_budgy.Prelude.{
  ℕ, Bool, true, false, Option, none, some, List, [], ◌∷◌, Result, ok, err, ltb, unwrap_or, ◌==◌,
  if◌then◌else◌,
}
use ch_api_budgy.Prelude.Int.{ℤ, ltb_ℤ}
use ch_api_budgy.Texte.{Texte, codes, trim, is_empty, text_eq}
use ch_api_budgy.Cycle.{JourDebutInvalide, JourDebutMois, Mois, nouveau, premier}
use ch_api_budgy.Cycle.Saisie.{MoisInvalide, parse}

abbrev pub default_limit : ℕ
default_limit = 50

abbrev pub max_limit : ℕ
max_limit = 200

pub record PaginationParams : Type 0 where
  pub limit : Option ℕ
  pub offset : Option ℕ

pub record Pagination : Type 0 where
  pub limit : ℕ
  pub offset : ℕ

-- `ApiError::validation`
pub data RequeteInvalide : Type 0 where
  limite_nulle limite_trop_grande bornes_inversees mois_obligatoire : RequeteInvalide
  mois_refuse : MoisInvalide → RequeteInvalide

pub limite : Option ℕ → Result RequeteInvalide ℕ
limite none = ok default_limit
limite (some value) =
    if value == 0
    then err limite_nulle
    else if ltb max_limit value
    then err limite_trop_grande
    else ok value

unfoldable pub resolve : PaginationParams → Result RequeteInvalide Pagination
unfolding limite
resolve p = elim (limite p.limit) [
  | err e ↦ err e
  | ok l ↦ ok (record { limit = l; offset = unwrap_or p.offset 0 })
]

pub record DateRangeFilter : Type 0 where
  pub from : Option ℤ
  pub to : Option ℤ

pub inversees : Option ℤ → Option ℤ → Bool
inversees none to = false
inversees (some from) none = false
inversees (some from) (some to) = ltb_ℤ to from

unfoldable pub validate : DateRangeFilter → Result RequeteInvalide DateRangeFilter
unfolding inversees
validate f = if inversees f.from f.to then err bornes_inversees else ok f

pub mois_lu : Result MoisInvalide Mois → Result RequeteInvalide Mois
mois_lu (ok m) = ok m
mois_lu (err e) = err (mois_refuse e)

-- `parse_month` of src/handlers/commun.rs: the month that a request must name.
unfoldable pub parse_month : Option Texte → Result RequeteInvalide Mois
unfolding mois_lu
parse_month none = err mois_obligatoire
parse_month (some valeur) =
    if is_empty (trim valeur) then err mois_obligatoire else mois_lu (parse (trim valeur))

pub record ListQuery : Type 0 where
  pub limit : Option ℕ
  pub offset : Option ℕ
  pub from : Option ℤ
  pub to : Option ℤ
  pub account_id : Option ℕ
  pub uncategorized : Option Bool

unfoldable pub pagination : ListQuery → Result RequeteInvalide Pagination
unfolding resolve
pagination q = resolve (record { limit = q.limit; offset = q.offset })

unfoldable pub date_range : ListQuery → Result RequeteInvalide DateRangeFilter
unfolding validate
date_range q = validate (record { from = q.from; to = q.to })

pub data EvenementError : Type 0 where
  payload_invalide type_inattendu : Texte → EvenementError
  sub_manquant : EvenementError

pub record UserDeletedPayload : Type 0 where
  pub event_type : Texte
  pub sub : Texte

-- `lire` is the JSON library's reading of the payload.
unfoldable pub parser_user_deleted :
    (Texte → Result Texte UserDeletedPayload) → Texte → Result EvenementError Texte
parser_user_deleted lire payload = elim (lire payload) [
  | err e ↦ err (payload_invalide e)
  | ok brut ↦
      if text_eq brut.event_type (codes "auth.user.deleted")
      then (if is_empty (trim brut.sub) then err sub_manquant else ok (trim brut.sub))
      else err (type_inattendu brut.event_type)
]

-- The table of the preferences, one row for an owner.
abbrev pub Preferences : Type 0
Preferences = List (Texte × ℕ)

pub jour_enregistre : Preferences → Texte → Option ℕ
jour_enregistre [] proprietaire = none
jour_enregistre ((p, jour) ∷ reste) proprietaire =
    let suite = jour_enregistre reste proprietaire in
    if text_eq p proprietaire then some jour else suite

pub ou_premier : Result JourDebutInvalide JourDebutMois → JourDebutMois
ou_premier (ok jour) = jour
ou_premier (err e) = premier

pub lu_ou_premier : Option ℕ → JourDebutMois
unfolding ou_premier
lu_ou_premier none = premier
lu_ou_premier (some jour) = ou_premier (nouveau jour)

pub jour_debut_mois : Preferences → Texte → JourDebutMois
unfolding jour_enregistre lu_ou_premier
jour_debut_mois preferences proprietaire = lu_ou_premier (jour_enregistre preferences proprietaire)

-- `ON CONFLICT (owner_id) DO UPDATE`
pub definir_jour_debut_mois : Preferences → Texte → JourDebutMois → Preferences × JourDebutMois
definir_jour_debut_mois preferences proprietaire jour = (poser preferences, jour)
  where
    poser : Preferences → Preferences
    poser [] = (proprietaire, jour.valeur) ∷ []
    poser ((p, j) ∷ reste) = elim (text_eq p proprietaire) [
      | true ↦ (p, jour.valeur) ∷ reste
      | false ↦ (p, j) ∷ poser reste
    ]
