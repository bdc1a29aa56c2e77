-- ===== src/Libelle.antt =====
-- src/domain/libelle.rs: the third party that a bank label names. `str::to_uppercase` is a parameter.
pub mod Boucle
use ch_api_budgy.Prelude.{
  ℕ, zero, suc, Bool, true, false, Option, none, some, List, [], ◌∷◌, ◌++◌, map, length, take,
  filter, not, ◌||◌, ◌&&◌, leb, ◌==◌, if◌then◌else◌, unwrap_or,
}
use ch_api_budgy.Texte.{Texte, codes, trim, trim_start, is_empty, text_eq, split_whitespace}

abbrev pub prefixes : List Texte
prefixes =
    codes "VIREMENT INSTANTANE RECU DE"
    ∷ codes "VIREMENT SEPA RECU DE"
    ∷ codes "VIREMENT EN VOTRE FAVEUR DE"
    ∷ codes "VIREMENT EN VOTRE FAVEUR"
    ∷ codes "VIREMENT INSTANTANE RECU"
    ∷ codes "VIREMENT INSTANTANE"
    ∷ codes "VIREMENT SEPA EMIS"
    ∷ codes "VIREMENT SEPA RECU"
    ∷ codes "VIREMENT SEPA"
    ∷ codes "VIREMENT RECU DE"
    ∷ codes "VIREMENT RECU"
    ∷ codes "VIREMENT EMIS"
    ∷ codes "VIREMENT"
    ∷ codes "PAIEMENT PAR CARTE"
    ∷ codes "PAIEMENT CARTE"
    ∷ codes "PAIEMENT"
    ∷ codes "PRELEVEMENT SEPA DE"
    ∷ codes "PRELEVEMENT SEPA"
    ∷ codes "PRELEVEMENT"
    ∷ codes "PRLV SEPA"
    ∷ codes "PRLV"
    ∷ codes "ACHAT CB"
    ∷ codes "ACHAT"
    ∷ codes "RETRAIT CB"
    ∷ codes "RETRAIT DAB"
    ∷ codes "RETRAIT"
    ∷ codes "REMISE CHEQUE"
    ∷ codes "REMISE"
    ∷ codes "COTISATION"
    ∷ codes "FRAIS"
    ∷ codes "CB"
    ∷ []

abbrev pub civilites : List Texte
civilites =
    codes "M.OU MME"
    ∷ codes "M. OU MME"
    ∷ codes "MR OU MME"
    ∷ codes "MME OU MR"
    ∷ codes "MLLE"
    ∷ codes "MME"
    ∷ codes "MR"
    ∷ codes "M."
    ∷ []

abbrev pub mois : List Texte
mois =
    codes "JANVIER"
    ∷ codes "FEVRIER"
    ∷ codes "MARS"
    ∷ codes "AVRIL"
    ∷ codes "MAI"
    ∷ codes "JUIN"
    ∷ codes "JUILLET"
    ∷ codes "AOUT"
    ∷ codes "SEPTEMBRE"
    ∷ codes "OCTOBRE"
    ∷ codes "NOVEMBRE"
    ∷ codes "DECEMBRE"
    ∷ []

abbrev pub bruit : List Texte
bruit =
    codes "REF"
    ∷ codes "REFERENCE"
    ∷ codes "MANDAT"
    ∷ codes "MDT"
    ∷ codes "RUM"
    ∷ codes "ECH"
    ∷ codes "NUM"
    ∷ codes "NUMERO"
    ∷ codes "MOTIF"
    ∷ codes "ID"
    ∷ []

abbrev pub max_tokens : ℕ
max_tokens = 5

-- `join(" ")`
pub join : List Texte → Texte
join [] = []
join (m ∷ []) = m
join (m ∷ n ∷ ms) = m ++ 32 ∷ join (n ∷ ms)

unfoldable pub strip_prefix : Texte → Texte → Option Texte
strip_prefix [] s = some s
strip_prefix (p ∷ ps) [] = none
strip_prefix (p ∷ ps) (c ∷ s) = if p == c then strip_prefix ps s else none

-- `starts_with(' ')`
debute_par_espace : Texte → Bool
debute_par_espace [] = false
debute_par_espace (c ∷ s) = c == 32

sans_de : Texte → Texte
unfolding strip_prefix
sans_de reste = trim_start (unwrap_or (strip_prefix (codes "DE ") reste) reste)

retirer_un_prefixe : List Texte → Texte → Texte
unfolding strip_prefix debute_par_espace sans_de
retirer_un_prefixe [] s = s
retirer_un_prefixe (p ∷ ps) s =
    let suite = retirer_un_prefixe ps s in
    elim (strip_prefix p s) [
      | none ↦ suite
      | some reste ↦
          if is_empty reste || debute_par_espace reste then sans_de (trim_start reste) else suite
    ]

pub retirer_prefixe : Texte → Texte
unfolding retirer_un_prefixe
retirer_prefixe = retirer_un_prefixe prefixes

-- The first occurrence of the pattern, `find`, replaced by a space.
pub remplacer : Texte → Texte → Option Texte
remplacer motif [] = none
remplacer motif (c ∷ s) =
    let suite = remplacer motif s in
    elim (strip_prefix motif (c ∷ s)) [
      | some reste ↦ some (32 ∷ reste)
      | none ↦ elim suite [ none ↦ none | some t ↦ some (c ∷ t) ]
    ]

-- The `while let`, on fuel.
pub retirer_motif : ℕ → Texte → Texte → Texte
retirer_motif zero motif out = out
retirer_motif (suc n) motif out = elim (remplacer motif out) [
  | none ↦ out
  | some t ↦ retirer_motif n motif t
]

pub retirer_tous : List Texte → Texte → Texte
unfolding retirer_motif remplacer
retirer_tous [] out = out
retirer_tous (c ∷ cs) out = retirer_tous cs (retirer_motif (length out) (32 ∷ c ++ 32 ∷ []) out)

pub retirer_civilites : Texte → Texte
unfolding retirer_tous join
retirer_civilites s = join (split_whitespace (retirer_tous civilites (32 ∷ s ++ 32 ∷ [])))

un_chiffre : Texte → Bool
un_chiffre [] = false
un_chiffre (c ∷ s) = (leb 48 c && leb c 57) || un_chiffre s

que_masque : Texte → Bool
que_masque [] = true
que_masque (c ∷ s) = (c == 88 || c == 42) && que_masque s

dans : Texte → List Texte → Bool
dans t [] = false
dans t (m ∷ ms) = text_eq t m || dans t ms

pub est_token_volatile : Texte → Bool
unfolding un_chiffre que_masque dans
est_token_volatile token =
    un_chiffre token
    || (not (is_empty token) && que_masque token)
    || dans token mois
    || dans token bruit

pub filtrer_tokens : Texte → Texte
unfolding est_token_volatile join
filtrer_tokens s =
    join (take max_tokens (filter (λ t. not (est_token_volatile t)) (split_whitespace s)))

pub premiers_mots : Texte → ℕ → Texte
unfolding join
premiers_mots s n = join (take n (split_whitespace s))

module _ (to_uppercase : Texte → Texte) where
  pub normaliser : Texte → Texte
  unfolding split_whitespace join
  normaliser label = join (split_whitespace (to_uppercase label))

  unfoldable pub extraire_tiers : Texte → Texte
  unfolding normaliser retirer_prefixe retirer_civilites filtrer_tokens premiers_mots
      split_whitespace trim
  extraire_tiers label =
      let normalise = normaliser label in
      let tiers = filtrer_tokens (retirer_civilites (retirer_prefixe normalise)) in
      if is_empty (trim tiers) then premiers_mots normalise max_tokens else tiers
