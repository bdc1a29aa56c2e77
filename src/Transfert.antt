-- ===== src/Transfert.antt =====
-- src/domain/transfert_interne.rs: the two faces of each transfer between two accounts of an owner.
--
-- Ids are the 128 bits of a UUID and dates are day numbers. `str::to_uppercase` is a parameter. The
-- resemblance is kept as the fraction that the code divides out in `f64`: fractions of counts this
-- small stand in the same order as their quotients.
pub mod Appariement
pub mod Completude
use ch_api_budgy.Prelude.{
  ℕ, ◌+◌, ◌*◌, ◌-◌, Bool, true, false, List, [], ◌∷◌, ◌++◌, map, length, contains, not, ◌&&◌, ◌||◌,
  ltb, ◌==◌, if◌then◌else◌, filter, unwrap_or,
}
use ch_api_budgy.Prelude.Int.{ℤ, pos, ltb_ℤ, leb_ℤ, eqb_ℤ, ◌-ℤ◌}
use ch_api_budgy.Prelude.I64.{neg_i64, abs_i64}
use ch_api_budgy.Prelude.Sort.{sort_by}
use ch_api_budgy.Prelude.Map.{Map, get, update}
use ch_api_budgy.Texte.{Texte, text_eq, split_whitespace}

pub record MouvementCandidat : Type 0 where
  pub id : ℕ
  pub compte : ℕ
  pub amount_cents : ℤ
  pub date : ℤ
  pub libelle : Texte
  pub range_a_la_main : Bool

-- A score, and the two faces.
pub record Couple : Type 0 where
  pub communs : ℕ
  pub union : ℕ
  pub debit : MouvementCandidat
  pub credit : MouvementCandidat

pub tolerance_jours : ℤ
tolerance_jours = pos 4

pub sont_les_deux_faces : MouvementCandidat → MouvementCandidat → Bool
unfolding tolerance_jours
sont_les_deux_faces debit credit =
    not (credit.compte == debit.compte)
    && eqb_ℤ credit.amount_cents (neg_i64 debit.amount_cents)
    && leb_ℤ (abs_i64 (credit.date -ℤ debit.date)) tolerance_jours

-- A `HashSet` of words, each once.
mot_present : Texte → List Texte → Bool
mot_present m [] = false
mot_present m (n ∷ ms) = text_eq m n || mot_present m ms

mots_distincts : List Texte → List Texte
unfolding mot_present
mots_distincts [] = []
mots_distincts (m ∷ ms) =
    let rest = mots_distincts ms in if mot_present m rest then rest else m ∷ rest

pub intersection : List Texte → List Texte → List Texte
unfolding mot_present
intersection a b = filter (λ m. mot_present m b) a

-- Below 0.25.
pub sous_le_minimum : Couple → Bool
sous_le_minimum q = ltb (4 * q.communs) q.union

-- `b.0.total_cmp(&a.0)`, then the debit's date and the two ids.
pub couple_avant : Couple → Couple → Bool
couple_avant a b =
    let pa = a.communs * b.union in
    let pb = b.communs * a.union in
    ltb pb pa
    || (pb == pa
        && (ltb_ℤ a.debit.date b.debit.date
            || (eqb_ℤ a.debit.date b.debit.date
                && (ltb a.debit.id b.debit.id
                    || (a.debit.id == b.debit.id && not (ltb b.credit.id a.credit.id))))))

compter : (Couple → ℕ) → List Couple → Map ℕ → Map ℕ
compter cle [] m = m
compter cle (q ∷ qs) m = compter cle qs (update (cle q) 0 (λ n. n + 1) m)

pub partenaires_du_debit : List Couple → Map ℕ
unfolding compter
partenaires_du_debit couples = compter (λ q. q.debit.id) couples []

pub partenaires_du_credit : List Couple → Map ℕ
unfolding compter
partenaires_du_credit couples = compter (λ q. q.credit.id) couples []

pub appariement_sans_doute : Couple → Map ℕ → Map ℕ → Bool
appariement_sans_doute q du_debit du_credit =
    unwrap_or (get q.debit.id du_debit) 0 == 1
    && unwrap_or (get q.credit.id du_credit) 0 == 1
    && not q.debit.range_a_la_main
    && not q.credit.range_a_la_main

-- The two `continue`s of the loop, with the sets of the ids that are taken.
unfoldable pub a_retenir : Map ℕ → Map ℕ → List ℕ → List ℕ → Couple → Bool
unfolding appariement_sans_doute sous_le_minimum
a_retenir du_debit du_credit debits_pris credits_pris q =
    not (contains q.debit.id debits_pris || contains q.credit.id credits_pris)
    && not (sous_le_minimum q && not (appariement_sans_doute q du_debit du_credit))

-- The loop: the couples that it keeps, in its order.
pub retenir : Map ℕ → Map ℕ → List ℕ → List ℕ → List Couple → List Couple
retenir du_debit du_credit debits_pris credits_pris [] = []
retenir du_debit du_credit debits_pris credits_pris (q ∷ couples) =
    elim (a_retenir du_debit du_credit debits_pris credits_pris q) [
      | true ↦
          q
          ∷ retenir du_debit du_credit (q.debit.id ∷ debits_pris) (q.credit.id ∷ credits_pris)
              couples
      | false ↦ retenir du_debit du_credit debits_pris credits_pris couples
    ]

pub apparies : List Couple → List ℕ
apparies [] = []
apparies (q ∷ qs) = q.debit.id ∷ q.credit.id ∷ apparies qs

module _ (to_uppercase : Texte → Texte) where
  mots : Texte → List Texte
  unfolding mots_distincts split_whitespace
  mots texte = mots_distincts (map to_uppercase (split_whitespace texte))

  pub ressemblance : MouvementCandidat → MouvementCandidat → Couple
  unfolding mots intersection
  ressemblance debit credit =
      let a = mots debit.libelle in
      let b = mots credit.libelle in
      let i = length (intersection a b) in
      let u = length a + length b - i in
      record { communs = i; union = if u == 0 then 1 else u; debit = debit; credit = credit }

  couples_du_debit : MouvementCandidat → List MouvementCandidat → List Couple
  unfolding ressemblance sont_les_deux_faces
  couples_du_debit debit [] = []
  couples_du_debit debit (credit ∷ credits) =
      let rest = couples_du_debit debit credits in
      if sont_les_deux_faces debit credit then ressemblance debit credit ∷ rest else rest

  couples_de : List MouvementCandidat → List MouvementCandidat → List Couple
  unfolding couples_du_debit
  couples_de [] credits = []
  couples_de (debit ∷ debits) credits = couples_du_debit debit credits ++ couples_de debits credits

  pub couples : List MouvementCandidat → List Couple
  unfolding couples_de
  couples mouvements =
      couples_de (filter (λ m. ltb_ℤ m.amount_cents (pos 0)) mouvements)
        (filter (λ m. ltb_ℤ (pos 0) m.amount_cents) mouvements)

  pub virements : List MouvementCandidat → List Couple
  unfolding couples partenaires_du_debit partenaires_du_credit retenir sort_by couple_avant
  virements mouvements =
      let qs = couples mouvements in
      retenir (partenaires_du_debit qs) (partenaires_du_credit qs) [] [] (sort_by couple_avant qs)

  unfoldable pub detecter_transferts_internes : List MouvementCandidat → List ℕ
  unfolding virements apparies
  detecter_transferts_internes mouvements = apparies (virements mouvements)
