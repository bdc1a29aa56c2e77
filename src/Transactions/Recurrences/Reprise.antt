-- ===== src/Transactions/Recurrences/Reprise.antt =====
-- Recomputing the recurrences: src/repository/bank_transactions.rs.
use mathlib.Core.Path.{ap₂}
use ch_api_budgy.Prelude.{
  ℕ, ◌≡◌, refl, sym, ap, ◌∙◌, Bool, true, false, not, ◌&&◌, none, some, List, [], ◌∷◌, map, arith,
  if◌then◌else◌, contains,
}
use ch_api_budgy.Prelude.Int.{ℤ}
use ch_api_budgy.Texte.{Texte}
use ch_api_budgy.Recurrence.{RecurrenceInterval, detecter_recurrences, TransactionRecurrente}
use ch_api_budgy.Transactions.{
  Base, TransactionBancaire, date_effective, est_a, mettre_a_jour, update_where,
}
use ch_api_budgy.Transactions.Idempotence.{est_a_egal}
use ch_api_budgy.Transactions.Recurrences.{
  a_oublier, a_retenir, ids_recurrents, lister_occurrences_pour_detection, marquer_recurrentes,
  occurrence, occurrences_de, oublier, recalculer_recurrences, reinitialiser_recurrences, retenir,
}

-- What a row becomes: `a` tells if it is the owner's, `i` if it was found to come back.
abbrev pub repris : Bool → Bool → TransactionBancaire → TransactionBancaire
repris false i t = t
repris true true t = record t {
  is_recurrent = true;
  recurrence_interval = some RecurrenceInterval.mensuel;
}
repris true false t =
    if t.is_recurrent then record t { is_recurrent = false; recurrence_interval = none } else t

repris_lem :
    (a i : Bool) (t : TransactionBancaire)
    → (let u = if a && t.is_recurrent then oublier t else t in
        if a && i then retenir RecurrenceInterval.mensuel u else u)
      ≡ repris a i t
unfolding oublier retenir
repris_lem false i t = refl
repris_lem true true t = ground arith
repris_lem true false t = ground arith

repris-id : (a i : Bool) (t : TransactionBancaire) → (repris a i t).id ≡ t.id
unfolding oublier retenir
repris-id a i t = ground arith

repris-compte :
    (a i : Bool) (t : TransactionBancaire) → (repris a i t).bank_account ≡ t.bank_account
unfolding oublier retenir
repris-compte a i t = ground arith

oublie-compte :
    (d : Bool) (t : TransactionBancaire)
    → ((if d then oublier t else t).bank_account ≡ t.bank_account)
      × ((if d then oublier t else t).id ≡ t.id)
unfolding oublier
oublie-compte true t = (refl, refl)
oublie-compte false t = (refl, refl)

repris_idem : (a i : Bool) (t : TransactionBancaire) → repris a i (repris a i t) ≡ repris a i t
unfolding oublier retenir
repris_idem false i t = refl
repris_idem true false t = ground arith
repris_idem true true t = ground arith

abbrev pub reprise : Base → Texte → List ℕ → TransactionBancaire → TransactionBancaire
reprise base p ids t = repris (est_a base p t) (contains t.id ids) t

deux_mises_a_jour :
    (b c : Base) (p : Texte) (ids : List ℕ)
    → c.proprietaires ≡ b.proprietaires
    → (ts : List TransactionBancaire)
    → mettre_a_jour
        (a_retenir c p ids)
        (retenir RecurrenceInterval.mensuel)
        (mettre_a_jour (a_oublier b p) oublier ts)
      ≡ map (reprise b p ids) ts
unfolding mettre_a_jour a_oublier a_retenir
deux_mises_a_jour b c p ids e [] = refl
deux_mises_a_jour b c p ids e (t ∷ ts) =
    let u = if a_oublier b p t then oublier t else t in
    let f = oublie-compte (a_oublier b p t) t in
    ap₂ (λ v vs. v ∷ vs)
      (ap₂ (λ x y. if x && y then retenir RecurrenceInterval.mensuel u else u)
          (est_a_egal c b p u t e f.0) (ap (λ i. contains i ids) f.1)
        ∙ repris_lem (est_a b p t) (contains t.id ids) t)
      (deux_mises_a_jour b c p ids e ts)

sans_retenue :
    (b : Base) (p : Texte) (ts : List TransactionBancaire)
    → mettre_a_jour (a_retenir b p []) (retenir RecurrenceInterval.mensuel) ts ≡ ts
unfolding mettre_a_jour a_retenir
sans_retenue b p [] = refl
sans_retenue b p (t ∷ ts) = ap₂ (λ u us. u ∷ us) (ground arith) (sans_retenue b p ts)

retenues :
    (b : Base) (p : Texte) (ids : List ℕ)
    → (marquer_recurrentes b p RecurrenceInterval.mensuel ids).0.transactions
      ≡ mettre_a_jour (a_retenir b p ids) (retenir RecurrenceInterval.mensuel) b.transactions
unfolding marquer_recurrentes update_where
retenues b p [] = sym (sans_retenue b p b.transactions)
retenues b p (i ∷ ids) = refl

module _ (maj : Texte → Texte) where
  -- The owner's transactions of the clusters that come back each month are marked with that
  -- interval, those that no longer are in one lose the mark, and every other transaction, and
  -- everything else of these, stays as it is.
  pub recalculer_recurrences_lem :
      (base : Base) (p : Texte)
      → (recalculer_recurrences maj base p).0.transactions
        ≡ map (reprise base p (ids_recurrents maj base p)) base.transactions
  unfolding recalculer_recurrences reinitialiser_recurrences update_where
  recalculer_recurrences_lem base p =
      retenues (reinitialiser_recurrences base p) p (ids_recurrents maj base p)
      ∙ deux_mises_a_jour base (reinitialiser_recurrences base p) p (ids_recurrents maj base p) refl
          base.transactions

  recalculer-comptes :
      (base : Base) (p : Texte)
      → (recalculer_recurrences maj base p).0.proprietaires ≡ base.proprietaires
  unfolding recalculer_recurrences marquer_recurrentes reinitialiser_recurrences update_where
  recalculer-comptes base p = ground arith

  repris-occurrence :
      (a i : Bool) (t : TransactionBancaire) (date : ℤ)
      → occurrence (repris a i t) date ≡ occurrence t date
  unfolding occurrence oublier retenir
  repris-occurrence a i t date = ground arith

  repris-date :
      (a i : Bool) (t : TransactionBancaire)
      → (date_effective (repris a i t) ≡ date_effective t)
        × ((repris a i t).is_internal_transfer ≡ t.is_internal_transfer)
  unfolding date_effective oublier retenir
  repris-date a i t = (ground arith, ground arith)

  repris-occurrences :
      (b c : Base) (p : Texte) (ids : List ℕ)
      → c.proprietaires ≡ b.proprietaires
      → (ts : List TransactionBancaire)
      → occurrences_de c p (map (reprise b p ids) ts) ≡ occurrences_de b p ts
  unfolding occurrences_de
  repris-occurrences b c p ids e [] = refl
  repris-occurrences b c p ids e (t ∷ ts) =
      let a = est_a b p t in
      let i = contains t.id ids in
      let appartient = est_a_egal c b p (repris a i t) t e (repris-compte a i t) in
      let rest = repris-occurrences b c p ids e ts in
      let garde = repris-date a i t in
      λ k.
        if appartient k && not (garde.1 k)
        then elim (garde.0 k) [
          | none ↦ rest k
          | some date ↦ repris-occurrence a i t date k ∷ rest k
        ]
        else rest k

  memes_ids :
      (base : Base) (p : Texte)
      → ids_recurrents maj (recalculer_recurrences maj base p).0 p ≡ ids_recurrents maj base p
  unfolding lister_occurrences_pour_detection
  memes_ids base p =
      let apres = (recalculer_recurrences maj base p).0 in
      ap (λ os. map TransactionRecurrente.id (detecter_recurrences maj os))
        (ap (occurrences_de apres p) (recalculer_recurrences_lem base p)
          ∙ repris-occurrences base apres p (ids_recurrents maj base p) (recalculer-comptes base p)
              base.transactions)

  map-reprise_idem :
      (b c : Base) (p : Texte) (ids : List ℕ)
      → c.proprietaires ≡ b.proprietaires
      → (ts : List TransactionBancaire)
      → map (reprise c p ids) (map (reprise b p ids) ts) ≡ map (reprise b p ids) ts
  map-reprise_idem b c p ids e [] = refl
  map-reprise_idem b c p ids e (t ∷ ts) =
      let a = est_a b p t in
      let i = contains t.id ids in
      ap₂ (λ u us. u ∷ us)
        (ap₂ (λ x y. repris x y (repris a i t))
            (est_a_egal c b p (repris a i t) t e (repris-compte a i t))
            (ap (λ n. contains n ids) (repris-id a i t))
          ∙ repris_idem a i t)
        (map-reprise_idem b c p ids e ts)

  -- To recompute the recurrences twice is to recompute them once.
  pub recalculer_recurrences_idem :
      (base : Base) (p : Texte)
      → let apres = (recalculer_recurrences maj base p).0 in
        (recalculer_recurrences maj apres p).0.transactions ≡ apres.transactions
  recalculer_recurrences_idem base p =
      let apres = (recalculer_recurrences maj base p).0 in
      let ids = ids_recurrents maj base p in
      recalculer_recurrences_lem apres p
      ∙ ap₂ (λ is ts. map (reprise apres p is) ts) (memes_ids base p)
          (recalculer_recurrences_lem base p)
      ∙ map-reprise_idem base apres p ids (recalculer-comptes base p) base.transactions
      ∙ sym (recalculer_recurrences_lem base p)
