-- ===== src/Transactions/Idempotence.antt =====
-- Recomputing the internal transfers twice: src/repository/bank_transactions.rs.
use ch_api_budgy.Prelude.{
  ℕ, ◌≡◌, refl, sym, ap, ◌∙◌, Bool, true, false, not, ◌&&◌, none, some, List, [], ◌∷◌, map, arith,
  if◌then◌else◌, contains,
}
use mathlib.Core.Path.{ap₂}
use ch_api_budgy.Texte.{Texte, text_eq}
use ch_api_budgy.Prelude.Int.{ℤ}
use ch_api_budgy.Transactions.Operations.{Automatique-Respecte, Automatique}
use ch_api_budgy.Libelle.{extraire_tiers}
use ch_api_budgy.Transfert.{detecter_transferts_internes}
use ch_api_budgy.Prelude.Map.{get}
use ch_api_budgy.Transactions.{
  Base, TransactionBancaire, est_a, est_manuelle, est_virements_internes, mettre_a_jour,
  update_where, demarquer, marquer, a_demarquer, a_marquer, marquer_transferts_internes,
  reinitialiser_transferts_internes, recalculer_transferts_internes, mouvement, rangee,
  date_effective, mouvements_de, lister_mouvements_pour_appariement,
}

-- What a row becomes: `a` tells if it is the owner's, `i` if it was paired.
abbrev pub recalcule : Bool → Bool → TransactionBancaire → TransactionBancaire
recalcule a i t =
    let u =
      if a && t.is_internal_transfer && not (est_virements_internes t.category)
      then demarquer t
      else t in
    if a && i && not u.is_internal_transfer then marquer u else u

recalcule_idem :
    (a i : Bool) (t : TransactionBancaire) → recalcule a i (recalcule a i t) ≡ recalcule a i t
unfolding marquer demarquer est_manuelle est_virements_internes
recalcule_idem false i t = refl
recalcule_idem true false t = ground arith
recalcule_idem true true t = ground arith

pub est_a_egal :
    (b c : Base) (p : Texte) (t u : TransactionBancaire)
    → b.proprietaires ≡ c.proprietaires
    → t.bank_account ≡ u.bank_account
    → est_a b p t ≡ est_a c p u
unfolding est_a
est_a_egal b c p t u e f = ap₂ (λ k m. elim (get k m) [ none ↦ false | some o ↦ text_eq o p ]) f e

recalcule-compte :
    (a i : Bool) (t : TransactionBancaire) → (recalcule a i t).bank_account ≡ t.bank_account
unfolding marquer demarquer
recalcule-compte a i t = ground arith

demarque-compte :
    (d : Bool) (t : TransactionBancaire)
    → ((if d then demarquer t else t).bank_account ≡ t.bank_account)
      × ((if d then demarquer t else t).id ≡ t.id)
unfolding demarquer
demarque-compte true t = (refl, refl)
demarque-compte false t = (refl, refl)

recalcule-id : (a i : Bool) (t : TransactionBancaire) → (recalcule a i t).id ≡ t.id
unfolding marquer demarquer
recalcule-id a i t = ground arith

recalcule-montant :
    (a i : Bool) (t : TransactionBancaire) → (recalcule a i t).amount_cents ≡ t.amount_cents
unfolding marquer demarquer
recalcule-montant a i t = ground arith

recalcule-label : (a i : Bool) (t : TransactionBancaire) → (recalcule a i t).label ≡ t.label
unfolding marquer demarquer
recalcule-label a i t = ground arith

marquer-rangee :
    (b : Bool) (t : TransactionBancaire) → rangee (if b then marquer t else t) ≡ rangee t
unfolding rangee marquer est_manuelle
marquer-rangee b t = ground arith

demarquer-rangee :
    (b : Bool) (t : TransactionBancaire) → rangee (if b then demarquer t else t) ≡ rangee t
unfolding rangee demarquer
demarquer-rangee true t = refl
demarquer-rangee false t = refl

recalcule-rangee : (a i : Bool) (t : TransactionBancaire) → rangee (recalcule a i t) ≡ rangee t
recalcule-rangee a i t = marquer-rangee _ _ ∙ demarquer-rangee _ t

abbrev ligne : Base → Texte → List ℕ → TransactionBancaire → TransactionBancaire
ligne base p ids t = recalcule (est_a base p t) (contains t.id ids) t

-- The two updates, row by row.
deux_mises_a_jour :
    (b c : Base) (p : Texte) (ids : List ℕ)
    → c.proprietaires ≡ b.proprietaires
    → (ts : List TransactionBancaire)
    → mettre_a_jour (a_marquer c p ids) marquer (mettre_a_jour (a_demarquer b p) demarquer ts)
      ≡ map (ligne b p ids) ts
unfolding mettre_a_jour a_demarquer a_marquer
deux_mises_a_jour b c p ids e [] = refl
deux_mises_a_jour b c p ids e (t ∷ ts) =
    let u = if a_demarquer b p t then demarquer t else t in
    let f = demarque-compte (a_demarquer b p t) t in
    ap₂ (λ v vs. v ∷ vs)
      (ap₂ (λ x y. if x && y && not u.is_internal_transfer then marquer u else u)
        (est_a_egal c b p u t e f.0) (ap (λ i. contains i ids) f.1))
      (deux_mises_a_jour b c p ids e ts)

sans_marque :
    (b : Base) (p : Texte) (ts : List TransactionBancaire)
    → mettre_a_jour (a_marquer b p []) marquer ts ≡ ts
unfolding mettre_a_jour a_marquer
sans_marque b p [] = refl
sans_marque b p (t ∷ ts) = ap₂ (λ u us. u ∷ us) (ground arith) (sans_marque b p ts)

marquees :
    (b : Base) (p : Texte) (ids : List ℕ)
    → (marquer_transferts_internes b p ids).0.transactions
      ≡ mettre_a_jour (a_marquer b p ids) marquer b.transactions
unfolding marquer_transferts_internes update_where
marquees b p [] = sym (sans_marque b p b.transactions)
marquees b p (i ∷ ids) = refl

module _ (maj min : Texte → Texte) where
  abbrev ids_apparies : Base → Texte → List ℕ
  ids_apparies base p =
      detecter_transferts_internes maj (lister_mouvements_pour_appariement maj min base p)

  recalculer_lignes :
      (base : Base) (p : Texte)
      → (recalculer_transferts_internes maj min base p).0.transactions
        ≡ map (ligne base p (ids_apparies base p)) base.transactions
  unfolding recalculer_transferts_internes reinitialiser_transferts_internes update_where
  recalculer_lignes base p =
      marquees (reinitialiser_transferts_internes base p) p (ids_apparies base p)
      ∙ deux_mises_a_jour base (reinitialiser_transferts_internes base p) p (ids_apparies base p)
          refl base.transactions

  recalcule-mouvement :
      (a i : Bool) (t : TransactionBancaire) (date : ℤ)
      → mouvement maj min (recalcule a i t) date ≡ mouvement maj min t date
  unfolding mouvement
  recalcule-mouvement a i t date = λ k. record {
    id = recalcule-id a i t k;
    compte = recalcule-compte a i t k;
    amount_cents = recalcule-montant a i t k;
    date = date;
    libelle = extraire_tiers maj (recalcule-label a i t k);
    range_a_la_main = recalcule-rangee a i t k;
  }

  recalcule-date :
      (a i : Bool) (t : TransactionBancaire) → date_effective (recalcule a i t) ≡ date_effective t
  unfolding date_effective marquer demarquer
  recalcule-date a i t = ground arith

  recalcule-mouvements :
      (b c : Base) (p : Texte) (ids : List ℕ)
      → c.proprietaires ≡ b.proprietaires
      → (ts : List TransactionBancaire)
      → mouvements_de maj min c p (map (ligne b p ids) ts) ≡ mouvements_de maj min b p ts
  unfolding mouvements_de
  recalcule-mouvements b c p ids e [] = refl
  recalcule-mouvements b c p ids e (t ∷ ts) =
      let a = est_a b p t in
      let i = contains t.id ids in
      let appartient = est_a_egal c b p (recalcule a i t) t e (recalcule-compte a i t) in
      let rest = recalcule-mouvements b c p ids e ts in
      λ k.
        if appartient k
        then elim (recalcule-date a i t k) [
          | none ↦ rest k
          | some date ↦ recalcule-mouvement a i t date k ∷ rest k
        ]
        else rest k

  recalculer-comptes :
      (base : Base) (p : Texte)
      → (recalculer_transferts_internes maj min base p).0.proprietaires ≡ base.proprietaires
  recalculer-comptes base p =
      (Automatique-Respecte maj min p base _
        (Automatique.transferts_recalcules base)).comptes_gardes

  memes_ids :
      (base : Base) (p : Texte)
      → ids_apparies (recalculer_transferts_internes maj min base p).0 p ≡ ids_apparies base p
  unfolding lister_mouvements_pour_appariement
  memes_ids base p =
      let apres = (recalculer_transferts_internes maj min base p).0 in
      ap (detecter_transferts_internes maj) (
        ap (mouvements_de maj min apres p) (recalculer_lignes base p)
        ∙ recalcule-mouvements base apres p (ids_apparies base p) (recalculer-comptes base p)
            base.transactions)

  map-ligne_idem :
      (b c : Base) (p : Texte) (ids : List ℕ)
      → c.proprietaires ≡ b.proprietaires
      → (ts : List TransactionBancaire)
      → map (ligne c p ids) (map (ligne b p ids) ts) ≡ map (ligne b p ids) ts
  map-ligne_idem b c p ids e [] = refl
  map-ligne_idem b c p ids e (t ∷ ts) =
      let a = est_a b p t in
      let i = contains t.id ids in
      ap₂ (λ u us. u ∷ us)
        (ap₂ (λ x y. recalcule x y (recalcule a i t))
            (est_a_egal c b p (recalcule a i t) t e (recalcule-compte a i t))
            (ap (λ n. contains n ids) (recalcule-id a i t))
          ∙ recalcule_idem a i t)
        (map-ligne_idem b c p ids e ts)

  -- To recompute the transfers twice is to recompute them once.
  pub recalculer_transferts_internes_idem :
      (base : Base) (p : Texte)
      → let apres = (recalculer_transferts_internes maj min base p).0 in
        (recalculer_transferts_internes maj min apres p).0.transactions ≡ apres.transactions
  recalculer_transferts_internes_idem base p =
      let apres = (recalculer_transferts_internes maj min base p).0 in
      let ids = ids_apparies base p in
      let comptes = recalculer-comptes base p in
      recalculer_lignes apres p
      ∙ ap₂ (λ is ts. map (ligne apres p is) ts) (memes_ids base p) (recalculer_lignes base p)
      ∙ map-ligne_idem base apres p ids comptes base.transactions
      ∙ sym (recalculer_lignes base p)
