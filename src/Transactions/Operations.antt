-- ===== src/Transactions/Operations.antt =====
-- What the operations of src/repository/bank_transactions.rs leave as it was.
use ch_api_budgy.Prelude.{
  ℕ, ◌≡◌, refl, ◌∙◌, Bool, true, false, not, ◌&&◌, Option, none, some, List, [], ◌∷◌, arith,
  if◌then◌else◌, ◌==◌,
}
use mathlib.Core.Path.{subst}
use ch_api_budgy.Texte.{Texte, is_empty}
use ch_api_budgy.Regle.{RegleCategorisation}
use ch_api_budgy.Transactions.{
  Base, TransactionBancaire, est_a, est_manuelle, sans_source, poser_regle, demarquer, marquer,
  a_remplir, a_demarquer, a_marquer, update_where, appliquer_regle, recategoriser_credits,
  categorie_credit_par_defaut, donner_aux_credits, lister_credits_non_categorises,
  reinitialiser_transferts_internes, marquer_transferts_internes, recalculer_transferts_internes,
  appliquer_regle_retroactif,
}
use ch_api_budgy.Transactions.Lignes.{
  choix, choix_manuels, autres, update_where-choix_manuels, update_where-autres,
}

-- An operation for one owner leaves the choices of the users, and the rows of the other owners.
pub record Respecte (proprietaire : Texte) (avant apres : Base) : Type 0 where
  pub choix_gardes : choix_manuels apres ≡ choix_manuels avant
  pub autres_gardes : autres apres proprietaire ≡ autres avant proprietaire
  pub comptes_gardes : apres.proprietaires ≡ avant.proprietaires

Respecte-rien : (p : Texte) (base : Base) → Respecte p base base
Respecte-rien p base = record { choix_gardes = refl; autres_gardes = refl; comptes_gardes = refl }

Respecte-suite : (p : Texte) (a b c : Base) → Respecte p a b → Respecte p b c → Respecte p a c
Respecte-suite p a b c h k = record {
  choix_gardes = k.choix_gardes ∙ h.choix_gardes;
  autres_gardes = k.autres_gardes ∙ h.autres_gardes;
  comptes_gardes = k.comptes_gardes ∙ h.comptes_gardes;
}

update_where-Respecte :
    (base : Base) (p : Texte) (cond : TransactionBancaire → Bool)
    (modif : TransactionBancaire → TransactionBancaire)
    → ((t : TransactionBancaire) → cond t ≡ true → choix (modif t) ≡ choix t)
    → ((t : TransactionBancaire) → cond t ≡ true → est_a base p t ≡ true)
    → ((t : TransactionBancaire) → (modif t).bank_account ≡ t.bank_account)
    → Respecte p base (update_where cond modif base)
unfolding update_where
update_where-Respecte base p cond modif h k l = record {
  choix_gardes = update_where-choix_manuels cond modif h base;
  autres_gardes = update_where-autres base p cond modif k l;
  comptes_gardes = refl;
}

poser_regle-choix :
    (c : ℕ) (r : Option ℕ) (t : TransactionBancaire)
    → est_manuelle t ≡ false
    → choix (poser_regle c r t) ≡ choix t
unfolding poser_regle est_manuelle
poser_regle-choix c r t e = ground arith

demarquer-choix : (t : TransactionBancaire) → choix (demarquer t) ≡ choix t
unfolding demarquer
demarquer-choix t = refl

marquer-choix : (t : TransactionBancaire) → choix (marquer t) ≡ choix t
unfolding marquer est_manuelle
marquer-choix t = ground arith

sans_source-est_manuelle : (t : TransactionBancaire) → sans_source t ≡ true → est_manuelle t ≡ false
unfolding sans_source est_manuelle
sans_source-est_manuelle t e = ground arith

appliquer_regle-Respecte :
    (base : Base) (p : Texte) (id : ℕ) (regle : RegleCategorisation)
    → Respecte p base (appliquer_regle base p id regle)
unfolding appliquer_regle
appliquer_regle-Respecte base p id regle =
    update_where-Respecte base p (λ t. t.id == id && est_a base p t && not (est_manuelle t))
      (poser_regle regle.category_id (some regle.id))
      (λ t e. poser_regle-choix regle.category_id (some regle.id) t (ground arith))
      (λ t e. ground arith) (λ t. unfold poser_regle in refl)

a_remplir-Respecte :
    (base : Base) (p : Texte) (ids : List ℕ) (c : ℕ) (r : Option ℕ)
    → Respecte p base (update_where (a_remplir base p ids) (poser_regle c r) base)
unfolding a_remplir
a_remplir-Respecte base p ids c r =
    update_where-Respecte base p (a_remplir base p ids) (poser_regle c r)
      (λ t e. poser_regle-choix c r t (sans_source-est_manuelle t (ground arith)))
      (λ t e. ground arith) (λ t. unfold poser_regle in refl)

si-Respecte :
    (p : Texte) (base : Base) (b : Bool) (x : Base × ℕ)
    → Respecte p base x.0
    → Respecte p base (if b then (base, 0) else x).0
si-Respecte p base true x h = Respecte-rien p base
si-Respecte p base false x h = h

donner_aux_credits-Respecte :
    (base : Base) (p : Texte) (o : Option ℕ) → Respecte p base (donner_aux_credits base p o).0
unfolding donner_aux_credits
donner_aux_credits-Respecte base p none = Respecte-rien p base
donner_aux_credits-Respecte base p (some c) =
    si-Respecte p base (is_empty (lister_credits_non_categorises base p)) _
      (a_remplir-Respecte base p (lister_credits_non_categorises base p) c none)

recategoriser_credits-Respecte :
    (base : Base) (p : Texte) → Respecte p base (recategoriser_credits base p).0
unfolding recategoriser_credits
recategoriser_credits-Respecte base p =
    donner_aux_credits-Respecte base p (categorie_credit_par_defaut base p)

reinitialiser-Respecte :
    (base : Base) (p : Texte) → Respecte p base (reinitialiser_transferts_internes base p)
unfolding reinitialiser_transferts_internes
reinitialiser-Respecte base p =
    update_where-Respecte base p (a_demarquer base p) demarquer (λ t e. demarquer-choix t)
      (λ t e. unfold a_demarquer in ground arith) (λ t. unfold demarquer in refl)

marquer-Respecte :
    (base : Base) (p : Texte) (ids : List ℕ)
    → Respecte p base (marquer_transferts_internes base p ids).0
unfolding marquer_transferts_internes
marquer-Respecte base p [] = Respecte-rien p base
marquer-Respecte base p (i ∷ ids) =
    update_where-Respecte base p (a_marquer base p (i ∷ ids)) marquer (λ t e. marquer-choix t)
      (λ t e. unfold a_marquer in ground arith) (λ t. unfold marquer in refl)

module _ (maj min : Texte → Texte) where
  recalculer-Respecte :
      (base : Base) (p : Texte) → Respecte p base (recalculer_transferts_internes maj min base p).0
  unfolding recalculer_transferts_internes
  recalculer-Respecte base p =
      Respecte-suite p base (reinitialiser_transferts_internes base p) _
        (reinitialiser-Respecte base p)
        (marquer-Respecte (reinitialiser_transferts_internes base p) p _)

  appliquer_regle_retroactif-Respecte :
      (base : Base) (r : RegleCategorisation)
      → Respecte r.owner_id base (appliquer_regle_retroactif maj min base r).0
  unfolding appliquer_regle_retroactif
  appliquer_regle_retroactif-Respecte base r =
      si-Respecte r.owner_id base _ _
        (a_remplir-Respecte base r.owner_id _ r.category_id (some r.id))

  -- The operations that the program runs by itself, for one owner.
  pub data Automatique (p : Texte) : Base → Base → Type 0 where
    regle_appliquee :
        (base : Base) (id : ℕ) (r : RegleCategorisation)
        → Automatique p base (appliquer_regle base p id r)
    regle_retroactive :
        (base : Base) (r : RegleCategorisation)
        → r.owner_id ≡ p
        → Automatique p base (appliquer_regle_retroactif maj min base r).0
    credits_recategorises : (base : Base) → Automatique p base (recategoriser_credits base p).0
    transferts_recalcules :
        (base : Base) → Automatique p base (recalculer_transferts_internes maj min base p).0

  -- Any number of them, in any order.
  pub data Automatiques (p : Texte) : Base → Base → Type 0 where
    aucune : (base : Base) → Automatiques p base base
    encore : (a b c : Base) → Automatiques p a b → Automatique p b c → Automatiques p a c

  pub Automatique-Respecte : (p : Texte) (a b : Base) → Automatique p a b → Respecte p a b
  Automatique-Respecte p a _ (regle_appliquee _ id r) = appliquer_regle-Respecte a p id r
  Automatique-Respecte p a _ (regle_retroactive _ r e) =
      subst (λ q. Respecte q a (appliquer_regle_retroactif maj min a r).0) e
        (appliquer_regle_retroactif-Respecte a r)
  Automatique-Respecte p a _ (credits_recategorises _) = recategoriser_credits-Respecte a p
  Automatique-Respecte p a _ (transferts_recalcules _) = recalculer-Respecte a p

  -- Whatever the program does by itself for an owner (a rule applied to a transaction or to the
  -- past, credits made salaries, transfers recomputed), in any order and any number of times, it
  -- changes no category and no rule that a user chose, it makes up no such choice, and it leaves
  -- every transaction of another owner as it is.
  pub Automatiques-Respecte : (p : Texte) (a b : Base) → Automatiques p a b → Respecte p a b
  Automatiques-Respecte p a _ (aucune _) = Respecte-rien p a
  Automatiques-Respecte p a c (encore _ b _ h e) =
      Respecte-suite p a b c (Automatiques-Respecte p a b h) (Automatique-Respecte p b c e)
