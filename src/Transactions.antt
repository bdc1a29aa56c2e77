-- ===== src/Transactions.antt =====
-- src/repository/bank_transactions.rs and src/domain/transaction_bancaire.rs: the table of bank
-- transactions. A row is kept decrypted, an `UPDATE … WHERE` is `mettre_a_jour`, and the join with
-- `bank_account` on the owner is `est_a`.
pub mod Lignes
pub mod Operations
pub mod Idempotence
pub mod Manuelle
pub mod Insertion
pub mod Liste
pub mod Recurrences
use ch_api_budgy.Prelude.{
  ℕ, ◌+◌, Bool, true, false, not, ◌&&◌, ◌||◌, Option, none, some, List, [], ◌∷◌, ◌++◌, map, filter,
  take, length, contains, ◌==◌, if◌then◌else◌, unwrap_or, is_some,
}
use ch_api_budgy.Prelude.Int.{ℤ, pos, leb_ℤ}
use ch_api_budgy.Prelude.Options.{or_else}
use ch_api_budgy.Prelude.Map.{Map, get}
use ch_api_budgy.Texte.{Texte, codes, text_eq, is_empty}
use ch_api_budgy.Categorie.{Category, CategoryKind, revenu, depense}
use ch_api_budgy.Regle.{RegleCategorisation, correspond, selectionner_regle}
use ch_api_budgy.Transfert.{MouvementCandidat, detecter_transferts_internes}
use ch_api_budgy.Libelle.{extraire_tiers}
use ch_api_budgy.Recurrence.{RecurrenceInterval}

-- `no_source` is the source's `None`.
pub data CategorizationSource : Type 0 where
  manual rule no_source : CategorizationSource

pub data TransactionStatus : Type 0 where
  booked pending : TransactionStatus

pub record TransactionBancaire : Type 0 where
  pub id : ℕ
  pub bank_account : ℕ
  pub external_transaction_id : Texte
  pub status : TransactionStatus
  pub label : Texte
  pub amount_cents : ℤ
  pub currency : Texte
  pub booking_date : Option ℤ
  pub value_date : Option ℤ
  pub category : Option ℕ
  pub enveloppe : Option ℕ
  pub categorization_source : CategorizationSource
  pub rule_id : Option ℕ
  pub is_recurrent : Bool
  pub recurrence_interval : Option RecurrenceInterval
  pub is_internal_transfer : Bool
  pub created_at : ℤ

-- The tables that the operations read and write: the owner of each account, the categories, the
-- rules, the transactions.
pub record Base : Type 0 where
  pub proprietaires : Map Texte
  pub categories : List Category
  pub regles : List RegleCategorisation
  pub transactions : List TransactionBancaire

pub data CategorisationTransaction : Type 0 where
  categorisee : TransactionBancaire → CategorisationTransaction
  transaction_introuvable categorie_introuvable : CategorisationTransaction

abbrev pub limite_retroactif : ℕ
limite_retroactif = 5000

-- The id of the category `Virements internes`.
abbrev pub categorie_virements_internes : ℕ
categorie_virements_internes = 0x4000_8000_000000000001

-- `date_effective`
pub date_effective : TransactionBancaire → Option ℤ
date_effective t = or_else t.booking_date t.value_date

pub est_manuelle : TransactionBancaire → Bool
est_manuelle t = elim t.categorization_source [
  | CategorizationSource.manual ↦ true
  | CategorizationSource.rule ↦ false
  | CategorizationSource.no_source ↦ false
]

pub sans_source : TransactionBancaire → Bool
sans_source t = elim t.categorization_source [
  | CategorizationSource.manual ↦ false
  | CategorizationSource.rule ↦ false
  | CategorizationSource.no_source ↦ true
]

unfoldable pub est_a : Base → Texte → TransactionBancaire → Bool
est_a base proprietaire t = elim (get t.bank_account base.proprietaires) [
  | none ↦ false
  | some p ↦ text_eq p proprietaire
]

pub mettre_a_jour :
    (TransactionBancaire → Bool)
    → (TransactionBancaire → TransactionBancaire)
    → List TransactionBancaire
    → List TransactionBancaire
mettre_a_jour cond modif [] = []
mettre_a_jour cond modif (t ∷ ts) = (if cond t then modif t else t) ∷ mettre_a_jour cond modif ts

-- `rows_affected`
pub touchees : (TransactionBancaire → Bool) → List TransactionBancaire → ℕ
touchees cond ts = length (filter cond ts)

pub update_where :
    (TransactionBancaire → Bool) → (TransactionBancaire → TransactionBancaire) → Base → Base
unfolding mettre_a_jour
update_where cond modif base = record base {
  transactions = mettre_a_jour cond modif base.transactions;
}

-- What each `UPDATE` sets, and its `WHERE` beside the owner.
pub ranger_a_la_main : ℕ → TransactionBancaire → TransactionBancaire
ranger_a_la_main category t = record t {
  category = some category;
  categorization_source = CategorizationSource.manual;
  rule_id = none;
  is_internal_transfer = category == categorie_virements_internes;
}

pub poser_regle : ℕ → Option ℕ → TransactionBancaire → TransactionBancaire
poser_regle category regle t = record t {
  category = some category;
  categorization_source = CategorizationSource.rule;
  rule_id = regle;
}

pub est_virements_internes : Option ℕ → Bool
est_virements_internes none = false
est_virements_internes (some c) = c == categorie_virements_internes

pub demarquer : TransactionBancaire → TransactionBancaire
demarquer t = record t { is_internal_transfer = false }

pub marquer : TransactionBancaire → TransactionBancaire
marquer t = record t {
  is_internal_transfer = true;
  category = if est_manuelle t then t.category else none;
  rule_id = if est_manuelle t then t.rule_id else none;
  categorization_source =
      if est_manuelle t then t.categorization_source else CategorizationSource.no_source;
}

pub trouver : (TransactionBancaire → Bool) → List TransactionBancaire → Option TransactionBancaire
trouver cond [] = none
trouver cond (t ∷ ts) = if cond t then some t else trouver cond ts

pub parmi : Texte → ℕ → List Category → Bool
parmi proprietaire category [] = false
parmi proprietaire category (c ∷ cs) =
    (c.id == category && elim c.owner_id [ none ↦ true | some o ↦ text_eq o proprietaire ])
    || parmi proprietaire category cs

pub categorie_accessible : Base → Texte → ℕ → Bool
unfolding parmi
categorie_accessible base proprietaire category = parmi proprietaire category base.categories

pub cible : Base → Texte → ℕ → ℕ → TransactionBancaire → Bool
unfolding est_a
cible base proprietaire compte transaction t =
    t.id == transaction && t.bank_account == compte && est_a base proprietaire t

-- What was updated, if anything, and what is read again after it.
pub issue : Option TransactionBancaire → Option TransactionBancaire → CategorisationTransaction
issue none relue = transaction_introuvable
issue (some _) none = transaction_introuvable
issue (some _) (some t) = categorisee t

pub fetch : Base → ℕ → Option TransactionBancaire
unfolding trouver
fetch base id = trouver (λ t. t.id == id) base.transactions

pub categoriser : Base → Texte → ℕ → ℕ → ℕ → Base × CategorisationTransaction
unfolding categorie_accessible update_where ranger_a_la_main fetch issue
categoriser base proprietaire compte transaction category =
    let cond = cible base proprietaire compte transaction in
    let suite = update_where cond (ranger_a_la_main category) base in
    if categorie_accessible base proprietaire category
    then (suite, issue (trouver cond base.transactions) (fetch suite transaction))
    else (base, categorie_introuvable)

pub appliquer_regle : Base → Texte → ℕ → RegleCategorisation → Base
unfolding update_where poser_regle est_manuelle est_a
appliquer_regle base proprietaire transaction regle =
    update_where (λ t. t.id == transaction && est_a base proprietaire t && not (est_manuelle t))
      (poser_regle regle.category_id (some regle.id)) base

-- The `UPDATE` of `appliquer_regle_par_lot` and `appliquer_categorie_defaut_par_lot`.
pub a_remplir : Base → Texte → List ℕ → TransactionBancaire → Bool
unfolding est_a sans_source
a_remplir base proprietaire ids t = contains t.id ids && est_a base proprietaire t && sans_source t

pub appliquer_regle_par_lot : Base → RegleCategorisation → List ℕ → Base × ℕ
unfolding update_where poser_regle a_remplir touchees
appliquer_regle_par_lot base regle ids =
    let cond = a_remplir base regle.owner_id ids in
    (
      update_where cond (poser_regle regle.category_id (some regle.id)) base,
      touchees cond base.transactions,
    )

pub appliquer_categorie_defaut_par_lot : Base → Texte → ℕ → List ℕ → Base × ℕ
unfolding update_where poser_regle a_remplir touchees
appliquer_categorie_defaut_par_lot base owner category ids = if is_empty ids then (base, 0) else (
  update_where (a_remplir base owner ids) (poser_regle category none) base,
  touchees (a_remplir base owner ids) base.transactions,
)

pub lister_non_categorisees : Base → Texte → List TransactionBancaire
unfolding est_a
lister_non_categorisees base proprietaire = take limite_retroactif (
    filter
      (λ t. est_a base proprietaire t && not (is_some t.category) && not t.is_internal_transfer)
      base.transactions)

pub lister_credits_non_categorises : Base → Texte → List ℕ
unfolding est_a sans_source
lister_credits_non_categorises base owner =
    map (λ t. t.id)
      (filter (λ t. leb_ℤ (pos 0) t.amount_cents)
        (take limite_retroactif (
          filter (λ t. est_a base owner t && sans_source t && not t.is_internal_transfer)
            base.transactions)))

-- The owner's category first, then one of everybody's; PostgreSQL may return any of equal rank.
salaire_de : Texte → Category → Bool
salaire_de owner c =
    text_eq c.name (codes "Salaire")
    && elim c.kind [ revenu ↦ true | depense ↦ false ]
    && text_eq (unwrap_or c.owner_id []) owner

premiere : (Category → Bool) → List Category → Option ℕ
premiere cond [] = none
premiere cond (c ∷ cs) = if cond c then some c.id else premiere cond cs

pub categorie_credit_par_defaut : Base → Texte → Option ℕ
unfolding salaire_de premiere
categorie_credit_par_defaut base owner =
    or_else (premiere (salaire_de owner) base.categories) (premiere (salaire_de []) base.categories)

-- Without a category to give, nothing is done.
pub donner_aux_credits : Base → Texte → Option ℕ → Base × ℕ
unfolding lister_credits_non_categorises appliquer_categorie_defaut_par_lot
donner_aux_credits base proprietaire none = (base, 0)
donner_aux_credits base proprietaire (some category) =
    appliquer_categorie_defaut_par_lot base proprietaire category
      (lister_credits_non_categorises base proprietaire)

pub recategoriser_credits : Base → Texte → Base × ℕ
unfolding categorie_credit_par_defaut donner_aux_credits
recategoriser_credits base proprietaire =
    donner_aux_credits base proprietaire (categorie_credit_par_defaut base proprietaire)

pub a_demarquer : Base → Texte → TransactionBancaire → Bool
unfolding est_a est_virements_internes
a_demarquer base proprietaire t =
    est_a base proprietaire t && t.is_internal_transfer && not (est_virements_internes t.category)

pub reinitialiser_transferts_internes : Base → Texte → Base
unfolding a_demarquer update_where demarquer
reinitialiser_transferts_internes base proprietaire =
    update_where (a_demarquer base proprietaire) demarquer base

pub a_marquer : Base → Texte → List ℕ → TransactionBancaire → Bool
unfolding est_a
a_marquer base proprietaire ids t =
    est_a base proprietaire t && contains t.id ids && not t.is_internal_transfer

pub marquer_transferts_internes : Base → Texte → List ℕ → Base × ℕ
unfolding a_marquer update_where marquer touchees
marquer_transferts_internes base proprietaire ids = if is_empty ids then (base, 0) else (
  update_where (a_marquer base proprietaire ids) marquer base,
  touchees (a_marquer base proprietaire ids) base.transactions,
)

pub rangee : TransactionBancaire → Bool
unfolding est_manuelle est_virements_internes
rangee t = est_manuelle t && is_some t.category && not (est_virements_internes t.category)

module _ (to_uppercase to_lowercase : Texte → Texte) where
  pub mouvement : TransactionBancaire → ℤ → MouvementCandidat
  unfolding rangee extraire_tiers
  mouvement t date = record {
    id = t.id;
    compte = t.bank_account;
    amount_cents = t.amount_cents;
    date = date;
    libelle = extraire_tiers to_uppercase t.label;
    range_a_la_main = rangee t;
  }

  pub mouvements_de : Base → Texte → List TransactionBancaire → List MouvementCandidat
  unfolding date_effective mouvement
  mouvements_de base proprietaire [] = []
  mouvements_de base proprietaire (t ∷ ts) =
      let rest = mouvements_de base proprietaire ts in
      if est_a base proprietaire t
      then elim (date_effective t) [ none ↦ rest | some date ↦ mouvement t date ∷ rest ]
      else rest

  pub lister_mouvements_pour_appariement : Base → Texte → List MouvementCandidat
  unfolding mouvements_de
  lister_mouvements_pour_appariement base proprietaire =
      mouvements_de base proprietaire base.transactions

  unfoldable pub recalculer_transferts_internes : Base → Texte → Base × ℕ
  unfolding lister_mouvements_pour_appariement reinitialiser_transferts_internes
      marquer_transferts_internes
  recalculer_transferts_internes base proprietaire =
      let ids =
        detecter_transferts_internes to_uppercase
          (lister_mouvements_pour_appariement base proprietaire) in
      marquer_transferts_internes (reinitialiser_transferts_internes base proprietaire) proprietaire
        ids

  pub appliquer_regle_retroactif : Base → RegleCategorisation → Base × ℕ
  unfolding lister_non_categorisees appliquer_regle_par_lot correspond
  appliquer_regle_retroactif base regle =
      let cibles =
        map (λ t. t.id)
          (filter (λ t. correspond to_uppercase to_lowercase regle t.label)
            (lister_non_categorisees base regle.owner_id)) in
      if is_empty cibles then (base, 0) else appliquer_regle_par_lot base regle cibles

  -- The rules of the owner, on the label of the transaction that was just inserted.
  pub categoriser_transaction_inseree : Base → ℕ → ℕ → Texte → Base
  unfolding appliquer_regle
  categoriser_transaction_inseree base bank_account transaction label =
      elim (get bank_account base.proprietaires) [
        | none ↦ base
        | some proprietaire ↦
            elim (selectionner_regle to_uppercase to_lowercase label
              (filter (λ r. text_eq r.owner_id proprietaire) base.regles)) [
                | none ↦ base
                | some regle ↦ appliquer_regle base proprietaire transaction regle
              ]
      ]
