-- ===== src/Categories.antt =====
-- src/repository/categories.rs, src/repository/regles_categorisation.rs and the names of
-- src/domain/category.rs: the categories and the rules that a user writes.
use ch_api_budgy.Prelude.{
  ℕ, Bool, true, false, not, ◌&&◌, ◌||◌, Option, none, some, List, [], ◌∷◌, ◌++◌, Result, ok, err,
  map, filter, length, ltb, ◌==◌, if◌then◌else◌, is_some,
}
use ch_api_budgy.Prelude.Int.{ℤ, ltb_ℤ, leb_ℤ, eqb_ℤ}
use ch_api_budgy.Prelude.Sort.{sort_by}
use ch_api_budgy.Prelude.Tables.{update, affected, delete, first}
use ch_api_budgy.Texte.{Texte, codes, trim, is_empty, text_eq, text_le}
use ch_api_budgy.Categorie.{Category, CategoryKind, depense, revenu}
use ch_api_budgy.Depenses.{est_visible}
use ch_api_budgy.Regle.{RegleCategorisation}
use ch_api_budgy.Transactions.{Base, CategorizationSource, TransactionBancaire}

abbrev pub category_name_max_len : ℕ
category_name_max_len = 30

pub data CategoryValidationError : Type 0 where
  nom_vide nom_trop_long : CategoryValidationError

unfoldable pub category_name : Texte → Result CategoryValidationError Texte
category_name value =
    let trimmed = trim value in
    if is_empty trimmed
    then err nom_vide
    else if ltb category_name_max_len (length trimmed)
    then err nom_trop_long
    else ok trimmed

pub as_str : CategoryKind → Texte
as_str revenu = codes "revenu"
as_str depense = codes "depense"

pub parse : Texte → Option CategoryKind
parse value =
    if text_eq value (codes "revenu")
    then some revenu
    else if text_eq value (codes "depense")
    then some depense
    else none

pub valeur_non_vide_ou : Option Texte → Texte → Texte
valeur_non_vide_ou none defaut = defaut
valeur_non_vide_ou (some v) defaut = if is_empty (trim v) then defaut else trim v

pub couleur_ou_defaut : Option Texte → Texte
unfolding valeur_non_vide_ou
couleur_ou_defaut color = valeur_non_vide_ou color (codes "#607D8B")

pub icone_ou_defaut : Option Texte → Texte
unfolding valeur_non_vide_ou
icone_ou_defaut icon = valeur_non_vide_ou icon (codes "tag")

pub record NouvelleCategorie : Type 0 where
  pub proprietaire : Texte
  pub name : Texte
  pub kind : CategoryKind
  pub color : Texte
  pub icon : Texte

pub record MiseAJourCategorie : Type 0 where
  pub name : Texte
  pub kind : CategoryKind
  pub color : Texte
  pub icon : Texte

pub record CategorieAvecCompteur : Type 0 where
  pub category : Category
  pub transaction_count : ℕ

pub porte : ℕ → TransactionBancaire → Bool
porte id t = elim t.category [ none ↦ false | some c ↦ c == id ]

-- The count is that of the whole table, whoever owns the transactions.
pub avec_compteur : Base → Category → CategorieAvecCompteur
unfolding porte
avec_compteur base c = record {
  category = c;
  transaction_count = length (filter (porte c.id) base.transactions);
}

-- `ORDER BY kind, name`, the kind by its text.
pub categorie_le : Category → Category → Bool
unfolding as_str
categorie_le a b =
    not (text_le (as_str b.kind) (as_str a.kind))
    || (text_eq (as_str a.kind) (as_str b.kind) && text_le a.name b.name)

pub lister_pour_proprietaire : Base → Texte → List CategorieAvecCompteur
unfolding avec_compteur categorie_le
lister_pour_proprietaire base proprietaire =
    map (avec_compteur base)
      (sort_by categorie_le (filter (est_visible proprietaire) base.categories))

-- `id` is the key that the database draws.
pub creer : Base → NouvelleCategorie → ℕ → ℤ → Base × Category
creer base n id now =
    let c : Category = record {
      id = id;
      owner_id = some n.proprietaire;
      name = n.name;
      kind = n.kind;
      color = n.color;
      icon = n.icon;
      created_at = now;
    } in
    (record base { categories = base.categories ++ c ∷ [] }, c)

-- `WHERE id = … AND owner_id = …`: a default category has no owner.
pub est_la_categorie : Texte → ℕ → Category → Bool
est_la_categorie proprietaire id c =
    c.id == id && elim c.owner_id [ none ↦ false | some p ↦ text_eq p proprietaire ]

pub changer : MiseAJourCategorie → Category → Category
changer m c = record c { name = m.name; kind = m.kind; color = m.color; icon = m.icon }

pub mettre_a_jour : Base → Texte → ℕ → MiseAJourCategorie → Base × Option Category
unfolding est_la_categorie changer
mettre_a_jour base proprietaire id m = (
  record base {
    categories = update (est_la_categorie proprietaire id) (changer m) base.categories;
  },
  elim (first (est_la_categorie proprietaire id) base.categories) [
    | none ↦ none
    | some c ↦ some (changer m c)
  ],
)

pub liberer : TransactionBancaire → TransactionBancaire
liberer t = record t {
  category = none;
  categorization_source = CategorizationSource.no_source;
  rule_id = none;
}

-- The trigger and `ON DELETE` free the transactions and delete the rules of the category.
pub supprimer : Base → Texte → ℕ → Base × Bool
unfolding est_la_categorie porte liberer
supprimer base proprietaire id =
    let cond = est_la_categorie proprietaire id in
    if ltb 0 (affected cond base.categories)
    then (
      record base {
        categories = delete cond base.categories;
        regles = delete (λ r. r.category_id == id) base.regles;
        transactions = update (porte id) liberer base.transactions;
      },
      true,
    )
    else (base, false)

pub record NouvelleRegleCategorisation : Type 0 where
  pub proprietaire : Texte
  pub label_pattern : Texte
  pub category_id : ℕ
  pub priority : ℤ

-- A rule gives a category that the owner may use.
pub creer_regle : Base → NouvelleRegleCategorisation → ℕ → ℤ → Base × Option RegleCategorisation
creer_regle base n id now =
    let r : RegleCategorisation = record {
      id = id;
      owner_id = n.proprietaire;
      label_pattern = n.label_pattern;
      category_id = n.category_id;
      priority = n.priority;
      created_at = now;
    } in
    if is_some (first (λ c. c.id == n.category_id && est_visible n.proprietaire c) base.categories)
    then (record base { regles = base.regles ++ r ∷ [] }, some r)
    else (base, none)

-- `ORDER BY priority DESC, created_at DESC`
pub regle_le : RegleCategorisation → RegleCategorisation → Bool
regle_le a b =
    ltb_ℤ b.priority a.priority || (eqb_ℤ a.priority b.priority && leb_ℤ b.created_at a.created_at)

pub lister_regles : Base → Texte → List RegleCategorisation
unfolding regle_le
lister_regles base proprietaire =
    sort_by regle_le (filter (λ r. text_eq r.owner_id proprietaire) base.regles)
