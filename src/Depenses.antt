-- ===== src/Depenses.antt =====
-- src/repository/depenses.rs: what was spent or received in a cycle, by category. The cycle is given
-- by its first day and the day after its last; the amounts of the rows are decrypted.
use ch_api_budgy.Prelude.{
  ℕ, Bool, true, false, not, ◌&&◌, ◌||◌, Option, none, some, List, [], ◌∷◌, map, filter, ◌==◌,
  if◌then◌else◌,
}
use ch_api_budgy.Prelude.Int.{ℤ, pos, ltb_ℤ, leb_ℤ, eqb_ℤ}
use ch_api_budgy.Prelude.I64.{add_i64, abs_i64}
use ch_api_budgy.Prelude.Sort.{sort_by}
use ch_api_budgy.Prelude.Tables.{first}
use ch_api_budgy.Texte.{Texte, text_eq, text_le}
use ch_api_budgy.Categorie.{Category}
use ch_api_budgy.Agregation.{LigneDepenseCategorie, RepartitionDepenses}
use ch_api_budgy.Transactions.{Base, TransactionBancaire, date_effective, est_a}

pub data Sens : Type 0 where
  debit credit : Sens

pub retient : Sens → ℤ → Bool
retient debit montant = ltb_ℤ montant (pos 0)
retient credit montant = ltb_ℤ (pos 0) montant

abbrev pub Totaux : Type 0
Totaux = List (Option ℕ × ℤ)

pub meme_cle : Option ℕ → Option ℕ → Bool
meme_cle none none = true
meme_cle none (some b) = false
meme_cle (some a) none = false
meme_cle (some a) (some b) = a == b

-- `*totaux.entry(category_id).or_insert(0) += montant.abs()`
pub ajouter : Option ℕ → ℤ → Totaux → Totaux
unfolding meme_cle
ajouter cle montant [] = (cle, add_i64 (pos 0) (abs_i64 montant)) ∷ []
ajouter cle montant ((k, v) ∷ reste) = elim (meme_cle k cle) [
  | true ↦ (k, add_i64 v (abs_i64 montant)) ∷ reste
  | false ↦ (k, v) ∷ ajouter cle montant reste
]

pub dans_le_cycle : ℤ → ℤ → TransactionBancaire → Bool
dans_le_cycle debut fin_exclue t = elim (date_effective t) [
  | none ↦ false
  | some d ↦ leb_ℤ debut d && ltb_ℤ d fin_exclue
]

-- The `WHERE`.
pub du_cycle : Base → Texte → ℤ → ℤ → TransactionBancaire → Bool
unfolding dans_le_cycle
du_cycle base proprietaire debut fin_exclue t =
    est_a base proprietaire t && not t.is_internal_transfer && dans_le_cycle debut fin_exclue t

pub cumuler : Sens → Totaux → List TransactionBancaire → Totaux
unfolding ajouter retient
cumuler sens totaux [] = totaux
cumuler sens totaux (t ∷ ts) =
    cumuler sens
      (if retient sens t.amount_cents then ajouter t.category t.amount_cents totaux else totaux) ts

pub montants_par_categorie : Base → Texte → ℤ → ℤ → Sens → Totaux
unfolding cumuler du_cycle
montants_par_categorie base proprietaire debut fin_exclue sens =
    cumuler sens [] (filter (du_cycle base proprietaire debut fin_exclue) base.transactions)

-- `WHERE owner_id IS NULL OR owner_id = …`
pub est_visible : Texte → Category → Bool
est_visible proprietaire c = elim c.owner_id [ none ↦ true | some p ↦ text_eq p proprietaire ]

pub categorie_de : List Category → Option ℕ → Option Category
categorie_de categories none = none
categorie_de categories (some id) = first (λ c. c.id == id) categories

pub somme : ℤ → Totaux → ℤ
somme acc [] = acc
somme acc ((k, v) ∷ reste) = somme (add_i64 acc v) reste

-- `ordre_categorie`: the lines without a category come last.
pub ordre_categorie : Option Category → Option Category → Bool
ordre_categorie (some a) (some b) = text_le a.name b.name
ordre_categorie (some a) none = true
ordre_categorie none (some b) = false
ordre_categorie none none = true

pub ligne_le : LigneDepenseCategorie → LigneDepenseCategorie → Bool
unfolding ordre_categorie
ligne_le a b =
    ltb_ℤ b.montant_cents a.montant_cents
    || (eqb_ℤ a.montant_cents b.montant_cents && ordre_categorie a.category b.category)

pub trier_par_montant_decroissant : List LigneDepenseCategorie → List LigneDepenseCategorie
unfolding ligne_le
trier_par_montant_decroissant lignes = sort_by ligne_le lignes

pub ligne_de : List Category → Option ℕ × ℤ → LigneDepenseCategorie
unfolding categorie_de
ligne_de categories total = record {
  category = categorie_de categories total.0;
  montant_cents = total.1;
}

-- Without any total, the sum is zero and there are no lines.
pub repartition : Base → Texte → ℤ → ℤ → Sens → RepartitionDepenses
unfolding montants_par_categorie somme est_visible trier_par_montant_decroissant ligne_de
repartition base proprietaire debut fin_exclue sens =
    let totaux = montants_par_categorie base proprietaire debut fin_exclue sens in
    let categories = filter (est_visible proprietaire) base.categories in
    record {
      total_cents = somme (pos 0) totaux;
      lignes = trier_par_montant_decroissant (map (ligne_de categories) totaux);
    }

pub repartition_mensuelle_par_categorie : Base → Texte → ℤ → ℤ → RepartitionDepenses
unfolding repartition
repartition_mensuelle_par_categorie base proprietaire debut fin_exclue =
    repartition base proprietaire debut fin_exclue debit

pub repartition_mensuelle_revenus_par_categorie : Base → Texte → ℤ → ℤ → RepartitionDepenses
unfolding repartition
repartition_mensuelle_revenus_par_categorie base proprietaire debut fin_exclue =
    repartition base proprietaire debut fin_exclue credit
