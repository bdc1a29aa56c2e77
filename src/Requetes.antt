-- ===== src/Requetes.antt =====
-- src/handlers/transactions.rs and src/handlers/enveloppes.rs: what these requests ask of the tables,
-- and what they answer. The owner is the authenticated user.
use ch_api_budgy.Prelude.{
  ℕ, ◌+◌, Option, none, some, List, [], ◌∷◌, Result, ok, err, ◌==◌, if◌then◌else◌, unwrap_or,
}
use ch_api_budgy.Prelude.Int.{ℤ, pos}
use ch_api_budgy.Prelude.Tables.{first}
use ch_api_budgy.Texte.{Texte, codes}
use ch_api_budgy.Regle.{RegleCategorisation}
use ch_api_budgy.Categories.{valeur_non_vide_ou, lister_regles}
use ch_api_budgy.Transactions.{
  Base, recalculer_transferts_internes, appliquer_regle_retroactif, recategoriser_credits,
}
use ch_api_budgy.Transactions.Liste.{
  SensTransaction, entree, sortie, ChampTriTransaction, OrdreTri, TriTransactions,
}
use ch_api_budgy.Enveloppe.{
  Enveloppe, EnveloppeValidationError, SuiviEnveloppe, enveloppe_nom, montant_enveloppe, lister,
  creer, modifier, supprimer, affecter_transaction,
}

pub data TransactionKindFilter : Type 0 where
  credit debit : TransactionKindFilter

pub data TransactionSortField : Type 0 where
  par_date par_montant : TransactionSortField

pub data SortDirection : Type 0 where
  asc desc : SortDirection

unfoldable pub sens_filtre : Option TransactionKindFilter → Option SensTransaction
sens_filtre none = none
sens_filtre (some credit) = some entree
sens_filtre (some debit) = some sortie

unfoldable pub champ_de : TransactionSortField → ChampTriTransaction
champ_de par_date = ChampTriTransaction.date
champ_de par_montant = ChampTriTransaction.montant

unfoldable pub ordre_de : SortDirection → OrdreTri
ordre_de asc = OrdreTri.ascendant
ordre_de desc = OrdreTri.descendant

-- The latest first, unless something else is asked for.
unfoldable pub tri : Option TransactionSortField → Option SortDirection → TriTransactions
unfolding champ_de ordre_de
tri sort order = record {
  champ = champ_de (unwrap_or sort par_date);
  ordre = ordre_de (unwrap_or order desc);
}

module _ (to_uppercase to_lowercase : Texte → Texte) where
  -- The loop over the rules, with the number of transactions that they put away.
  unfoldable pub appliquer_les_regles : Base → ℕ → List RegleCategorisation → Base × ℕ
  appliquer_les_regles base n [] = (base, n)
  appliquer_les_regles base n (r ∷ rs) =
      let apres = appliquer_regle_retroactif to_uppercase to_lowercase base r in
      appliquer_les_regles apres.0 (n + apres.1) rs

  -- The handler `recategoriser_credits`: transfers, then rules, then credits.
  unfoldable pub reconcilier : Base → Texte → Base × ℕ
  unfolding appliquer_les_regles
  reconcilier base proprietaire =
      let appariee = recalculer_transferts_internes to_uppercase to_lowercase base proprietaire in
      let rangee = appliquer_les_regles appariee.0 0 (lister_regles appariee.0 proprietaire) in
      let creditee = recategoriser_credits rangee.0 proprietaire in
      (creditee.0, rangee.1 + creditee.1)

pub record EnveloppeRequest : Type 0 where
  pub nom : Texte
  pub icon : Option Texte
  pub color : Option Texte
  pub montant_cents : ℤ

-- `ApiError`: the field refused, the write refused, or a 404.
pub data RequeteRefusee : Type 0 where
  validation : EnveloppeValidationError → RequeteRefusee
  ecriture introuvable : RequeteRefusee

pub record EnveloppeLue : Type 0 where
  pub nom : Texte
  pub montant : ℤ
  pub icon : Texte
  pub color : Texte

pub avec_montant :
    EnveloppeRequest
    → Texte
    → Result EnveloppeValidationError ℤ
    → Result RequeteRefusee EnveloppeLue
avec_montant payload nom (err e) = err (validation e)
avec_montant payload nom (ok montant) = ok (record {
  nom = nom;
  montant = montant;
  icon = valeur_non_vide_ou payload.icon (codes "wallet");
  color = valeur_non_vide_ou payload.color (codes "#5E35B1");
})

pub avec_nom :
    EnveloppeRequest → Result EnveloppeValidationError Texte → Result RequeteRefusee EnveloppeLue
unfolding avec_montant
avec_nom payload (err e) = err (validation e)
avec_nom payload (ok nom) = avec_montant payload nom (montant_enveloppe payload.montant_cents)

unfoldable pub parse_requete : EnveloppeRequest → Result RequeteRefusee EnveloppeLue
unfolding avec_nom
parse_requete payload = avec_nom payload (enveloppe_nom payload.nom)

unfoldable pub sans_depense : Enveloppe → SuiviEnveloppe
sans_depense e = record { enveloppe = e; depense_cents = pos 0; nombre_transactions = pos 0 }

pub creation :
    List Enveloppe
    → Option (List Enveloppe × Enveloppe)
    → List Enveloppe × Result RequeteRefusee SuiviEnveloppe
unfolding sans_depense
creation enveloppes none = (enveloppes, err ecriture)
creation enveloppes (some (apres, e)) = (apres, ok (sans_depense e))

unfoldable pub create_enveloppe :
    List Enveloppe
    → Texte
    → EnveloppeRequest
    → ℕ
    → ℤ
    → List Enveloppe × Result RequeteRefusee SuiviEnveloppe
unfolding parse_requete creation
create_enveloppe enveloppes proprietaire payload id now = elim (parse_requete payload) [
  | err e ↦ (enveloppes, err e)
  | ok lue ↦ creation enveloppes (
      creer enveloppes
        (record {
          proprietaire = proprietaire;
          nom = lue.nom;
          icon = lue.icon;
          color = lue.color;
          montant = lue.montant;
        })
        id now)
]

-- The consumption is read again: another amount leaves something else.
pub modification :
    List Enveloppe
    → Base
    → Texte
    → Option (List Enveloppe × Option Enveloppe)
    → List Enveloppe × Result RequeteRefusee SuiviEnveloppe
unfolding sans_depense
modification enveloppes base proprietaire none = (enveloppes, err ecriture)
modification enveloppes base proprietaire (some (apres, none)) = (apres, err introuvable)
modification enveloppes base proprietaire (some (apres, some e)) = (
  apres,
  ok (
      unwrap_or (first (λ s. s.enveloppe.id == e.id) (lister apres base proprietaire))
        (sans_depense e)),
)

unfoldable pub update_enveloppe :
    List Enveloppe
    → Base
    → Texte
    → ℕ
    → EnveloppeRequest
    → List Enveloppe × Result RequeteRefusee SuiviEnveloppe
unfolding parse_requete modification
update_enveloppe enveloppes base proprietaire id payload = elim (parse_requete payload) [
  | err e ↦ (enveloppes, err e)
  | ok lue ↦ modification enveloppes base proprietaire (
      modifier enveloppes proprietaire id
        (record { nom = lue.nom; icon = lue.icon; color = lue.color; montant = lue.montant }))
]

unfoldable pub delete_enveloppe :
    List Enveloppe → Base → Texte → ℕ → (List Enveloppe × Base) × Result {0, 0} RequeteRefusee Unit
delete_enveloppe enveloppes base proprietaire id =
    let r = supprimer enveloppes base proprietaire id in
    (r.0, if r.1 then ok tt else err introuvable)

-- The handler `affecter_transaction`.
unfoldable pub affecter :
    List Enveloppe → Base → Texte → ℕ → Option ℕ → Base × Result {0, 0} RequeteRefusee Unit
affecter enveloppes base proprietaire transaction enveloppe =
    let r = affecter_transaction enveloppes base proprietaire transaction enveloppe in
    (r.0, if r.1 then ok tt else err introuvable)
