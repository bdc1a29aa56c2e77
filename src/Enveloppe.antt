-- ===== src/Enveloppe.antt =====
-- src/domain/enveloppe.rs and src/repository/enveloppes.rs: the envelopes in which the user puts
-- transactions, and what was spent of each. The amounts of the rows are decrypted.
pub mod Suivi
use ch_api_budgy.Prelude.{
  ℕ, ◌+◌, Bool, true, false, not, ◌&&◌, ◌||◌, Option, none, some, List, [], ◌∷◌, ◌++◌, Result, ok,
  err, map, filter, length, ltb, ◌==◌, if◌then◌else◌, unwrap_or, is_some,
}
use ch_api_budgy.Prelude.Int.{ℤ, pos, ltb_ℤ}
use ch_api_budgy.Prelude.I64.{add_i64, sub_i64, neg_i64}
use ch_api_budgy.Prelude.Map
use ch_api_budgy.Prelude.Map.{Map, get}
use ch_api_budgy.Prelude.Sort.{sort_by}
use ch_api_budgy.Prelude.Tables.{update, affected, delete, first}
use ch_api_budgy.Texte.{Texte, trim, is_empty, text_eq, text_le}
use ch_api_budgy.Transactions.{Base, TransactionBancaire, est_a, touchees, update_where}

abbrev pub enveloppe_nom_max_len : ℕ
enveloppe_nom_max_len = 30

pub data EnveloppeValidationError : Type 0 where
  nom_vide nom_trop_long montant_negatif : EnveloppeValidationError

pub enveloppe_nom : Texte → Result EnveloppeValidationError Texte
enveloppe_nom valeur =
    let nettoye = trim valeur in
    if is_empty nettoye
    then err nom_vide
    else if ltb enveloppe_nom_max_len (length nettoye)
    then err nom_trop_long
    else ok nettoye

pub montant_enveloppe : ℤ → Result EnveloppeValidationError ℤ
montant_enveloppe cents = if ltb_ℤ cents (pos 0) then err montant_negatif else ok cents

pub record Enveloppe : Type 0 where
  pub id : ℕ
  pub proprietaire : Texte
  pub nom : Texte
  pub icon : Texte
  pub color : Texte
  pub montant_cents : ℤ
  pub created_at : ℤ

pub record NouvelleEnveloppe : Type 0 where
  pub proprietaire : Texte
  pub nom : Texte
  pub icon : Texte
  pub color : Texte
  pub montant : ℤ

pub record MiseAJourEnveloppe : Type 0 where
  pub nom : Texte
  pub icon : Texte
  pub color : Texte
  pub montant : ℤ

pub record SuiviEnveloppe : Type 0 where
  pub enveloppe : Enveloppe
  pub depense_cents : ℤ
  pub nombre_transactions : ℤ

unfoldable pub restant_cents : SuiviEnveloppe → ℤ
restant_cents s = sub_i64 s.enveloppe.montant_cents s.depense_cents

unfoldable pub depasse : SuiviEnveloppe → Bool
depasse s = ltb_ℤ (restant_cents s) (pos 0)

pub record Consommation : Type 0 where
  pub depense_cents : ℤ
  pub nombre : ℤ

abbrev pub aucune : Consommation
aucune = record { depense_cents = pos 0; nombre = pos 0 }

-- A refund gives back to the envelope.
unfoldable pub cumuler : TransactionBancaire → Consommation → Consommation
cumuler t c = record {
  depense_cents = add_i64 c.depense_cents (neg_i64 t.amount_cents);
  nombre = add_i64 c.nombre (pos 1);
}

unfoldable pub une_ligne : Option ℕ → TransactionBancaire → Map Consommation → Map Consommation
unfolding cumuler
une_ligne none t totaux = totaux
une_ligne (some e) t totaux = Map.update e aucune (cumuler t) totaux

unfoldable pub totaliser :
    Base → Texte → Map Consommation → List TransactionBancaire → Map Consommation
unfolding une_ligne
totaliser base proprietaire totaux [] = totaux
totaliser base proprietaire totaux (t ∷ ts) =
    totaliser base proprietaire
      (if est_a base proprietaire t then une_ligne t.enveloppe t totaux else totaux) ts

unfoldable pub consommations : Base → Texte → Map Consommation
unfolding totaliser
consommations base proprietaire = totaliser base proprietaire [] base.transactions

unfoldable pub suivi_de : Enveloppe → Option Consommation → SuiviEnveloppe
suivi_de e none = record { enveloppe = e; depense_cents = pos 0; nombre_transactions = pos 0 }
suivi_de e (some c) = record {
  enveloppe = e;
  depense_cents = c.depense_cents;
  nombre_transactions = c.nombre;
}

pub est_enveloppe_de : Texte → Enveloppe → Bool
est_enveloppe_de proprietaire e = text_eq e.proprietaire proprietaire

pub nom_le : Enveloppe → Enveloppe → Bool
nom_le a b = text_le a.nom b.nom

-- An envelope is met once, so that taking its total out of the map and reading it are the same.
unfoldable pub lister : List Enveloppe → Base → Texte → List SuiviEnveloppe
unfolding est_enveloppe_de nom_le
lister enveloppes base proprietaire =
    map (λ e. suivi_de e (get e.id (consommations base proprietaire)))
      (sort_by nom_le (filter (est_enveloppe_de proprietaire) enveloppes))

-- `UNIQUE (owner_id, nom)`
pub nom_pris : Texte → Texte → Enveloppe → Bool
nom_pris proprietaire nom e = text_eq e.proprietaire proprietaire && text_eq e.nom nom

-- `id` is the key that the database draws; `none` is its refusal of a name that is taken.
pub creer : List Enveloppe → NouvelleEnveloppe → ℕ → ℤ → Option (List Enveloppe × Enveloppe)
unfolding nom_pris
creer enveloppes n id now =
    let e : Enveloppe = record {
      id = id;
      proprietaire = n.proprietaire;
      nom = n.nom;
      icon = n.icon;
      color = n.color;
      montant_cents = n.montant;
      created_at = now;
    } in
    if is_some (first (nom_pris n.proprietaire n.nom) enveloppes)
    then none
    else some (enveloppes ++ e ∷ [], e)

pub est_l_enveloppe : Texte → ℕ → Enveloppe → Bool
est_l_enveloppe proprietaire id e = e.id == id && text_eq e.proprietaire proprietaire

pub changer : MiseAJourEnveloppe → Enveloppe → Enveloppe
changer m e = record e { nom = m.nom; icon = m.icon; color = m.color; montant_cents = m.montant }

pub modifiee : MiseAJourEnveloppe → Option Enveloppe → Option Enveloppe
unfolding changer
modifiee m none = none
modifiee m (some e) = some (changer m e)

-- The outer `none` is the refusal of a name that another of the owner's envelopes has.
pub modifier :
    List Enveloppe → Texte → ℕ → MiseAJourEnveloppe → Option (List Enveloppe × Option Enveloppe)
unfolding nom_pris est_l_enveloppe changer modifiee
modifier enveloppes proprietaire id m =
    let cible = first (est_l_enveloppe proprietaire id) enveloppes in
    if is_some cible
      && is_some (first (λ e. nom_pris proprietaire m.nom e && not (e.id == id)) enveloppes)
    then none
    else some (update (est_l_enveloppe proprietaire id) (changer m) enveloppes, modifiee m cible)

pub contient_enveloppe : ℕ → TransactionBancaire → Bool
contient_enveloppe id t = elim t.enveloppe [ none ↦ false | some e ↦ e == id ]

-- `ON DELETE SET NULL` frees the transactions.
pub supprimer : List Enveloppe → Base → Texte → ℕ → (List Enveloppe × Base) × Bool
unfolding est_l_enveloppe contient_enveloppe
supprimer enveloppes base proprietaire id =
    let existe = ltb 0 (affected (est_l_enveloppe proprietaire id) enveloppes) in
    (
      (
        delete (est_l_enveloppe proprietaire id) enveloppes,
        if existe
            then update_where (contient_enveloppe id) (λ t. record t { enveloppe = none }) base
            else base,
      ),
      existe,
    )

pub enveloppe_permise : List Enveloppe → Texte → Option ℕ → Bool
unfolding est_l_enveloppe
enveloppe_permise enveloppes proprietaire none = true
enveloppe_permise enveloppes proprietaire (some id) =
    is_some (first (est_l_enveloppe proprietaire id) enveloppes)

pub a_affecter : List Enveloppe → Base → Texte → ℕ → Option ℕ → TransactionBancaire → Bool
unfolding enveloppe_permise
a_affecter enveloppes base proprietaire id enveloppe t =
    t.id == id && est_a base proprietaire t && enveloppe_permise enveloppes proprietaire enveloppe

pub affecter_transaction : List Enveloppe → Base → Texte → ℕ → Option ℕ → Base × Bool
unfolding a_affecter
affecter_transaction enveloppes base proprietaire id enveloppe =
    let cond = a_affecter enveloppes base proprietaire id enveloppe in
    (
      update_where cond (λ t. record t { enveloppe = enveloppe }) base,
      ltb 0 (touchees cond base.transactions),
    )
