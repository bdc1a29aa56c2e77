-- ===== src/Banques/Isolement.antt =====
-- Completing a consent, src/handlers/banques.rs, leaves everybody else's rows alone.
use mathlib.Core.Path.{subst}
use ch_api_budgy.Prelude.{
  ℕ, suc, ◌≡◌, refl, sym, ap, ◌∙◌, Bool, true, false, not, ◌&&◌, inl, inr, Option, none, some, List,
  [], ◌∷◌, ◌++◌, Result, ok, err, filter, Bool-cases, Option-cases, arith, ◌==◌,
}
use ch_api_budgy.Prelude.Int.{ℤ}
use ch_api_budgy.Prelude.Tables.{filter-ajout, filter-update}
use ch_api_budgy.Texte.{Texte, text_eq, trim}
use ch_api_budgy.Texte.Ordre.{text_eq_iff}
use ch_api_budgy.Synchro.{BankAccount, BankDataSourceError, Consent, ConsentStatus}
use ch_api_budgy.Comptes.{BankAccountRow, Banque, est_du_proprietaire}
use ch_api_budgy.Comptes.Rattachement.{id_par_dedup, insert, ligne_rattachee, un_consent}
use ch_api_budgy.Consents.{
  est_consent_de, est_le_consent, fetch_pour_proprietaire, marquer_statut_proprietaire,
  mettre_a_jour, modifier, poser_statut,
}
use ch_api_budgy.Banques.{
  Contexte, a_rattacher, activer, apres_autorisation, apres_comptes, apres_controle,
  apres_rattachement, complete_consent, completer, echec_consentement, est_en_attente,
  premier_concurrent, rattacher,
}

-- The consents and the accounts of everybody else.
abbrev pub consents_des_autres : Texte → Banque → List Consent
consents_des_autres p banque = filter (λ c. not (est_consent_de p c)) banque.consents

abbrev pub comptes_des_autres : Texte → Banque → List BankAccountRow
comptes_des_autres p banque = filter (λ r. not (est_du_proprietaire p r)) banque.comptes

abbrev pub Intacts : Texte → Banque → Banque → Type 0
Intacts p banque banque' =
    (consents_des_autres p banque' ≡ consents_des_autres p banque)
    × (comptes_des_autres p banque' ≡ comptes_des_autres p banque)

puis : (p : Texte) (a b c : Banque) → Intacts p a b → Intacts p b c → Intacts p a c
puis p a b c f g = (g.0 ∙ f.0, g.1 ∙ f.1)

modifier-Intacts :
    (p : Texte) (id : ℕ) (modif : Consent → Consent)
    → ((c : Consent) → (modif c).proprietaire ≡ c.proprietaire)
    → (banque : Banque) → Intacts p banque (modifier (est_le_consent p id) modif banque)
unfolding modifier est_le_consent est_consent_de
modifier-Intacts p id modif h banque = (
  filter-update (λ c. not (text_eq c.proprietaire p)) (λ c. c.id == id && text_eq c.proprietaire p)
      modif (λ c e. ground (arith, e)) (λ c. ap (λ u. not (text_eq u p)) (h c)) banque.consents,
  refl,
)

module _ (c : Contexte) (p : Texte) where
  echec-Intacts :
      (id : ℕ) (now : ℤ) (banque : Banque) → Intacts p banque (echec_consentement c banque p id now)
  unfolding echec_consentement marquer_statut_proprietaire poser_statut
  echec-Intacts id now banque =
      modifier-Intacts p id (poser_statut ConsentStatus.failed now) (λ d. refl) banque

  activer-Intacts :
      (id : ℕ) (actif : Consent) (now : ℤ) (banque : Banque)
      → Intacts p banque (activer c banque p id actif now)
  unfolding activer mettre_a_jour
  activer-Intacts id actif now banque = modifier-Intacts p id _ (λ d. refl) banque

  -- `insert`, when it answers.
  abbrev InsereIntacts : Banque → Option (Banque × ℕ) → Type 0
  InsereIntacts banque none = Unit
  InsereIntacts banque (some b) = Intacts p banque b.0

  ajout-Intacts :
      (banque : Banque) (compte : BankAccount) (id : ℕ) (k : ℕ) (now : ℤ)
      → Intacts p banque (record banque {
        comptes =
            banque.comptes
            ++ ligne_rattachee c.dedup_key c.empreinte_compte (a_rattacher c p id compte) k now
              ∷ [];
      })
  unfolding ligne_rattachee a_rattacher est_du_proprietaire
  ajout-Intacts banque compte id k now = (
    refl,
    filter-ajout (λ r. not (est_du_proprietaire p r)) banque.comptes
        (ligne_rattachee c.dedup_key c.empreinte_compte (a_rattacher c p id compte) k now)
        (ap not ((text_eq_iff p p).1 refl)),
  )

  insert-Intacts :
      (banque : Banque) (compte : BankAccount) (id : ℕ) (k : ℕ) (now : ℤ)
      → InsereIntacts banque
          (insert c.dedup_key c.empreinte_compte banque (a_rattacher c p id compte) k now)
  unfolding insert
  insert-Intacts banque compte id k now =
      let n = a_rattacher c p id compte in
      elim (Option-cases
        (id_par_dedup banque n.consent (c.dedup_key n.consent n.external_account_id))) [
          | inl e ↦ elim (Bool-cases (un_consent n.consent banque.consents)) [
            | inl f ↦ rw (insert, e, f) (ajout-Intacts banque compte id k now)
            | inr f ↦ rw (insert, e, f) tt
          ]
          | inr e ↦ rw (insert, e.1) (refl, refl)
        ]

  abbrev inserer : Banque → BankAccount → ℕ → ℕ → ℤ → Option (Banque × ℕ)
  inserer banque d id k now =
      insert c.dedup_key c.empreinte_compte banque (a_rattacher c p id d) k now

  arret :
      (id : ℕ) (now : ℤ) (d : BankAccount) (cs : List BankAccount) (k : ℕ) (banque : Banque)
      → inserer banque d id k now ≡ none
      → rattacher c p id now (d ∷ cs) k banque ≡ (banque, false)
  unfolding rattacher
  arret id now d cs k banque e = rw (rattacher, e) refl

  suite :
      (id : ℕ) (now : ℤ) (d : BankAccount) (cs : List BankAccount) (k : ℕ) (banque : Banque)
      (b : Banque × ℕ)
      → inserer banque d id k now ≡ some b
      → rattacher c p id now (d ∷ cs) k banque ≡ rattacher c p id now cs (suc k) b.0
  unfolding rattacher
  suite id now d cs k banque b e = rw (rattacher, e) refl

  rattacher-Intacts :
      (id : ℕ) (now : ℤ) (cs : List BankAccount) (k : ℕ) (banque : Banque)
      → Intacts p banque (rattacher c p id now cs k banque).0
  unfolding rattacher
  rattacher-Intacts id now [] k banque = (refl, refl)
  rattacher-Intacts id now (d ∷ cs) k banque = elim (Option-cases (inserer banque d id k now)) [
    | inl e ↦ subst (λ r. Intacts p banque r.0) (sym (arret id now d cs k banque e)) (refl, refl)
    | inr e ↦
        subst (λ r. Intacts p banque r.0) (sym (suite id now d cs k banque e.0 e.1))
          (puis p banque e.0.0 (rattacher c p id now cs (suc k) e.0.0).0
            (subst (InsereIntacts banque) e.1 (insert-Intacts banque d id k now))
            (rattacher-Intacts id now cs (suc k) e.0.0))
  ]

  rattachement-Intacts :
      (id : ℕ) (s : c.Source) (r : Banque × Bool) → (apres_rattachement c p id s r).0.0 ≡ r.0
  unfolding apres_rattachement
  rattachement-Intacts id s (banque, false) = refl
  rattachement-Intacts id s (banque, true) = refl

  controle-Intacts :
      (id : ℕ) (now : ℤ) (k : ℕ) (cs : List BankAccount) (s : c.Source) (banque : Banque)
      (o : Option Texte)
      → Intacts p banque (apres_controle c p id now k cs s banque o).0.0
  unfolding apres_controle
  controle-Intacts id now k cs s banque (some autre) = echec-Intacts id now banque
  controle-Intacts id now k cs s banque none =
      subst (Intacts p banque) (sym (rattachement-Intacts id s (rattacher c p id now cs k banque)))
        (rattacher-Intacts id now cs k banque)

  comptes-Intacts :
      (id : ℕ) (now : ℤ) (k : ℕ) (banque : Banque)
      (r : c.Source × Result BankDataSourceError (List BankAccount))
      → Intacts p banque (apres_comptes c p id now k banque r).0.0
  unfolding apres_comptes
  comptes-Intacts id now k banque (s, err e) = (refl, refl)
  comptes-Intacts id now k banque (s, ok cs) =
      controle-Intacts id now k cs s banque (premier_concurrent c banque p cs)

  autorisation-Intacts :
      (id : ℕ) (now : ℤ) (k : ℕ) (banque : Banque)
      (r : c.Source × Result BankDataSourceError Consent)
      → Intacts p banque (apres_autorisation c p id now k banque r).0.0
  unfolding apres_autorisation
  autorisation-Intacts id now k banque (s, err e) = echec-Intacts id now banque
  autorisation-Intacts id now k banque (s, ok actif) =
      let b = activer c banque p id actif now in
      puis p banque b (apres_comptes c p id now k b (c.lister_comptes s actif)).0.0
        (activer-Intacts id actif now banque)
        (comptes-Intacts id now k b (c.lister_comptes s actif))

  completer-Intacts :
      (state code : Texte) (now : ℤ) (k id : ℕ) (banque : Banque) (s : c.Source)
      (o : Option Consent)
      → Intacts p banque (completer c p state code now k id (banque, s) o).0.0
  unfolding completer
  completer-Intacts state code now k id banque s none = (refl, refl)
  completer-Intacts state code now k id banque s (some d) =
      elim (Bool-cases (est_en_attente d.status)) [
        | inl e ↦ rw (completer, e) (autorisation-Intacts id now k banque _)
        | inr e ↦ rw (completer, e) (refl, refl)
      ]

  -- Whatever the bank answers and whatever the branch, completing a consent of a person leaves the
  -- consents and the accounts of everybody else exactly as they were.
  pub complete_consent-Intacts :
      (state code : Texte) (now : ℤ) (k : ℕ) (banque : Banque) (s : c.Source)
      → Intacts p banque (complete_consent c p state code now k (banque, s)).0.0
  unfolding complete_consent
  complete_consent-Intacts state code now k banque s =
      elim (Option-cases (c.parse_uuid (trim state))) [
        | inl e ↦ rw (complete_consent, e) (refl, refl)
        | inr e ↦
            rw (complete_consent, e.1)
              (completer-Intacts state code now k e.0 banque s
                (fetch_pour_proprietaire banque p e.0))
      ]
