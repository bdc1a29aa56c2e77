-- ===== src/Effacement/Revocations.antt =====
-- The revocations of src/domain/effacement.rs.
use ch_api_budgy.Prelude.{
  ℕ, suc, ◌≡◌, ap, ◌∙◌, ◌+◌, Bool, none, some, List, [], ◌∷◌, length, ok, err, arith, if◌then◌else◌,
  ◌⊎◌, inl, inr, ◌↔◌, Option-cases,
}
use ch_api_budgy.Texte.{Texte}
use ch_api_budgy.Synchro.{Consent}
use ch_api_budgy.Effacement.{
  Depots, ecriture, lecture, RapportEffacement, apres_comptes, apres_consents, apres_lecture,
  effacer_donnees_proprietaire, noter, revoquer_tous,
}

module _ (depots : Depots) where
  -- The outside once the consents are revoked in turn, and the number of refusals.
  unfoldable pub revoques : List Consent → depots.Monde → depots.Monde
  revoques [] m = m
  revoques (c ∷ cs) m = revoques cs (depots.revoquer_consentement m c).0

  unfoldable pub refusees : List Consent → depots.Monde → ℕ
  refusees [] m = 0
  refusees (c ∷ cs) m =
      let suite = refusees cs (depots.revoquer_consentement m c).0 in
      if (depots.revoquer_consentement m c).1 then suite else suite + 1

  abbrev pub rapport_de : ℕ → ℕ → ℕ → ℕ → RapportEffacement
  rapport_de consents comptes demandees echouees = record {
    consentements_supprimes = consents;
    comptes_supprimes = comptes;
    revocations_demandees = demandees;
    revocations_echouees = echouees;
  }

  une_de_plus : (b : Bool) (e s : ℕ) → (if b then e else e + 1) + s ≡ e + (if b then s else s + 1)
  une_de_plus b e s = ground arith

  plus_zero : (n : ℕ) → n ≡ n + 0
  plus_zero n = omega arith

  plus_suc : (d n : ℕ) → d + 1 + n ≡ d + suc n
  plus_suc d n = omega arith

  revoquer_tous_lem :
      (cs : List Consent) (m : depots.Monde) (k l d e : ℕ)
      → revoquer_tous depots cs (m, rapport_de k l d e)
        ≡ (revoques cs m, rapport_de k l (d + length cs) (e + refusees cs m))
  unfolding revoquer_tous refusees revoques noter
  revoquer_tous_lem [] m k l d e = λ i. (m, rapport_de k l (plus_zero d i) (plus_zero e i))
  revoquer_tous_lem (c ∷ cs) m k l d e =
      let m' = (depots.revoquer_consentement m c).0 in
      let b = (depots.revoquer_consentement m c).1 in
      revoquer_tous_lem cs m' k l (d + 1) (if b then e else e + 1) ∙ (λ i. (
        revoques cs m',
        rapport_de k l (plus_suc d (length cs) i) (une_de_plus b e (refusees cs m') i),
      ))

  zero_plus : (n : ℕ) → 0 + n ≡ n
  zero_plus n = omega arith

  avant_suppressions :
      (m : depots.Monde) (p : Texte) (actifs : List Consent)
      → apres_lecture depots p m (some actifs)
        ≡ apres_comptes depots p
            (rapport_de 0 0 (length actifs) (refusees actifs m))
            (depots.supprimer_comptes (revoques actifs m) p)
  unfolding apres_lecture
  avant_suppressions m p actifs =
      ap (λ x. apres_comptes depots p x.1 (depots.supprimer_comptes x.0 p))
        (revoquer_tous_lem actifs m 0 0 0 0 ∙ (λ i. (
          revoques actifs m,
          rapport_de 0 0 (zero_plus (length actifs) i) (zero_plus (refusees actifs m) i),
        )))

  -- When the consents can be read and the two deletions succeed, the erasure ends with a report of
  -- what was deleted, as many revocations asked for as there are active consents, and the refused
  -- ones counted: a refusal stops neither the other revocations nor the deletions, the accounts
  -- first, then the consents.
  pub effacer_donnees_proprietaire_lem :
      (m m₁ m₂ : depots.Monde) (p : Texte) (actifs : List Consent) (comptes consents : ℕ)
      → depots.lister_actifs_par_proprietaire m p ≡ some actifs
      → depots.supprimer_comptes (revoques actifs m) p ≡ some (m₁, comptes)
      → depots.supprimer_consents m₁ p ≡ some (m₂, consents)
      → effacer_donnees_proprietaire depots m p
        ≡ ok (m₂, rapport_de consents comptes (length actifs) (refusees actifs m))
  unfolding effacer_donnees_proprietaire apres_lecture apres_comptes apres_consents
  effacer_donnees_proprietaire_lem m m₁ m₂ p actifs comptes consents lu h g =
      ap (apres_lecture depots p m) lu
      ∙ avant_suppressions m p actifs
      ∙ ap (apres_comptes depots p (rapport_de 0 0 (length actifs) (refusees actifs m))) h
      ∙ ap (apres_consents depots (rapport_de 0 comptes (length actifs) (refusees actifs m))) g

  -- Once the consents are revoked one of the two deletions fails, of the accounts or, after it, of
  -- the consents.
  abbrev pub SuppressionEchoue : depots.Monde → Texte → List Consent → Type 0
  SuppressionEchoue m p actifs =
      (depots.supprimer_comptes (revoques actifs m) p ≡ none)
      ⊎ ((m₁ : depots.Monde) × (n : ℕ) × (depots.supprimer_comptes (revoques actifs m) p
            ≡ some (m₁, n))
          × (depots.supprimer_consents m₁ p ≡ none))

  abbrev pub Echoue : depots.Monde → Texte → Type 0
  Echoue m p =
      (actifs : List Consent) × (depots.lister_actifs_par_proprietaire m p ≡ some actifs)
      × SuppressionEchoue m p actifs

  abbrev Issue : depots.Monde → Texte → Type 0
  Issue m p =
      ((depots.lister_actifs_par_proprietaire m p ≡ none)
        × (effacer_donnees_proprietaire depots m p ≡ err lecture))
      ⊎ ((Echoue m p × (effacer_donnees_proprietaire depots m p ≡ err ecriture))
          ⊎ ((x : depots.Monde × RapportEffacement) × (effacer_donnees_proprietaire depots m p
                ≡ ok x)))

  lue :
      (m : depots.Monde) (p : Texte) (actifs : List Consent)
      → depots.lister_actifs_par_proprietaire m p ≡ some actifs
      → effacer_donnees_proprietaire depots m p
        ≡ apres_comptes depots p
            (rapport_de 0 0 (length actifs) (refusees actifs m))
            (depots.supprimer_comptes (revoques actifs m) p)
  unfolding effacer_donnees_proprietaire
  lue m p actifs lu = ap (apres_lecture depots p m) lu ∙ avant_suppressions m p actifs

  illisible :
      (m : depots.Monde) (p : Texte)
      → depots.lister_actifs_par_proprietaire m p ≡ none
      → effacer_donnees_proprietaire depots m p ≡ err lecture
  unfolding effacer_donnees_proprietaire apres_lecture
  illisible m p lu = ap (apres_lecture depots p m) lu

  echoue :
      (m : depots.Monde) (p : Texte)
      → Echoue m p
      → effacer_donnees_proprietaire depots m p ≡ err ecriture
  unfolding apres_comptes apres_consents
  echoue m p (actifs, lu, inl h) =
      lue m p actifs lu
      ∙ ap (apres_comptes depots p (rapport_de 0 0 (length actifs) (refusees actifs m))) h
  echoue m p (actifs, lu, inr (m₁, n, h, g)) =
      lue m p actifs lu
      ∙ ap (apres_comptes depots p (rapport_de 0 0 (length actifs) (refusees actifs m))) h
      ∙ ap (apres_consents depots (rapport_de 0 n (length actifs) (refusees actifs m))) g

  suppressions :
      (m : depots.Monde) (p : Texte) (actifs : List Consent)
      → depots.lister_actifs_par_proprietaire m p ≡ some actifs
      → Issue m p
  suppressions m p actifs lu =
      elim (Option-cases (depots.supprimer_comptes (revoques actifs m) p)) [
        | inl h ↦ let x : Echoue m p = (actifs, lu, inl h) in inr (inl (x, echoue m p x))
        | inr ((m₁, n), h) ↦ elim (Option-cases (depots.supprimer_consents m₁ p)) [
          | inl g ↦
              let x : Echoue m p = (actifs, lu, inr (m₁, n, h, g)) in inr (inl (x, echoue m p x))
          | inr ((m₂, k), g) ↦
              inr (inr (_, effacer_donnees_proprietaire_lem m m₁ m₂ p actifs n k lu h g))
        ]
      ]

  issue : (m : depots.Monde) (p : Texte) → Issue m p
  issue m p = elim (Option-cases (depots.lister_actifs_par_proprietaire m p)) [
    | inl lu ↦ inl (lu, illisible m p lu)
    | inr (actifs, lu) ↦ suppressions m p actifs lu
  ]

  -- The erasure reports an error of reading exactly when the consents cannot be read, and one of
  -- writing exactly when, once they are read and revoked, the accounts cannot be deleted, or they
  -- can and then the consents cannot.
  pub effacer_donnees_proprietaire_erreurs :
      (m : depots.Monde) (p : Texte)
      → ((effacer_donnees_proprietaire depots m p ≡ err lecture)
          ↔ (depots.lister_actifs_par_proprietaire m p ≡ none))
        × ((effacer_donnees_proprietaire depots m p ≡ err ecriture) ↔ Echoue m p)
  effacer_donnees_proprietaire_erreurs m p = elim (issue m p) [
    | inl (lu, e) ↦ ((λ f. lu, λ f. e), (λ f. cc, λ x. cc (echoue m p x)))
    | inr (inl (x, e)) ↦ ((λ f. cc, λ l. cc (illisible m p l)), (λ f. x, λ f. e))
    | inr (inr (x, e)) ↦ ((λ f. cc, λ l. cc (illisible m p l)), (λ f. cc, λ x. cc (echoue m p x)))
  ]
