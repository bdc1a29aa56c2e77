-- ===== src/Effacement.antt =====
-- src/domain/effacement.rs: the erasure of somebody's data. Its repositories and the bank's side are
-- functions on a state of the outside.
pub mod Revocations
pub mod Tables
use ch_api_budgy.Prelude.{
  ℕ, ◌+◌, Bool, true, false, Option, none, some, List, [], ◌∷◌, Result, ok, err, if◌then◌else◌,
}
use ch_api_budgy.Texte.{Texte}
use ch_api_budgy.Synchro.{Consent}

pub data EffacementError : Type 0 where
  lecture ecriture : EffacementError

pub record RapportEffacement : Type 0 where
  pub consentements_supprimes : ℕ
  pub comptes_supprimes : ℕ
  pub revocations_demandees : ℕ
  pub revocations_echouees : ℕ

abbrev pub rapport_vide : RapportEffacement
rapport_vide = record {
  consentements_supprimes = 0;
  comptes_supprimes = 0;
  revocations_demandees = 0;
  revocations_echouees = 0;
}

-- The dependencies; `none` is a failed read or write, and the Boolean of a revocation says whether
-- the bank accepted it.
pub record Depots : Type 1 where
  pub Monde : Type 0
  pub lister_actifs_par_proprietaire : Monde → Texte → Option (List Consent)
  pub revoquer_consentement : Monde → Consent → Monde × Bool
  pub supprimer_comptes : Monde → Texte → Option (Monde × ℕ)
  pub supprimer_consents : Monde → Texte → Option (Monde × ℕ)

module _ (depots : Depots) where
  open depots use {
    Monde, lister_actifs_par_proprietaire, revoquer_consentement, supprimer_comptes,
    supprimer_consents,
  }

  pub noter : Bool → RapportEffacement → RapportEffacement
  noter accepte r = record r {
    revocations_demandees = r.revocations_demandees + 1;
    revocations_echouees = if accepte then r.revocations_echouees else r.revocations_echouees + 1;
  }

  -- The loop on the active consents: a failed revocation is counted and passed over.
  pub revoquer_tous : List Consent → Monde × RapportEffacement → Monde × RapportEffacement
  unfolding noter
  revoquer_tous [] (m, r) = (m, r)
  revoquer_tous (c ∷ cs) (m, r) =
      let (m', accepte) = revoquer_consentement m c in revoquer_tous cs (m', noter accepte r)

  pub apres_consents :
      RapportEffacement → Option (Monde × ℕ) → Result EffacementError (Monde × RapportEffacement)
  apres_consents r none = err ecriture
  apres_consents r (some (m, n)) = ok (m, record r { consentements_supprimes = n })

  pub apres_comptes :
      Texte
      → RapportEffacement
      → Option (Monde × ℕ)
      → Result EffacementError (Monde × RapportEffacement)
  unfolding apres_consents
  apres_comptes proprietaire r none = err ecriture
  apres_comptes proprietaire r (some (m, n)) =
      apres_consents (record r { comptes_supprimes = n }) (supprimer_consents m proprietaire)

  pub apres_lecture :
      Texte → Monde → Option (List Consent) → Result EffacementError (Monde × RapportEffacement)
  unfolding revoquer_tous apres_comptes
  apres_lecture proprietaire m none = err lecture
  apres_lecture proprietaire m (some actifs) =
      let (m', r) = revoquer_tous actifs (m, rapport_vide) in
      apres_comptes proprietaire r (supprimer_comptes m' proprietaire)

  unfoldable pub effacer_donnees_proprietaire :
      Monde → Texte → Result EffacementError (Monde × RapportEffacement)
  unfolding apres_lecture
  effacer_donnees_proprietaire m proprietaire =
      apres_lecture proprietaire m (lister_actifs_par_proprietaire m proprietaire)
