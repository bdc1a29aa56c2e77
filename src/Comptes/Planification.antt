-- ===== src/Comptes/Planification.antt =====
-- The planning of the synchronisations in src/repository/bank_accounts.rs: the accounts that are
-- due, and the slot that a synchronisation takes.
pub mod Reservation
pub mod Quota
pub mod Echeances
use ch_api_budgy.Prelude.{
  ℕ, ◌+◌, Bool, true, false, ◌&&◌, ◌||◌, Option, none, some, List, [], ◌∷◌, ◌++◌, map, filter, ltb,
  ◌==◌, if◌then◌else◌,
}
use ch_api_budgy.Prelude.Int.{ℤ, leb_ℤ, ltb_ℤ, eqb_ℤ}
use ch_api_budgy.Prelude.Sort.{sort_by}
use ch_api_budgy.Prelude.Tables.{affected, guarded, update}
use ch_api_budgy.Synchro.{CompteEcheant, Consent, ConsentStatus, PlanificationSynchro}
use ch_api_budgy.Comptes.{BankAccountRow, Banque, into_compte_echeant}

-- `CASE WHEN last_sync_day = jour THEN sync_count_today ELSE 0 END`
unfoldable pub utilises : ℤ → BankAccountRow → ℕ
utilises jour r = elim r.last_sync_day [
  | none ↦ 0
  | some j ↦ if eqb_ℤ j jour then r.sync_count_today else 0
]

-- `WHERE id = compte` beside the quota.
unfoldable pub sous_le_quota : ℤ → ℕ → BankAccountRow → Bool
sous_le_quota jour quota r = ltb (utilises jour r) quota

unfoldable pub prendre_creneau : PlanificationSynchro → ℤ → BankAccountRow → BankAccountRow
prendre_creneau plan now r = record r {
  next_sync_at = some plan.next_sync_at;
  sync_count_today = (elim r.last_sync_day [
    | none ↦ 1
    | some j ↦ if eqb_ℤ j plan.last_sync_day then r.sync_count_today + 1 else 1
  ]);
  last_sync_day = some plan.last_sync_day;
  last_sync_at = some plan.last_sync_at;
  updated_at = now;
}

unfoldable pub reserver_creneau : Banque → ℕ → PlanificationSynchro → ℕ → ℤ → Banque × Bool
reserver_creneau banque compte plan quota now =
    let cond = guarded BankAccountRow.id compte (sous_le_quota plan.last_sync_day quota) in
    (
      record banque { comptes = update cond (prendre_creneau plan now) banque.comptes },
      affected cond banque.comptes == 1,
    )

unfoldable pub est_actif : ConsentStatus → Bool
est_actif ConsentStatus.active = true
est_actif ConsentStatus.pending = false
est_actif ConsentStatus.expired = false
est_actif ConsentStatus.revoked = false
est_actif ConsentStatus.failed = false

pub avant_ou_nul : Option ℤ → ℤ → Bool
avant_ou_nul none t = true
avant_ou_nul (some s) t = leb_ℤ s t

pub apres_ou_nul : Option ℤ → ℤ → Bool
apres_ou_nul none t = true
apres_ou_nul (some s) t = ltb_ℤ t s

-- The `WHERE` on a row and its consent.
unfoldable pub est_echeant : ℤ → ℤ → ℕ → BankAccountRow → Consent → Bool
est_echeant maintenant jour quota r c =
    avant_ou_nul r.next_sync_at maintenant
    && est_actif c.status
    && apres_ou_nul c.expires_at maintenant
    && sous_le_quota jour quota r

-- `JOIN budgy.consent c ON c.id = a.consent_id`
pub joindre_consents : BankAccountRow → List Consent → List (BankAccountRow × Consent)
joindre_consents r [] = []
joindre_consents r (c ∷ cs) =
    let rest = joindre_consents r cs in if c.id == r.consent_id then (r, c) ∷ rest else rest

pub joindre : List BankAccountRow → List Consent → List (BankAccountRow × Consent)
unfolding joindre_consents
joindre [] cs = []
joindre (r ∷ rs) cs = joindre_consents r cs ++ joindre rs cs

-- `ORDER BY next_sync_at ASC NULLS FIRST`
pub nuls_devant : Option ℤ → Option ℤ → Bool
nuls_devant none t = true
nuls_devant (some s) none = false
nuls_devant (some s) (some t) = leb_ℤ s t

pub echeance_le : BankAccountRow × Consent → BankAccountRow × Consent → Bool
unfolding nuls_devant
echeance_le p q = nuls_devant p.0.next_sync_at q.0.next_sync_at

module _ (date_naive : ℤ → ℤ) where
  unfoldable pub lister_comptes_echeants : Banque → ℤ → ℕ → List CompteEcheant
  lister_comptes_echeants banque maintenant quota =
      map (λ p. into_compte_echeant p.0 p.1)
        (sort_by echeance_le (
          filter (λ p. est_echeant maintenant (date_naive maintenant) quota p.0 p.1)
            (joindre banque.comptes banque.consents)))
