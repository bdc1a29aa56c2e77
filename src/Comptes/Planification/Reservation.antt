-- ===== src/Comptes/Planification/Reservation.antt =====
-- What `reserver_creneau` answers and does: src/repository/bank_accounts.rs.
use ch_api_budgy.Prelude.{
  ℕ, ◌+◌, ◌≤◌, ◌<◌, ◌≡◌, refl, ap, ◌∙◌, Bool, true, false, ◌⊎◌, inl, inr, Option, none, some, ◌==◌,
  ltb, arith, if◌then◌else◌, Option-cases,
}
use ch_api_budgy.Prelude.Int.{ℤ, eqb_ℤ}
use ch_api_budgy.Prelude.Tables.{
  Uniques, of_key, of_key-affected, touche, update-Uniques, of_key-update,
}
use ch_api_budgy.Synchro.{PlanificationSynchro}
use ch_api_budgy.Comptes.{BankAccountRow, Banque}
use ch_api_budgy.Comptes.Planification.{prendre_creneau, reserver_creneau, sous_le_quota, utilises}

-- The row of an account.
abbrev pub ligne : Banque → ℕ → Option BankAccountRow
ligne banque compte = of_key BankAccountRow.id compte banque.comptes

-- The primary key of `budgy.bank_account`.
abbrev pub CleUnique : Banque → Type 0
CleUnique banque = Uniques BankAccountRow.id banque.comptes

-- The slots that an account has had on a day.
abbrev pub pris_le : ℤ → BankAccountRow → ℕ
pris_le jour r = elim r.last_sync_day [
  | none ↦ 0
  | some j ↦ if eqb_ℤ j jour then r.sync_count_today else 0
]

-- The row of an account that gets a slot.
abbrev pub servie : PlanificationSynchro → ℤ → BankAccountRow → BankAccountRow
servie plan now r = record r {
  next_sync_at = some plan.next_sync_at;
  sync_count_today = pris_le plan.last_sync_day r + 1;
  last_sync_day = some plan.last_sync_day;
  last_sync_at = some plan.last_sync_at;
  updated_at = now;
}

abbrev pub Refuse : Banque → ℕ → ℤ → ℕ → Banque × Bool → Type 0
Refuse banque compte jour quota (banque', obtenu) =
    (obtenu ≡ false)
    × (banque' ≡ banque)
    × ((r : BankAccountRow) → ligne banque compte ≡ some r → quota ≤ pris_le jour r)

abbrev pub Octroye : Banque → ℕ → PlanificationSynchro → ℕ → ℤ → Banque × Bool → Type 0
Octroye banque compte plan quota now (banque', obtenu) =
    (r : BankAccountRow) × (ligne banque compte ≡ some r)
    × (pris_le plan.last_sync_day r < quota)
    × (obtenu ≡ true)
    × (ligne banque' compte ≡ some (servie plan now r))
    × ((autre : ℕ) → (autre == compte) ≡ false → ligne banque' autre ≡ ligne banque autre)

prendre_creneau-id :
    (plan : PlanificationSynchro) (now : ℤ) (r : BankAccountRow)
    → (prendre_creneau plan now r).id ≡ r.id
unfolding prendre_creneau
prendre_creneau-id plan now r = refl

utilises_lem :
    (jour : ℤ) (quota : ℕ) (r : BankAccountRow)
    → (ltb (utilises jour r) quota ≡ true → pris_le jour r < quota)
      × (ltb (utilises jour r) quota ≡ false → quota ≤ pris_le jour r)
unfolding utilises
utilises_lem jour quota r = (λ h. ground (arith, h), λ h. ground (arith, h))

prendre_creneau_lem :
    (plan : PlanificationSynchro) (now : ℤ) (r : BankAccountRow)
    → prendre_creneau plan now r ≡ servie plan now r
unfolding prendre_creneau
prendre_creneau_lem plan now r = elim (Option-cases r.last_sync_day) [
  | inl e ↦ rw e (ground arith)
  | inr (j, e) ↦ rw e (ground arith)
]

-- The key stays unique.
pub reserver_creneau-Cle_unique :
    (banque : Banque) (compte : ℕ) (plan : PlanificationSynchro) (quota : ℕ) (now : ℤ)
    → CleUnique banque
    → CleUnique (reserver_creneau banque compte plan quota now).0
unfolding reserver_creneau
reserver_creneau-Cle_unique banque compte plan quota now unique =
    update-Uniques BankAccountRow.id compte (sous_le_quota plan.last_sync_day quota)
      (prendre_creneau plan now) (prendre_creneau-id plan now) banque.comptes unique

-- The rows of the other accounts stay.
pub reserver_creneau_autre :
    (banque : Banque) (compte : ℕ) (plan : PlanificationSynchro) (quota : ℕ) (now : ℤ) (autre : ℕ)
    → (autre == compte) ≡ false
    → ligne (reserver_creneau banque compte plan quota now).0 autre ≡ ligne banque autre
unfolding reserver_creneau
reserver_creneau_autre banque compte plan quota now autre d =
    of_key-update BankAccountRow.id compte (sous_le_quota plan.last_sync_day quota)
      (prendre_creneau plan now) (prendre_creneau-id plan now) autre banque.comptes d

-- The two ends, in the words of the update.
abbrev pub Ecarte : Banque → ℕ → ℤ → ℕ → Banque × Bool → Type 0
Ecarte banque compte jour quota (banque', obtenu) =
    (obtenu ≡ false)
    × (banque' ≡ banque)
    × ((r : BankAccountRow) → ligne banque compte ≡ some r → ltb (utilises jour r) quota ≡ false)

abbrev pub Obtenu : Banque → ℕ → PlanificationSynchro → ℕ → ℤ → Banque × Bool → Type 0
Obtenu banque compte plan quota now (banque', obtenu) =
    (r : BankAccountRow) × (ligne banque compte ≡ some r)
    × (ltb (utilises plan.last_sync_day r) quota ≡ true)
    × (obtenu ≡ true)
    × (ligne banque' compte ≡ some (prendre_creneau plan now r))

pub reserver_creneau-cas :
    (banque : Banque) (compte : ℕ) (plan : PlanificationSynchro) (quota : ℕ) (now : ℤ)
    → CleUnique banque
    → Ecarte banque compte plan.last_sync_day quota (reserver_creneau banque compte plan quota now)
      ⊎ Obtenu banque compte plan quota now (reserver_creneau banque compte plan quota now)
unfolding reserver_creneau sous_le_quota
reserver_creneau-cas banque compte plan quota now unique =
    elim (touche BankAccountRow.id compte (sous_le_quota plan.last_sync_day quota)
      (prendre_creneau plan now) (prendre_creneau-id plan now) banque.comptes unique) [
        | inl i ↦ inl (
          rw i.0 refl,
          λ k. record banque { comptes = i.1 k },
          of_key-affected BankAccountRow.id compte (sous_le_quota plan.last_sync_day quota)
              (prendre_creneau plan now) (prendre_creneau-id plan now) banque.comptes i.0,
        )
        | inr t ↦ inr (t.0, t.1, t.2, rw t.3 refl, t.4)
      ]

-- When the key is unique, a reservation is either refused, and then it changes nothing and the
-- account, if there is one, has had its quota of the day; or it is granted, and then the account
-- is there, had not had its quota of the day, has the new instants and day of the plan and one slot
-- more on that day, and nothing else of it, and no other account, is changed.
pub reserver_creneau_lem :
    (banque : Banque) (compte : ℕ) (plan : PlanificationSynchro) (quota : ℕ) (now : ℤ)
    → CleUnique banque
    → Refuse banque compte plan.last_sync_day quota (reserver_creneau banque compte plan quota now)
      ⊎ Octroye banque compte plan quota now (reserver_creneau banque compte plan quota now)
reserver_creneau_lem banque compte plan quota now unique =
    elim (reserver_creneau-cas banque compte plan quota now unique) [
      | inl i ↦ inl (i.0, i.1, λ r e. (utilises_lem plan.last_sync_day quota r).1 (i.2 r e))
      | inr t ↦ inr (
        t.0,
        t.1,
        (utilises_lem plan.last_sync_day quota t.0).0 t.2,
        t.3,
        t.4 ∙ ap (λ r. some r) (prendre_creneau_lem plan now t.0),
        λ autre d. reserver_creneau_autre banque compte plan quota now autre d,
      )
    ]
