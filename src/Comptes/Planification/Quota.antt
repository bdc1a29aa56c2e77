-- ===== src/Comptes/Planification/Quota.antt =====
-- The daily quota of src/repository/bank_accounts.rs over a history of reservations.
use mathlib.Core.Path.{subst}
use ch_api_budgy.Prelude.{
  some_inj, ℕ, ◌≡◌, refl, ap, ◌∙◌, sym, ◌+◌, ◌≤◌, Bool, true, false, ◌&&◌, ◌⊎◌, inl, inr, Option,
  none, some, List, [], ◌∷◌, Bool-cases, Option-cases, arith, if◌then◌else◌, ◌==◌, ==_refl, ==_iff,
  ltb,
}
use ch_api_budgy.Prelude.Int.{ℤ, ◌≤ℤ◌, ◌<ℤ◌, eqb_ℤ, eqb_ℤ_iff, pos_part, neg_part}
use ch_api_budgy.Synchro.{PlanificationSynchro}
use ch_api_budgy.Comptes.{BankAccountRow, Banque}
use ch_api_budgy.Comptes.Planification.Reservation.{
  CleUnique, Obtenu, ligne, reserver_creneau-cas, reserver_creneau_autre,
  reserver_creneau-Cle_unique,
}
use ch_api_budgy.Comptes.Planification.{prendre_creneau, reserver_creneau, utilises}

-- A call of `reserver_creneau`.
pub record Essai : Type 0 where
  pub compte : ℕ
  pub plan : PlanificationSynchro
  pub now : ℤ

-- The calls of a run of days, no day before the one that precedes it.
abbrev pub Chronologique : ℤ → List Essai → Type 0
Chronologique jour [] = Unit
Chronologique jour (e ∷ es) = (jour ≤ℤ e.plan.last_sync_day) × Chronologique e.plan.last_sync_day es

module _ (quota : ℕ) where
  abbrev pub essayer : Banque → Essai → Banque × Bool
  essayer banque e = reserver_creneau banque e.compte e.plan quota e.now

  -- The slots that the account gets on the day.
  unfoldable pub creneaux_obtenus : ℕ → ℤ → List Essai → Banque → ℕ
  creneaux_obtenus compte jour [] banque = 0
  creneaux_obtenus compte jour (e ∷ es) banque =
      let suite = creneaux_obtenus compte jour es (essayer banque e).0 in
      if (essayer banque e).1 && (e.compte == compte) && eqb_ℤ e.plan.last_sync_day jour
      then suite + 1
      else suite

  -- No row of the account was reserved after the day.
  abbrev pub Anterieur : ℕ → ℤ → Banque → Type 0
  Anterieur compte jour banque =
      (r : BankAccountRow)
      → ligne banque compte ≡ some r
      → (j : ℤ) → r.last_sync_day ≡ some j
      → j ≤ℤ jour

  -- A call that counts, and one that does not.
  compte_un :
      (compte : ℕ) (jour : ℤ) (e : Essai) (es : List Essai) (banque : Banque)
      → (essayer banque e).1 ≡ true
      → (e.compte == compte) ≡ true
      → eqb_ℤ e.plan.last_sync_day jour ≡ true
      → creneaux_obtenus compte jour (e ∷ es) banque
        ≡ creneaux_obtenus compte jour es (essayer banque e).0 + 1
  unfolding creneaux_obtenus
  compte_un compte jour e es banque a b c = rw (a, b, c) refl

  refus :
      (compte : ℕ) (jour : ℤ) (e : Essai) (es : List Essai) (banque : Banque)
      → (essayer banque e).1 ≡ false
      → creneaux_obtenus compte jour (e ∷ es) banque
        ≡ creneaux_obtenus compte jour es (essayer banque e).0
  unfolding creneaux_obtenus
  refus compte jour e es banque a = rw a refl

  ailleurs :
      (compte : ℕ) (jour : ℤ) (e : Essai) (es : List Essai) (banque : Banque)
      → ((e.compte == compte) && eqb_ℤ e.plan.last_sync_day jour) ≡ false
      → creneaux_obtenus compte jour (e ∷ es) banque
        ≡ creneaux_obtenus compte jour es (essayer banque e).0
  unfolding creneaux_obtenus
  ailleurs compte jour e es banque a = ground (arith, a)

  -- Once the day is over.
  plus_de_creneau :
      (compte : ℕ) (jour d : ℤ) (es : List Essai) (banque : Banque)
      → jour <ℤ d
      → Chronologique d es
      → creneaux_obtenus compte jour es banque ≡ 0
  unfolding creneaux_obtenus
  plus_de_creneau compte jour d [] banque lt h = refl
  plus_de_creneau compte jour d (e ∷ es) banque lt h =
      ailleurs compte jour e es banque (ground (arith, h.0))
      ∙ plus_de_creneau compte jour e.plan.last_sync_day es (essayer banque e).0
          (omega (arith, h.0)) h.1

  abbrev utilises_de : ℤ → Option BankAccountRow → ℕ
  utilises_de jour none = 0
  utilises_de jour (some r) = utilises jour r

  abbrev utilises_par : ℕ → ℤ → Banque → ℕ
  utilises_par compte jour banque = utilises_de jour (ligne banque compte)

  -- What a reservation changes of the day's count.
  utilises_apres :
      (jour : ℤ) (plan : PlanificationSynchro) (now : ℤ) (r : BankAccountRow)
      → eqb_ℤ plan.last_sync_day jour ≡ true
      → (utilises jour (prendre_creneau plan now r) ≡ utilises jour r + 1)
        × (utilises plan.last_sync_day r ≡ utilises jour r)
  unfolding utilises prendre_creneau
  utilises_apres jour plan now r e = ground (arith, e)

  utilises_autre_jour :
      (jour : ℤ) (plan : PlanificationSynchro) (now : ℤ) (r : BankAccountRow)
      → eqb_ℤ plan.last_sync_day jour ≡ false
      → utilises jour (prendre_creneau plan now r) ≡ 0
  unfolding utilises prendre_creneau
  utilises_autre_jour jour plan now r e = rw e refl

  utilises-cases :
      (jour : ℤ) (r : BankAccountRow)
      → (utilises jour r ≡ 0) ⊎ ((j : ℤ) × (r.last_sync_day ≡ some j) × (j ≡ jour))
  unfolding utilises
  utilises-cases jour r = elim (Option-cases r.last_sync_day) [
    | inl e ↦ inl (rw e refl)
    | inr e ↦ elim (Bool-cases (eqb_ℤ e.0 jour)) [
      | inl f ↦ inr (e.0, e.1, (eqb_ℤ_iff e.0 jour).0 f)
      | inr f ↦ inl (rw (e.1, f) refl)
    ]
  ]

  abbrev Borne : ℕ → ℕ → Type 0
  Borne obtenus u = (obtenus + u ≤ quota) ⊎ (obtenus ≡ 0)

  -- A reservation of the account itself that is granted.
  apres_octroi :
      (jour d : ℤ) (e : Essai) (es : List Essai) (banque : Banque) (r : BankAccountRow)
      → (essayer banque e).1 ≡ true
      → ltb (utilises e.plan.last_sync_day r) quota ≡ true
      → ((j : ℤ) → r.last_sync_day ≡ some j → j ≤ℤ d)
      → Chronologique d (e ∷ es)
      → Borne
          (creneaux_obtenus e.compte jour es (essayer banque e).0)
          (utilises jour (prendre_creneau e.plan e.now r))
      → Borne (creneaux_obtenus e.compte jour (e ∷ es) banque) (utilises jour r)
  apres_octroi jour d e es banque r ok libre avant h ih =
      elim (Bool-cases (eqb_ℤ e.plan.last_sync_day jour)) [
        | inl f ↦
            let u = utilises_apres jour e.plan e.now r f in
            let c = compte_un e.compte jour e es banque ok (==_refl e.compte) f in
            elim ih [
              | inl b ↦ inl (omega (arith, b, c, u.0))
              | inr z ↦ inl (ground (arith, z, c, u.1, libre))
            ]
        | inr f ↦
            let c = ailleurs e.compte jour e es banque (rw (==_refl e.compte) f) in
            let u = utilises_autre_jour jour e.plan e.now r f in
            elim (utilises-cases jour r) [
              | inl z ↦ elim ih [ inl b ↦ inl (omega (arith, b, c, u, z)) | inr b ↦ inr (c ∙ b) ]
              | inr p ↦ inr (
                  c
                  ∙ plus_de_creneau e.compte jour e.plan.last_sync_day es (essayer banque e).0
                      (ground (arith, f, h.0, avant p.0 p.1, p.2)) h.1)
            ]
      ]

  sans_essai :
      (compte : ℕ) (jour : ℤ) (banque : Banque) → creneaux_obtenus compte jour [] banque ≡ 0
  unfolding creneaux_obtenus
  sans_essai compte jour banque = refl

  reporter : {m n u v : ℕ} → m ≡ n → u ≡ v → Borne n u → Borne m v
  reporter p q (inl b) = inl (omega (arith, b, p, q))
  reporter p q (inr z) = inr (p ∙ z)

  abbrev BorneDe : ℕ → ℤ → List Essai → Banque → Type 0
  BorneDe compte jour es banque =
      Borne (creneaux_obtenus compte jour es banque) (utilises_par compte jour banque)

  -- What the calls that follow `e` give.
  abbrev Suite : ℕ → ℤ → Essai → List Essai → Banque → Type 0
  Suite compte jour e es banque =
      Anterieur compte e.plan.last_sync_day (essayer banque e).0
      → BorneDe compte jour es (essayer banque e).0

  jour_pris :
      (plan : PlanificationSynchro) (now : ℤ) (r r' : BankAccountRow)
      → some (prendre_creneau plan now r) ≡ some r'
      → (j : ℤ) → r'.last_sync_day ≡ some j
      → j ≤ℤ plan.last_sync_day
  unfolding prendre_creneau
  jour_pris plan now r r' e j f =
      let g = some_inj (sym f ∙ ap BankAccountRow.last_sync_day (sym (some_inj e))) in
      omega (arith, ap pos_part g, ap neg_part g)

  -- The row of the account after a granted call, on this account or on another.
  meme_compte :
      (jour d : ℤ) (e : Essai) (es : List Essai) (banque : Banque)
      → Obtenu banque e.compte e.plan quota e.now (essayer banque e)
      → Anterieur e.compte d banque
      → Chronologique d (e ∷ es)
      → Suite e.compte jour e es banque
      → BorneDe e.compte jour (e ∷ es) banque
  meme_compte jour d e es banque t avant h ih =
      let suite = ih (λ r m. jour_pris e.plan e.now t.0 r (sym t.4 ∙ m)) in
      reporter refl (sym (ap (utilises_de jour) t.1)) (
        apres_octroi jour d e es banque t.0 t.3 t.2 (avant t.0 t.1) h
          (reporter refl (ap (utilises_de jour) t.4) suite))

  apres :
      (compte : ℕ) (jour d : ℤ) (e : Essai) (es : List Essai) (banque : Banque)
      → Obtenu banque e.compte e.plan quota e.now (essayer banque e)
      → Anterieur compte d banque
      → Chronologique d (e ∷ es)
      → Suite compte jour e es banque
      → BorneDe compte jour (e ∷ es) banque
  apres compte jour d e es banque t avant h ih = elim (Bool-cases (compte == e.compte)) [
    | inl f ↦
        subst
          (λ c. Anterieur c d banque → Suite c jour e es banque → BorneDe c jour (e ∷ es) banque)
          (sym ((==_iff compte e.compte).0 f))
          (λ avant' ih'. meme_compte jour d e es banque t avant' h ih') avant ih
    | inr f ↦
        let l = reserver_creneau_autre banque e.compte e.plan quota e.now compte f in
        reporter (ailleurs compte jour e es banque (ground (arith, f))) (ap (utilises_de jour) l)
          (ih (λ r m j g. omega (arith, avant r (sym l ∙ m) j g, h.0)))
  ]

  creneaux_obtenus_borne :
      (compte : ℕ) (jour d : ℤ) (es : List Essai) (banque : Banque)
      → CleUnique banque
      → Anterieur compte d banque
      → Chronologique d es
      → BorneDe compte jour es banque
  creneaux_obtenus_borne compte jour d [] banque unique avant h =
      inr (sans_essai compte jour banque)
  creneaux_obtenus_borne compte jour d (e ∷ es) banque unique avant h =
      elim (reserver_creneau-cas banque e.compte e.plan quota e.now unique) [
        | inl i ↦
            reporter (refus compte jour e es banque i.0 ∙ ap (creneaux_obtenus compte jour es) i.1)
              refl
              (creneaux_obtenus_borne compte jour e.plan.last_sync_day es banque unique
                (λ r l j f. omega (arith, avant r l j f, h.0)) h.1)
        | inr t ↦ apres compte jour d e es banque t avant h (λ a.
            creneaux_obtenus_borne compte jour e.plan.last_sync_day es (essayer banque e).0
              (reserver_creneau-Cle_unique banque e.compte e.plan quota e.now unique) a h.1)
      ]

  -- Along any calls of `reserver_creneau`, on whatever accounts, whose days never go back and start
  -- no earlier than the day of the account's last slot: when the key is unique, an account gets at
  -- most `quota_journalier` slots on any one day.
  pub creneaux_obtenus-borne :
      (compte : ℕ) (jour d : ℤ) (es : List Essai) (banque : Banque)
      → CleUnique banque
      → Anterieur compte d banque
      → Chronologique d es
      → creneaux_obtenus compte jour es banque ≤ quota
  creneaux_obtenus-borne compte jour d es banque unique avant h =
      elim (creneaux_obtenus_borne compte jour d es banque unique avant h) [
        | inl b ↦ omega (arith, b)
        | inr z ↦ omega (arith, z)
      ]
