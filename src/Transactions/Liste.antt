-- ===== src/Transactions/Liste.antt =====
-- The sorted pages of transactions, src/repository/bank_transactions.rs.
pub mod Pages
use ch_api_budgy.Prelude.{
  ℕ, Bool, true, false, not, ◌&&◌, ◌||◌, Option, none, some, List, filter, length, take, drop, ltb,
  ◌==◌, if◌then◌else◌,
}
use ch_api_budgy.Prelude.Int.{ℤ, pos, ltb_ℤ, leb_ℤ, eqb_ℤ}
use ch_api_budgy.Prelude.Sort.{sort_by}
use ch_api_budgy.Transactions.{TransactionBancaire, date_effective}

pub data SensTransaction : Type 0 where
  entree sortie : SensTransaction

pub data ChampTriTransaction : Type 0 where
  date montant : ChampTriTransaction

pub data OrdreTri : Type 0 where
  ascendant descendant : OrdreTri

pub record TriTransactions : Type 0 where
  pub champ : ChampTriTransaction
  pub ordre : OrdreTri

pub record Tranche : Type 0 where
  pub limit : ℕ
  pub offset : ℕ

pub record LectureResultat (A : Type 0) : Type 0 where
  pub elements : List A
  pub total : ℕ

-- `transaction.sens() == sens`
pub a_le_sens : SensTransaction → TransactionBancaire → Bool
a_le_sens entree t = not (ltb_ℤ t.amount_cents (pos 0))
a_le_sens sortie t = ltb_ℤ t.amount_cents (pos 0)

unfoldable pub garder_le_sens :
    Option SensTransaction → List TransactionBancaire → List TransactionBancaire
unfolding a_le_sens
garder_le_sens none ts = ts
garder_le_sens (some sens) ts = filter (a_le_sens sens) ts

-- `<=` on `Option<NaiveDate>` then the rest: `none` comes first.
pub date_puis : Option ℤ → Option ℤ → Bool → Bool
date_puis none none suite = suite
date_puis none (some e) suite = true
date_puis (some d) none suite = false
date_puis (some d) (some e) suite = ltb_ℤ d e || (eqb_ℤ d e && suite)

pub montant_puis : ℤ → ℤ → Bool → Bool
montant_puis a b suite = ltb_ℤ a b || (eqb_ℤ a b && suite)

-- `base` is not `Greater`.
pub base_le : ChampTriTransaction → TransactionBancaire → TransactionBancaire → Bool
unfolding date_puis montant_puis date_effective
base_le date g d =
    date_puis (date_effective g) (date_effective d)
      (montant_puis g.created_at d.created_at (not (ltb d.id g.id)))
base_le montant g d =
    montant_puis g.amount_cents d.amount_cents
      (montant_puis g.created_at d.created_at (not (ltb d.id g.id)))

-- `base`, or `base.reverse()`.
pub selon :
    OrdreTri
    → (TransactionBancaire → TransactionBancaire → Bool)
    → TransactionBancaire
    → TransactionBancaire
    → Bool
selon ascendant le g d = le g d
selon descendant le g d = le d g

pub tri_le : TriTransactions → TransactionBancaire → TransactionBancaire → Bool
unfolding selon base_le
tri_le tri = selon tri.ordre (base_le tri.champ)

pub trier : List TransactionBancaire → TriTransactions → List TransactionBancaire
unfolding sort_by tri_le
trier ts tri = sort_by (tri_le tri) ts

unfoldable pub filtrer_trier_paginer :
    List TransactionBancaire
    → Option SensTransaction
    → TriTransactions
    → Tranche
    → LectureResultat TransactionBancaire
unfolding garder_le_sens trier
filtrer_trier_paginer ts sens tri tranche =
    let triees = trier (garder_le_sens sens ts) tri in
    record {
      elements = take tranche.limit (drop tranche.offset triees);
      total = length (garder_le_sens sens ts);
    }
