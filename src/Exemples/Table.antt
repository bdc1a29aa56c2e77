-- ===== src/Exemples/Table.antt =====
-- Categorisation by hand, insertion and pages: src/repository/bank_transactions.rs.
use mathlib.Core.List.{Permᴰ}
use ch_api_budgy.Prelude.{ℕ, ◌≡◌, refl, false, none, some, List, [], ◌∷◌, length, take, drop, ok}
use ch_api_budgy.Prelude.Int.{ℤ, pos, negsuc}
use ch_api_budgy.Texte.{Texte, codes}
use ch_api_budgy.Categorie.{Category, depense}
use ch_api_budgy.Transactions.{
  Base, TransactionBancaire, CategorizationSource, TransactionStatus, categoriser,
}
use ch_api_budgy.Transactions.Lignes.{autres}
use ch_api_budgy.Transactions.Manuelle.{Categorisation, categoriser_lem}
use ch_api_budgy.Transactions.Insertion.{
  NouvelleTransactionBancaire, ResultatInsertion, insert, doublon,
}
use ch_api_budgy.Transactions.Insertion.Doublons.{insert_idem}
use ch_api_budgy.Transactions.Liste.{
  sortie, date, descendant, TriTransactions, Tranche, filtrer_trier_paginer, garder_le_sens,
}
use ch_api_budgy.Transactions.Liste.Pages.{Triees, demandees, filtrer_trier_paginer_lem}

abbrev ligne : ℕ → ℤ → TransactionBancaire
ligne n montant = record {
  id = n;
  bank_account = 10;
  external_transaction_id = [];
  status = TransactionStatus.booked;
  label = codes "ACHAT";
  amount_cents = montant;
  currency = codes "EUR";
  booking_date = some (pos n);
  value_date = none;
  category = none;
  enveloppe = none;
  categorization_source = CategorizationSource.no_source;
  rule_id = none;
  is_recurrent = false;
  recurrence_interval = none;
  is_internal_transfer = false;
  created_at = pos 0;
}

abbrev courses : Category
courses = record {
  id = 7;
  owner_id = none;
  name = codes "Courses";
  kind = depense;
  color = [];
  icon = [];
  created_at = pos 0;
}

abbrev base : Base
base = record {
  proprietaires = (10, codes "u") ∷ [];
  categories = courses ∷ [];
  regles = [];
  transactions = ligne 1 (negsuc 99) ∷ ligne 2 (negsuc 9) ∷ [];
}

categoriser_lem_example :
    (autres (categoriser base (codes "u") 10 1 7).0 (codes "u") ≡ autres base (codes "u"))
    × Categorisation base (codes "u") 10 1 7 (categoriser base (codes "u") 10 1 7)
categoriser_lem_example = categoriser_lem base (codes "u") 10 1 7 ((refl, tt), (tt, tt))

-- A key that keeps the two texts apart.
abbrev cle : ℕ → Texte → Texte
cle compte externe = compte ∷ externe

abbrev nouvelle : NouvelleTransactionBancaire
nouvelle = record {
  bank_account = 10;
  external_transaction_id = codes "x";
  status = TransactionStatus.pending;
  label = codes "ACHAT";
  amount_cents = negsuc 9;
  currency = codes "EUR";
  booking_date = none;
  value_date = some (pos 3);
}

insert_idem_example :
    (suite : Base) × (r : ResultatInsertion) × (insert cle base nouvelle 3 (pos 0) ≡ ok (suite, r))
    × (insert cle suite nouvelle 4 (pos 1) ≡ ok (suite, doublon))
insert_idem_example = insert_idem cle nouvelle base (codes "u") 3 4 (pos 0) (pos 1) refl

abbrev tri : TriTransactions
tri = record { champ = date; ordre = descendant }

filtrer_trier_paginer_lem_example :
    (xs : List TransactionBancaire) × Triees descendant date xs
    × Permᴰ xs (demandees (some sortie) base.transactions)
    × ((tranche : Tranche)
        → ((filtrer_trier_paginer base.transactions (some sortie) tri tranche).elements
            ≡ take tranche.limit (drop tranche.offset xs))
          × ((filtrer_trier_paginer base.transactions (some sortie) tri tranche).total
              ≡ length (demandees (some sortie) base.transactions)))
filtrer_trier_paginer_lem_example = filtrer_trier_paginer_lem base.transactions (some sortie) tri

-- The second page of the exits, the latest first.
seconde_page :
    (filtrer_trier_paginer base.transactions (some sortie) tri (record { limit = 1; offset = 1 }))
    ≡ record { elements = ligne 1 (negsuc 99) ∷ []; total = 2 }
unfolding filtrer_trier_paginer garder_le_sens
seconde_page = refl
