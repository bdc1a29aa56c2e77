-- ===== src/Lib.antt =====
-- Budgy, the service of personal budgets: its decisions as functions, and what holds of them.
--
-- The program reads bank accounts, gives each transaction a category, and computes from them what
-- is left to spend. Its parts, from the data to the answers:
--
--   src/domain/libelle.rs: the third party named by a label                      Libelle
--   src/domain/regle_categorisation.rs: the rules, and the one that is selected  Regle
--   src/domain/category.rs, src/repository/categories.rs,
--     src/repository/regles_categorisation.rs: their tables             Categorie, Categories
--   src/domain/transfert_interne.rs: the two faces of internal transfers         Transfert
--   src/domain/recurrence.rs: the payments that come back every month            Recurrence
--   src/repository/bank_transactions.rs, src/domain/transaction_bancaire.rs:
--     the table of transactions and the operations on it                         Transactions
--   src/domain/synchro.rs: the synchronisation with the banks                    Synchro
--   src/repository/bank_accounts.rs, src/repository/balances.rs,
--     src/domain/bank_account.rs: the accounts, their planning, their balances   Comptes
--   src/domain/consent.rs, src/repository/consents.rs: consents to the banks     Consents
--   src/handlers/banques.rs: consents asked for, completed and renewed           Banques
--   src/handlers/transactions.rs, src/handlers/enveloppes.rs: other requests     Requetes
--   src/domain/effacement.rs: the erasure of a person                            Effacement
--   src/adapters/bank/enable_banking/mapping.rs: what the bank's service sends   EnableBanking
--   src/domain/depense.rs, src/domain/cycle.rs: months and monthly cycles        Cycle
--   src/domain/agregation.rs: medians over a history                             Agregation
--   src/repository/depenses.rs: the expenses of months and of cycles             Depenses
--   src/domain/enveloppe.rs, src/repository/enveloppes.rs: envelopes             Enveloppe
--   src/domain/reste_a_depenser.rs: what is left to spend                        Budget.Reste
--   src/domain/budget.rs, src/repository/budgets.rs: the budgets of a user       Budget.Plans
--   src/domain/previsionnel.rs: the balance expected                             Budget.Previsionnel
--   src/domain/solde_consolide.rs: the totals over the accounts                  Budget.Solde
--   src/api/pagination.rs, src/api/query.rs, src/handlers/commun.rs,
--     src/relay/evenement.rs, src/repository/preferences.rs: what may be asked   Api
--
-- Definitions keep the names of the functions; a part's child modules hold its theorems. Prelude
-- holds lists, results, maps, sorting and machine integers; Texte the texts; Exemples the runs on
-- small inputs.
--
-- How the code is read. An id is the 128 bits of a UUID, a text the list of its code points, an
-- amount an `i64` of cents: `+` and `-` wrap around modulo 2 ^ 64 as a release build does,
-- `saturating_add` clamps. A `HashMap` is an association list. `NaiveDate` of chrono is an
-- interface, Calendrier, with the facts about months and days that the code relies on;
-- Calendrier.Gregorien fills it. Where only the order and the distance of dates count, a date is
-- its day number. `to_uppercase` and `to_lowercase`, the tables of Unicode, are parameters.
--
-- The tables are a record, Base, of the owners of the accounts, the categories, the rules and the
-- transactions, with rows decrypted, in which a transaction is known again by a `dedup_key` that
-- is a parameter; each `UPDATE … WHERE` is a function of the rows. An operation is a function
-- from a Base to a Base and what it returns. The tables of the banks are another record, Banque,
-- of the consents, the accounts and their balances, whose primary keys are the hypothesis
-- CleUnique where a theorem needs them. Keyed hashes, the parsing of UUIDs, of JSON and of the
-- dates of chrono are parameters. Failures of the database and of the encryption leave through
-- `?` before anything is computed, and are not modelled, save where the code answers to them: in
-- Synchro, in Effacement, and for the names that a unique key refuses; a `LIMIT` without `ORDER
-- BY` takes rows in the order of the table, and an `ORDER BY` of texts compares code points. The
-- scores of Transfert are the fractions that the code divides out in `f64`; counts of words in
-- labels are far below the 2 ^ 26 under which different fractions have different quotients.
--
-- Loops over lists are recursion on the list. Two run on fuel: the `while let` of
-- `retirer_civilites`, in which each turn removes a title, so that the length of the text is
-- enough; and the decimal digits of a month, of which an `i32` has ten at most.
--
-- A synchronisation runs over Ports, the traits of src/domain/ports on a state of the outside; it
-- keeps its events and its report beside that state. Its instants are numbers, and its counters
-- do not wrap.
--
-- Not modelled: the SQL of the listings of transactions; `pourcentage_consomme`, which divides in
-- `f64`; the other handlers and the forms of the HTTP layer; the requests sent to the banks and
-- the source of made-up data; the sockets of the relay and the worker, which call libraries;
-- encryption, tokens, configuration and start-up. Synchro runs over its Ports, and Comptes holds
-- the operations on the tables behind them: the one is not run on the other.
pub mod Prelude
pub mod Calendrier
pub mod Cycle
pub mod Texte
pub mod Categorie
pub mod Agregation
pub mod Budget
pub mod Transfert
pub mod Libelle
pub mod Regle
pub mod Requetes
pub mod Recurrence
pub mod Transactions
pub mod Exemples
pub mod Synchro
pub mod Comptes
pub mod Consents
pub mod Effacement
pub mod Banques
pub mod Enveloppe
pub mod EnableBanking
pub mod Depenses
pub mod Categories
pub mod Api
