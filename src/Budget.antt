-- ===== src/Budget.antt =====
-- The monthly figures shown to the user: src/domain/reste_a_depenser.rs,
-- src/domain/budget.rs, src/domain/previsionnel.rs and src/domain/solde_consolide.rs.
pub mod Reste
pub mod Plans
pub mod Previsionnel
pub mod Solde
