-- ===== src/Exemples.antt =====
-- Runs of the definitions on small inputs, and the theorems at those inputs.
mod Calculs
mod Etats
mod Table
mod Synchronisation
mod Banque
mod Mensualites
mod Demarches
