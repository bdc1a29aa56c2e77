-- ===== src/Consents/Renouvellement.antt =====
-- `renouvellement` of src/domain/consent.rs against the tests of src/domain/synchro.rs.
use ch_api_budgy.Prelude.{◌≡◌, arith, if◌then◌else◌}
use ch_api_budgy.Prelude.Int.{ℤ}
use ch_api_budgy.Synchro.{Consent, ConsentStatus, consentement_expire, renouvellement_requis}
use ch_api_budgy.Consents.{
  ConsentRenouvellement, a_jour, expire, perdu, renouvellement, renouvellement_exige,
}

-- What the two tests of the synchronisation say together.
abbrev pub verdict : Consent → ℤ → ℤ → ConsentRenouvellement
verdict c maintenant marge =
    if consentement_expire c maintenant
    then expire
    else if renouvellement_requis c maintenant marge
    then renouvellement_exige
    else a_jour

-- For an active consent and any instants, the renewal that the interface shows is the verdict of the
-- two tests that the synchronisation makes.
pub renouvellement-verdict :
    (c : Consent) (maintenant marge : ℤ)
    → c.status ≡ ConsentStatus.active
    → renouvellement c maintenant marge ≡ verdict c maintenant marge
unfolding renouvellement consentement_expire renouvellement_requis perdu
renouvellement-verdict c maintenant marge h = ground (arith, h)
