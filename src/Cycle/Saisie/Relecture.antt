-- ===== src/Cycle/Saisie/Relecture.antt =====
-- A month that is written is read again: src/domain/depense.rs.
use mathlib.Core.Path.{subst}
use ch_api_budgy.Prelude.{
  ℕ, zero, suc, some_inj, ◌⊎◌, ◌≡◌, refl, sym, ap, ◌∙◌, ◌+◌, ◌-◌, ◌*◌, ◌/◌, ◌%◌, ◌^◌, ◌≤◌, ◌<◌,
  Bool, true, false, inl, inr, none, some, [], ◌∷◌, ◌++◌, ok, All, All-append, Bool-cases, length,
  length-append, replicate, arith, ltb, ◌==◌, if◌then◌else◌,
}
use ch_api_budgy.Prelude.Int.{pos}
use ch_api_budgy.Texte.{Texte, octets, len_utf8}
use ch_api_budgy.Cycle.Saisie.{
  afficher_annee, avec_tete, borne, chiffres, completer, dans_la_plage, decimal, est_chiffre, fmt,
  lire_annee, lire_mois, lire_parties, nombre, parse, parse_i32, parse_u32, plus, positif,
  split_once, tiret,
}

abbrev EstChiffre : ℕ → Type 0
EstChiffre c = est_chiffre c ≡ true

-- The number has at most `k + 1` digits.
abbrev Tient : ℕ → ℕ → Type 0
Tient zero n = n < 10
Tient (suc k) n = Tient k (n / 10)

chiffre : (d : ℕ) → d < 10 → EstChiffre (48 + d)
unfolding est_chiffre
chiffre d h = ground arith

reste : (n : ℕ) → n % 10 < 10
reste n = omega arith

decimal-court : (f n : ℕ) → n < 10 → decimal (suc f) n ≡ (48 + n) ∷ []
unfolding decimal
decimal-court f n h = rw (decimal, petit) refl
  where
    petit : ltb n 10 ≡ true
    petit = ground (arith, h)

decimal-long : (f n : ℕ) → 10 ≤ n → decimal (suc f) n ≡ decimal f (n / 10) ++ (48 + n % 10) ∷ []
unfolding decimal
decimal-long f n h = rw (decimal, grand) refl
  where
    grand : ltb n 10 ≡ false
    grand = ground (arith, h)

taille : (n : ℕ) → (n < 10) ⊎ (10 ≤ n)
taille n = ground arith

decimal-All : (f n : ℕ) → All EstChiffre (decimal f n)
unfolding decimal
decimal-All zero n = (chiffre (n % 10) (reste n), tt)
decimal-All (suc f) n = elim (taille n) [
  | inl h ↦ subst (All EstChiffre) (sym (decimal-court f n h)) (chiffre n h, tt)
  | inr h ↦ subst (All EstChiffre) (sym (decimal-long f n h)) (
      All-append _ (decimal f (n / 10)) _ (decimal-All f (n / 10)) (chiffre (n % 10) (reste n), tt))
]

rien : (a : ℕ) → none ≡ some a → ⊥
rien a e = cc

-- One digit more.
chiffres-ajout :
    (m : ℕ) (s : Texte) (a d : ℕ)
    → d < 10
    → chiffres m s ≡ some a
    → chiffres m (s ++ (48 + d) ∷ []) ≡ some (10 * a + d)
unfolding chiffres
chiffres-ajout m [] a d h e = rw (chiffre d h) (ap some (omega (arith, some_inj e)))
chiffres-ajout m (c ∷ s) a d h e =
    let lu = λ (b : Bool). (if b then chiffres (10 * m + (c - 48)) s else none) ≡ some a in
    elim (Bool-cases (est_chiffre c)) [
      | inl f ↦ rw f (chiffres-ajout (10 * m + (c - 48)) s a d h (subst lu f e))
      | inr f ↦ absurd (rien a (subst lu f e))
    ]

longueur : (f k n : ℕ) → Tient k n → length (decimal f n) ≤ suc k
unfolding decimal
longueur zero k n h = omega arith
longueur (suc f) zero n h = subst (λ s. length s ≤ 1) (sym (decimal-court f n h)) (omega arith)
longueur (suc f) (suc k) n h = elim (taille n) [
  | inl g ↦ subst (λ s. length s ≤ suc (suc k)) (sym (decimal-court f n g)) (omega arith)
  | inr g ↦
      subst (λ s. length s ≤ suc (suc k)) (sym (decimal-long f n g))
        (omega
          (arith, longueur f k (n / 10) h, length-append (decimal f (n / 10)) ((48 + n % 10) ∷ [])))
]

decimal-valeur : (f n : ℕ) → Tient f n → chiffres 0 (decimal f n) ≡ some n
unfolding decimal chiffres
decimal-valeur zero n h = chiffres-ajout 0 [] 0 (n % 10) (reste n) refl ∙ ap some (omega (arith, h))
decimal-valeur (suc f) n h = elim (taille n) [
  | inl g ↦
      ap (chiffres 0) (decimal-court f n g) ∙ chiffres-ajout 0 [] 0 n g refl ∙ ap some (omega arith)
  | inr g ↦
      ap (chiffres 0) (decimal-long f n g)
      ∙ chiffres-ajout 0 (decimal f (n / 10)) (n / 10) (n % 10) (reste n)
          (decimal-valeur f (n / 10) h)
      ∙ ap some (omega arith)
]

zeros-All : (k : ℕ) → All EstChiffre (replicate k 48)
unfolding est_chiffre
zeros-All zero = tt
zeros-All (suc k) = (refl, zeros-All k)

zeros-chiffres : (k : ℕ) (s : Texte) → chiffres 0 (replicate k 48 ++ s) ≡ chiffres 0 s
unfolding chiffres est_chiffre
zeros-chiffres zero s = refl
zeros-chiffres (suc k) s = zeros-chiffres k s

length-replicate : (k c : ℕ) → length (replicate k c) ≡ k
length-replicate zero c = omega arith
length-replicate (suc k) c = omega (arith, length-replicate k c)

-- A number that is written on `w` digits.
module _ (w f k n : ℕ) (tient : Tient k n) (large : suc k ≤ w) (assez : Tient f n) where
  abbrev ecrit : Texte
  ecrit = completer w (decimal f n)

  ecrit-All : All EstChiffre ecrit
  unfolding completer
  ecrit-All =
      All-append _ (replicate (w - length (decimal f n)) 48) (decimal f n) (zeros-All _)
        (decimal-All f n)

  ecrit-length : length ecrit ≡ w
  unfolding completer
  ecrit-length = omega (
    arith,
    length-append (replicate (w - length (decimal f n)) 48) (decimal f n),
    length-replicate (w - length (decimal f n)) 48,
    longueur f k n tient,
    large,
  )

  ecrit-valeur : chiffres 0 ecrit ≡ some n
  unfolding completer
  ecrit-valeur = zeros-chiffres (w - length (decimal f n)) (decimal f n) ∙ decimal-valeur f n assez

sans_signe : (c : ℕ) → EstChiffre c → ((c == tiret) ≡ false) × ((c == plus) ≡ false)
unfolding est_chiffre
sans_signe c h = (ground (arith, h), ground (arith, h))

split_once-All : (s t : Texte) → All EstChiffre s → split_once tiret (s ++ tiret ∷ t) ≡ some (s, t)
unfolding split_once avec_tete
split_once-All [] t h = refl
split_once-All (c ∷ s) t h = rw ((sans_signe c h.0).0) (ap (avec_tete c) (split_once-All s t h.1))

octets-All : (s : Texte) → All EstChiffre s → octets s ≡ length s
unfolding octets len_utf8 est_chiffre
octets-All [] h = omega arith
octets-All (c ∷ s) h = ground (arith, h.0, octets-All s h.1)

-- The texts that the parsers of numbers read, when there is no sign.
borne_large : (limite n : ℕ) → n ≤ limite → borne limite (some n) ≡ some n
unfolding borne
borne_large limite n h = ground (arith, h)

non_signe_i32 :
    (s : Texte)
    → All EstChiffre s
    → 1 ≤ length s
    → parse_i32 s ≡ positif (borne (2 ^ 31 - 1) (chiffres 0 s))
unfolding parse_i32 nombre
non_signe_i32 [] h l = absurd (omega (arith, l))
non_signe_i32 (c ∷ s) h l = rw ((sans_signe c h.0).0, (sans_signe c h.0).1) refl

non_signe_u32 :
    (s : Texte) → All EstChiffre s → 1 ≤ length s → parse_u32 s ≡ borne (2 ^ 32 - 1) (chiffres 0 s)
unfolding parse_u32 nombre
non_signe_u32 [] h l = absurd (omega (arith, l))
non_signe_u32 (c ∷ s) h l = rw ((sans_signe c h.0).1) refl

parties :
    (s t : Texte)
    → octets s ≡ 4
    → octets t ≡ 2
    → lire_parties (some (s, t)) ≡ lire_annee (parse_i32 s) t
unfolding lire_parties
parties s t e f = rw (e, f) refl

plage :
    (a m : ℕ) → 1 ≤ m → m ≤ 12 → dans_la_plage (pos a) m ≡ ok (record { annee = pos a; mois = m })
unfolding dans_la_plage
plage a m h g = ground (arith, h, g)

module _ (s : Texte) (n : ℕ) (h : All EstChiffre s) (l : 1 ≤ length s) (e : chiffres 0 s ≡ some n)
    (b : n < 10000) where
  lu_i32 : parse_i32 s ≡ some (pos n)
  unfolding positif
  lu_i32 =
      non_signe_i32 s h l
      ∙ ap (λ o. positif (borne (2 ^ 31 - 1) o)) e
      ∙ ap positif (borne_large (2 ^ 31 - 1) n (omega (arith, b)))

  lu_u32 : parse_u32 s ≡ some n
  lu_u32 =
      non_signe_u32 s h l
      ∙ ap (borne (2 ^ 32 - 1)) e
      ∙ borne_large (2 ^ 32 - 1) n (omega (arith, b))

-- What is written of the year and of the month.
abbrev Ecrit : ℕ → ℕ → Texte → Type 0
Ecrit w n s = All EstChiffre s × (length s ≡ w) × (chiffres 0 s ≡ some n)

lire :
    (a m : ℕ) (s t : Texte)
    → Ecrit 4 a s
    → Ecrit 2 m t
    → a < 10000
    → 1 ≤ m
    → m ≤ 12
    → parse (s ++ tiret ∷ t) ≡ ok (record { annee = pos a; mois = m })
unfolding parse lire_annee lire_mois
lire a m s t hs ht ba um mm =
    ap lire_parties (split_once-All s t hs.0)
    ∙ parties s t (omega (arith, octets-All s hs.0, hs.1)) (omega (arith, octets-All t ht.0, ht.1))
    ∙ ap (λ o. lire_annee o t) (lu_i32 s a hs.0 (omega (arith, hs.1)) hs.2 ba)
    ∙ ap (lire_mois (pos a)) (lu_u32 t m ht.0 (omega (arith, ht.1)) ht.2 (omega (arith, mm)))
    ∙ plage a m um mm

-- Every month of the years 0 to 9999 is read again from the text that shows it.
pub parse-fmt :
    (annee mois : ℕ)
    → annee < 10000
    → 1 ≤ mois
    → mois ≤ 12
    → parse (fmt (record { annee = pos annee; mois = mois }))
      ≡ ok (record { annee = pos annee; mois = mois })
unfolding fmt afficher_annee
parse-fmt annee mois ba um mm =
    lire annee mois (completer 4 (decimal 10 annee)) (completer 2 (decimal 10 mois))
      (
        ecrit-All 4 10 3 annee (omega arith) (omega arith) (omega arith),
        ecrit-length 4 10 3 annee (omega arith) (omega arith) (omega arith),
        ecrit-valeur 4 10 3 annee (omega arith) (omega arith) (omega arith),
      )
      (
        ecrit-All 2 10 1 mois (omega arith) (omega arith) (omega arith),
        ecrit-length 2 10 1 mois (omega arith) (omega arith) (omega arith),
        ecrit-valeur 2 10 1 mois (omega arith) (omega arith) (omega arith),
      )
      ba um mm
