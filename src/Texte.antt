-- ===== src/Texte.antt =====
-- Rust's texts as lists of code points: `char::is_whitespace`, `trim`, `split_whitespace`, the order
-- of `str` (that of UTF-8 bytes is that of code points).
pub mod Ordre
use ch_api_budgy.Prelude.{
  ℕ, ◌+◌, ◌<◌, Bool, true, false, ◌&&◌, ◌||◌, List, [], ◌∷◌, ltb, leb, ◌==◌, if◌then◌else◌,
}
use mathlib.Core.List.{reverse}
use Prim.Native.Char.{code}
use Prim.Native.String.{String}

abbrev pub Texte : Type 0
Texte = List ℕ

-- The code points of a literal.
abbrev pub codes : String → Texte
codes String.[] = []
codes (String.◌∷◌ c s) = code c ∷ codes s

-- Unicode's White_Space.
unfoldable pub is_whitespace : ℕ → Bool
is_whitespace c =
    (leb 9 c && leb c 13)
    || c == 32
    || c == 0x85
    || c == 0xA0
    || c == 0x1680
    || (leb 0x2000 c && leb c 0x200A)
    || c == 0x2028
    || c == 0x2029
    || c == 0x202F
    || c == 0x205F
    || c == 0x3000

abbrev pub trim_start : Texte → Texte
trim_start [] = []
trim_start (c ∷ s) = if is_whitespace c then trim_start s else c ∷ s

unfoldable pub trim : Texte → Texte
trim s = reverse (trim_start (reverse (trim_start s)))

abbrev pub is_empty {ℓ} : {A : Type ℓ} → List A → Bool
is_empty [] = true
is_empty (x ∷ xs) = false

abbrev pub text_eq : Texte → Texte → Bool
text_eq [] [] = true
text_eq [] (d ∷ t) = false
text_eq (c ∷ s) [] = false
text_eq (c ∷ s) (d ∷ t) = c == d && text_eq s t

-- `a <= b` on `str`
abbrev pub text_le : Texte → Texte → Bool
text_le [] t = true
text_le (c ∷ s) [] = false
text_le (c ∷ s) (d ∷ t) = ltb c d || (c == d && text_le s t)

-- The word that is read, and the rest.
mots_depuis : Texte → Texte → List Texte
unfolding is_whitespace
mots_depuis mot [] = if is_empty mot then [] else reverse mot ∷ []
mots_depuis mot (c ∷ s) = elim (is_whitespace c) [
  | true ↦ (let rest = mots_depuis [] s in if is_empty mot then rest else reverse mot ∷ rest)
  | false ↦ mots_depuis (c ∷ mot) s
]

unfoldable pub split_whitespace : Texte → List Texte
unfolding mots_depuis
split_whitespace s = mots_depuis [] s

-- The bytes of a character in UTF-8.
unfoldable pub len_utf8 : ℕ → ℕ
len_utf8 c = if ltb c 0x80 then 1 else if ltb c 0x800 then 2 else if ltb c 0x10000 then 3 else 4

-- `str::len`
unfoldable pub octets : Texte → ℕ
unfolding len_utf8
octets [] = 0
octets (c ∷ s) = len_utf8 c + octets s
