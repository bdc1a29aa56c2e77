-- ===== src/Prelude/I64.antt =====
-- Rust's `i64`: the plain operators wrap around (release profile), `saturating_add` clamps.
use mathlib.Core.Path.{◌≡◌}
use Prim.Native.Nat.{ℕ, ◌-◌, ◌%◌, ◌^◌}
use native.Mathlib.Omega.{arith}
use ch_api_budgy.Prelude.Tests.{ltb, if◌then◌else◌}
use ch_api_budgy.Prelude.Int.{ℤ, pos, negsuc, ◌+ℤ◌, ◌-ℤ◌, ◌≤ℤ◌, ltb_ℤ}

abbrev pub i64_max : ℤ
i64_max = pos (2 ^ 63 - 1)

abbrev pub i64_min : ℤ
i64_min = negsuc (2 ^ 63 - 1)

abbrev pub InRange : ℤ → Type 0
InRange a = (i64_min ≤ℤ a) × (a ≤ℤ i64_max)

-- The residue of an integer modulo 2 ^ 64, and the `i64` that has it.
abbrev bits : ℤ → ℕ
bits (pos n) = n % 2 ^ 64
bits (negsuc n) = 2 ^ 64 - 1 - n % 2 ^ 64

unfoldable pub wrap : ℤ → ℤ
wrap a = if ltb (bits a) (2 ^ 63) then pos (bits a) else negsuc (2 ^ 64 - 1 - bits a)

unfoldable pub add_i64 : ℤ → ℤ → ℤ
add_i64 a b = wrap (a +ℤ b)

unfoldable pub sub_i64 : ℤ → ℤ → ℤ
sub_i64 a b = wrap (a -ℤ b)

unfoldable pub neg_i64 : ℤ → ℤ
neg_i64 a = wrap (pos 0 -ℤ a)

unfoldable pub abs_i64 : ℤ → ℤ
unfolding neg_i64
abs_i64 a = if ltb_ℤ a (pos 0) then neg_i64 a else a

unfoldable pub saturating_add : ℤ → ℤ → ℤ
saturating_add a b =
    let s = a +ℤ b in if ltb_ℤ i64_max s then i64_max else if ltb_ℤ s i64_min then i64_min else s

pub wrap-InRange : (a : ℤ) → InRange (wrap a)
unfolding wrap
wrap-InRange a = ground arith

pub wrap_id : (a : ℤ) → InRange a → wrap a ≡ a
unfolding wrap
wrap_id a h = ground arith

-- Within the range the operators are those of the integers.
pub add_i64_exact : (a b : ℤ) → InRange (a +ℤ b) → add_i64 a b ≡ a +ℤ b
unfolding add_i64
add_i64_exact a b h = wrap_id (a +ℤ b) h

pub sub_i64_exact : (a b : ℤ) → InRange (a -ℤ b) → sub_i64 a b ≡ a -ℤ b
unfolding sub_i64
sub_i64_exact a b h = wrap_id (a -ℤ b) h

pub neg_i64_exact : (a : ℤ) → InRange (pos 0 -ℤ a) → neg_i64 a ≡ pos 0 -ℤ a
unfolding neg_i64
neg_i64_exact a h = wrap_id (pos 0 -ℤ a) h

pub saturating_add-InRange : (a b : ℤ) → InRange (saturating_add a b)
unfolding saturating_add
saturating_add-InRange a b = ground arith

pub saturating_add_exact : (a b : ℤ) → InRange (a +ℤ b) → saturating_add a b ≡ a +ℤ b
unfolding saturating_add
saturating_add_exact a b h = ground arith
