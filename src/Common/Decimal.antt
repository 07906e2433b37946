-- ===== src/Common/Decimal.antt =====
-- Python's `str` of a number that is not negative: its decimal digits, without leading zeros.
use Prim.Native.Nat.{ℕ, zero, suc, ◌+◌, ◌-◌, ◌*◌, ◌/◌, ◌%◌, ◌<◌}
use mathlib.Core.Path.{◌≡◌, refl, sym, ap, ◌∙◌}
use mathlib.Core.List.{[], ◌∷◌}
use native.Mathlib.Omega.{arith}
use cloudspells.Common.Tests.{ltb, if◌then◌else◌}
use cloudspells.Common.Text.{Text, codes}

-- The digits of `n` in front of `out`. The fuel is above `n`, and a round divides by ten.
unfoldable pub digits : ℕ → ℕ → Text → Text
digits zero n out = out
digits (suc f) n out =
    let d = b'0' + n % 10 in
    let rest = digits f (n / 10) (d ∷ out) in if ltb n 10 then d ∷ out else rest

unfoldable pub str : ℕ → Text
unfolding digits
str n = digits (suc n) n []

-- What a text of digits stands for, read on from `n`.
abbrev pub read : ℕ → Text → ℕ
read n [] = n
read n (c ∷ s) = read (n * 10 + (c - b'0')) s

read-digits : (f n : ℕ) (out : Text) → n < f → read 0 (digits f n out) ≡ read n out
unfolding digits
read-digits zero n out h = elim h [ ]
read-digits (suc f) n out h =
    let e : n / 10 * 10 + (b'0' + n % 10 - b'0') ≡ n = omega arith in
    ground (arith, read-digits f (n / 10) ((b'0' + n % 10) ∷ out), e)

-- Two numbers with one print are one number.
pub str_injective : (m n : ℕ) → str m ≡ str n → m ≡ n
unfolding str codes
str_injective m n e =
    sym (read-digits (suc m) m [] (omega arith))
    ∙ ap (read 0) e
    ∙ read-digits (suc n) n [] (omega arith)

-- A print is read as the number.
pub read-str : (n : ℕ) → read 0 (str n) ≡ n
unfolding str
read-str n = read-digits (suc n) n [] (omega arith)

str_runs : str 65535 ≡ codes "65535"
unfolding str codes
str_runs = refl
