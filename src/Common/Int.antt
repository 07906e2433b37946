-- ===== src/Common/Int.antt =====
-- Python's `int` where a negative value occurs: `negsuc n` is -(n + 1).
use Prim.Native.Nat.{ℕ, suc, ◌+◌, ◌-◌}
use mathlib.Core.Path.{◌≡◌, refl}
use mathlib.Core.Bool.{Bool, true, false}
use mathlib.Core.Logic.{inl, inr}
use native.Mathlib.Omega.{arith}
use cloudspells.Common.Tests.{leb, ltb, if◌then◌else◌, Bool-cases}
use mathlib.Core.List.{◌++◌}
use cloudspells.Common.Text.{Text, codes}
use cloudspells.Common.Decimal.{str}

pub data ℤ : Type 0 where
  pos : ℕ → ℤ
  negsuc : ℕ → ℤ

unfoldable pub int_str : ℤ → Text
int_str (pos n) = str n
int_str (negsuc n) = codes "-" ++ str (n + 1)

-- `a <= b`
abbrev pub leb_int : ℤ → ℤ → Bool
leb_int (pos a) (pos b) = leb a b
leb_int (negsuc a) (pos b) = true
leb_int (pos a) (negsuc b) = false
leb_int (negsuc a) (negsuc b) = leb b a

infixl 60 ◌+ℤ◌
abbrev pub ◌+ℤ◌ : ℤ → ℤ → ℤ
pos a +ℤ pos b = pos (a + b)
pos a +ℤ negsuc b = if ltb b a then pos (a - suc b) else negsuc (b - a)
negsuc a +ℤ pos b = if ltb a b then pos (b - suc a) else negsuc (a - b)
negsuc a +ℤ negsuc b = negsuc (suc (a + b))

-- Python's `min` and `max` of two values: the first of equal ones.
abbrev pub min_int : ℤ → ℤ → ℤ
min_int a b = if leb_int a b then a else b

abbrev pub max_int : ℤ → ℤ → ℤ
max_int a b = if leb_int b a then a else b

leb_int_refl : (a : ℤ) → leb_int a a ≡ true
leb_int_refl (pos a) = ground arith
leb_int_refl (negsuc a) = ground arith

leb_int_total : (a b : ℤ) → leb_int a b ≡ false → leb_int b a ≡ true
leb_int_total (pos a) (pos b) h = ground arith
leb_int_total (pos a) (negsuc b) h = refl
leb_int_total (negsuc a) (pos b) h = ground arith
leb_int_total (negsuc a) (negsuc b) h = ground arith

-- The bounds that `min` and `max` keep.
pub min_int-le_left : (a b : ℤ) → leb_int (min_int a b) a ≡ true
min_int-le_left a b = elim (Bool-cases (leb_int a b)) [
  | inl h ↦ rw h (leb_int_refl a)
  | inr h ↦ rw h (leb_int_total a b h)
]

pub le_left-max_int : (a b : ℤ) → leb_int a (max_int a b) ≡ true
le_left-max_int a b = elim (Bool-cases (leb_int b a)) [
  | inl h ↦ rw h (leb_int_refl a)
  | inr h ↦ rw h (leb_int_total b a h)
]

pub max_int-le :
    (a b c : ℤ) → leb_int a c ≡ true → leb_int b c ≡ true → leb_int (max_int a b) c ≡ true
max_int-le a b c ha hb = elim (Bool-cases (leb_int b a)) [ inl h ↦ rw h ha | inr h ↦ rw h hb ]

pub leb_int_trans : (a b c : ℤ) → leb_int a b ≡ true → leb_int b c ≡ true → leb_int a c ≡ true
leb_int_trans (pos a) (pos b) (pos c) h k = ground arith
leb_int_trans (pos a) (pos b) (negsuc c) h k = ground arith
leb_int_trans (pos a) (negsuc b) (pos c) h k = ground arith
leb_int_trans (pos a) (negsuc b) (negsuc c) h k = ground arith
leb_int_trans (negsuc a) (pos b) (pos c) h k = refl
leb_int_trans (negsuc a) (pos b) (negsuc c) h k = ground arith
leb_int_trans (negsuc a) (negsuc b) (pos c) h k = refl
leb_int_trans (negsuc a) (negsuc b) (negsuc c) h k = ground arith
