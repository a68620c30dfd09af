-- ===== src/Base/Int.antt =====
-- C `int` values: `pos n` is n and `negsuc n` is -(n + 1). Ranges are stated where they matter.
use Prim.Native.Nat.{ℕ, zero, suc, ◌+◌, ◌/◌, ◌%◌}
use mathlib.Core.Bool.{Bool, true, false}
use os.Base.Tests.{leb, ◌==◌}

pub data ℤ : Type 0 where
  pos : ℕ → ℤ
  negsuc : ℕ → ℤ

-- The result -1 of a failed call, and -2 of one that would block.
abbrev pub minus_one : ℤ
minus_one = negsuc 0

abbrev pub minus_two : ℤ
minus_two = negsuc 1

-- x - 1
abbrev pub pred_ℤ : ℤ → ℤ
pred_ℤ (pos zero) = negsuc 0
pred_ℤ (pos (suc n)) = pos n
pred_ℤ (negsuc n) = negsuc (suc n)

-- -n
abbrev pub neg : ℕ → ℤ
neg zero = pos 0
neg (suc n) = negsuc n

-- C division by two rounds towards zero: -1 / 2 is 0.
abbrev pub half_ℤ : ℤ → ℤ
half_ℤ (pos n) = pos (n / 2)
half_ℤ (negsuc n) = neg ((n + 1) / 2)

-- x % 2 == 0
abbrev pub even_ℤ : ℤ → Bool
even_ℤ (pos n) = n % 2 == 0
even_ℤ (negsuc n) = (n + 1) % 2 == 0

abbrev pub eq_ℤ : ℤ → ℤ → Bool
eq_ℤ (pos a) (pos b) = a == b
eq_ℤ (pos a) (negsuc b) = false
eq_ℤ (negsuc a) (pos b) = false
eq_ℤ (negsuc a) (negsuc b) = a == b

-- a - b on numbers
abbrev pub sub_nat : ℕ → ℕ → ℤ
sub_nat a zero = pos a
sub_nat zero (suc b) = negsuc b
sub_nat (suc a) (suc b) = sub_nat a b

abbrev pub add_ℤ : ℤ → ℤ → ℤ
add_ℤ (pos a) (pos b) = pos (a + b)
add_ℤ (pos a) (negsuc b) = sub_nat a (suc b)
add_ℤ (negsuc a) (pos b) = sub_nat b (suc a)
add_ℤ (negsuc a) (negsuc b) = negsuc (suc (a + b))

abbrev pub neg_ℤ : ℤ → ℤ
neg_ℤ (pos a) = neg a
neg_ℤ (negsuc a) = pos (suc a)

abbrev pub sub_ℤ : ℤ → ℤ → ℤ
sub_ℤ a b = add_ℤ a (neg_ℤ b)

abbrev pub leb_ℤ : ℤ → ℤ → Bool
leb_ℤ (pos a) (pos b) = leb a b
leb_ℤ (pos a) (negsuc b) = false
leb_ℤ (negsuc a) (pos b) = true
leb_ℤ (negsuc a) (negsuc b) = leb b a

abbrev pub ltb_ℤ : ℤ → ℤ → Bool
ltb_ℤ a b = leb_ℤ (add_ℤ a (pos 1)) b
