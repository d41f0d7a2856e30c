-- ===== src/Base/Int.antt =====
-- Signed numbers. The program's numbers that may be fractions (canvas coordinates, watts, cores,
-- gigabytes) are integers that count thousandths.
use Prim.Native.Nat.{ℕ, zero, suc, ◌/◌, ◌+◌, ◌-◌, ◌*◌}
use mathlib.Core.Bool.{Bool, true, false}
use mathlib.Core.Path.{◌≡◌}
use mathlib.Core.Logic.{◌↔◌}
use native.Mathlib.Omega.{arith}
use homelab_builder.Base.Tests.{leb, ltb, Eq, nat_eq, ◌==◌, if◌then◌else◌}

-- `negsuc n` is -(n + 1).
pub data ℤ : Type 0 where
  pos : ℕ → ℤ
  negsuc : ℕ → ℤ

abbrev pub pos_part : ℤ → ℕ
pos_part (pos n) = n
pos_part (negsuc n) = 0

abbrev pub neg_part : ℤ → ℕ
neg_part (pos n) = 0
neg_part (negsuc n) = suc n

-- a - b, as an integer.
abbrev pub sub_ℕ : ℕ → ℕ → ℤ
sub_ℕ a b = if leb b a then pos (a - b) else negsuc (b - a - 1)

infixl 65 ◌+ℤ◌ ◌-ℤ◌
unfoldable pub ◌+ℤ◌ : ℤ → ℤ → ℤ
a +ℤ b = sub_ℕ (pos_part a + pos_part b) (neg_part a + neg_part b)

unfoldable pub ◌-ℤ◌ : ℤ → ℤ → ℤ
a -ℤ b = sub_ℕ (pos_part a + neg_part b) (neg_part a + pos_part b)

-- `Math.abs`
unfoldable pub abs : ℤ → ℕ
abs a = pos_part a + neg_part a

abbrev int_beq : ℤ → ℤ → Bool
int_beq (pos m) (pos n) = m == n
int_beq (negsuc m) (negsuc n) = m == n
int_beq _ _ = false

pub int_beq_iff : (a b : ℤ) → (int_beq a b ≡ true) ↔ (a ≡ b)
int_beq_iff (pos m) (pos n) = ground arith
int_beq_iff (negsuc m) (negsuc n) = ground arith
int_beq_iff (pos m) (negsuc n) = ground arith
int_beq_iff (negsuc m) (pos n) = ground arith

instance abbrev pub int_eq : Eq ℤ
int_eq = record { test = int_beq; test_iff = int_beq_iff }

-- A whole number, in thousandths.
abbrev pub whole : ℕ → ℤ
whole n = pos (n * 1000)

abbrev negative : ℕ → ℤ
negative zero = pos 0
negative (suc m) = negsuc m

-- `Math.round` of thousandths.
unfoldable pub rounded : ℤ → ℤ
rounded (pos n) = pos ((n + 500) / 1000)
rounded (negsuc n) = negative ((n + 500) / 1000)

-- `a < b` on numbers.
abbrev pub int_lt : ℤ → ℤ → Bool
int_lt a b = ltb (pos_part a + neg_part b) (pos_part b + neg_part a)
