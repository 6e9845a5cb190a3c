-- ===== src/Prelude/Int.antt =====
-- Signed integers over the native numbers, under the library's names: amounts of money, in hundredths
-- of the major unit.
use Prim.Native.Nat.{ℕ, suc, ◌+◌, ◌-◌}
use mathlib.Core.Path.{◌≡◌}
use mathlib.Core.Bool.{Bool, true}
use native.Mathlib.Omega.{arith}
use ledger_loop.Prelude.Tests.{leb, ◌==◌, if◌then◌else◌}

-- `negsuc n` is -(n + 1).
pub data ℤ : Type 0 where
  pos : ℕ → ℤ
  negsuc : ℕ → ℤ

abbrev pub pos_part : ℤ → ℕ
pos_part (pos n) = n
pos_part (negsuc n) = 0

abbrev pub neg_part : ℤ → ℕ
neg_part (pos n) = 0
neg_part (negsuc n) = suc n

-- a - b, as an integer.
abbrev pub sub_ℕ : ℕ → ℕ → ℤ
sub_ℕ a b = if leb b a then pos (a - b) else negsuc (b - a - 1)

infixl 65 ◌-ℤ◌
unfoldable pub ◌-ℤ◌ : ℤ → ℤ → ℤ
a -ℤ b = sub_ℕ (pos_part a + neg_part b) (neg_part a + pos_part b)

-- `abs(a)`.
abbrev pub magnitude : ℤ → ℕ
magnitude a = pos_part a + neg_part a

-- `a == b`.
abbrev pub eq_ℤ : ℤ → ℤ → Bool
eq_ℤ a b = pos_part a + neg_part b == pos_part b + neg_part a

pub eq_ℤ→eq : (a b : ℤ) → eq_ℤ a b ≡ true → a ≡ b
eq_ℤ→eq a b h = ground arith

pub eq→eq_ℤ : (a b : ℤ) → a ≡ b → eq_ℤ a b ≡ true
eq→eq_ℤ a b h = ground arith

-- `abs(a - b)` over the natural numbers.
abbrev pub dist : ℕ → ℕ → ℕ
dist a b = (a - b) + (b - a)

pub magnitude-sub :
    (a b : ℤ) → magnitude (a -ℤ b) ≡ dist (pos_part a + neg_part b) (pos_part b + neg_part a)
unfolding ◌-ℤ◌
magnitude-sub a b = ground arith

pub magnitude-sub_comm : (a b : ℤ) → magnitude (a -ℤ b) ≡ magnitude (b -ℤ a)
unfolding ◌-ℤ◌
magnitude-sub_comm a b = ground arith

pub dist_comm : (a b : ℕ) → dist a b ≡ dist b a
dist_comm a b = omega arith
